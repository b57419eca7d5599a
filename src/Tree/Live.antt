-- ===== src/Tree/Live.antt =====
-- a1fs_mkdir and a1fs_create of a1b/a1fs.c succeed on a tree where there is room.
use extent_based_fs.Base.{
  ℕ, zero, suc, ◌-◌, ◌≤◌, ◌<◌, ◌≡◌, ◌≢◌, refl, sym, ap, ◌∙◌, ◌⊎◌, inl, inr, true, List, ◌++◌, none,
  some, arith, ◌==◌, ==→eq, ne→==, eq→==, Bool-cases,
}
use extent_based_fs.Base.Int.{ℤ, pos}
use extent_based_fs.Types.{FsCtx, Cmd, ok}
use extent_based_fs.Dir.{strtok}
use extent_based_fs.Ops.{a1fs_mkdir, a1fs_create, is_reg}
use extent_based_fs.Catalog.{Names, assign, same_name}
use extent_based_fs.Catalog.Rows.{same_name→eq, same_name_refl}
use extent_based_fs.Tree.{
  Node, vacant, bare, folder, blank, stored, dropped, Nodes, Leads, Place, IsFirstVacant, no_names,
  with_name, run_call, Call, Step, makes_dir, makes_file, makes_first_dir, makes_first_file,
}
use extent_based_fs.Tree.Links.{child}
use extent_based_fs.Tree.Shape.{IsTree}
use extent_based_fs.Tree.Describe.{is_vacant}
use extent_based_fs.Tree.Run.{run_call-Step}

-- The directory can take the new name: it has an unused entry, or no block yet where one is free.
abbrev pub HasRoom : Node → (name : List ℕ) → (spare : ℕ) → Type 0
HasRoom bare name spare = 0 < spare
HasRoom (folder m room) name spare = (m name ≡ none) × (0 < room)
HasRoom _ name spare = ⊥

suc_less : (n : ℕ) → 0 < n → n ≡ suc (n - 1)
suc_less n h = omega arith

is_vacant→eq : (v : Node) → is_vacant v ≡ true → v ≡ vacant
is_vacant→eq vacant e = refl
is_vacant→eq bare e = cc
is_vacant→eq (folder m room) e = cc
is_vacant→eq blank e = cc
is_vacant→eq (stored size content) e = cc
is_vacant→eq dropped e = cc

module _ {T : Nodes} {total : ℕ} where
  search_vacant :
      (n : ℕ)
      → n ≤ total
      → ((j : ℕ) → j < n → T j ≢ vacant) ⊎ ((ino : ℕ) × IsFirstVacant T total ino)
  search_vacant zero le = inl (λ j lt. absurd (omega arith))
  search_vacant (suc n) le = elim (search_vacant n (omega arith)) [
    | inr found ↦ inr found
    | inl before ↦ elim (Bool-cases (is_vacant (T n))) [
      | inl e ↦
          inr (n, record { is_vacant = is_vacant→eq (T n) e; below = omega arith; before = before })
      | inr e ↦ inl (λ j lt. elim (Bool-cases (j == n)) [
        | inl q ↦ λ v. cc (e, ap is_vacant v, ap (λ j. is_vacant (T j)) (==→eq j n q))
        | inr q ↦ before j (ground arith)
      ])
    ]
  ]

  pub first_vacant : (j : ℕ) → j < total → T j ≡ vacant → (ino : ℕ) × IsFirstVacant T total ino
  first_vacant j lt e = elim (search_vacant total (omega arith)) [
    | inl all ↦ absurd (all j lt e)
    | inr found ↦ found
  ]

Leads-append :
    {T : Nodes} {a b c : ℕ} {xs ys : List (List ℕ)}
    → Leads T a xs b
    → Leads T b ys c
    → Leads T a (xs ++ ys) c
Leads-append Leads.here l = l
Leads-append (Leads.down e is led rest) l = Leads.down e is led (Leads-append rest l)

module _ (T : Nodes) (p ino room : ℕ) (m : Names) (name : List ℕ) (v : Node)
    (kids : (other : List ℕ) → child (T p) other ≡ m other) (new : m name ≡ none)
    (was : T ino ≡ vacant) where
  abbrev named : Nodes
  named = with_name T p (assign m name (some ino)) room ino v

  still_led :
      (token : List ℕ) {next : ℕ} → m token ≡ some next → assign m name (some ino) token ≡ some next
  still_led token e = elim (Bool-cases (same_name name token)) [
    | inl q ↦ cc (new, e, ap m (same_name→eq name token q))
    | inr q ↦ rw q e
  ]

  Leads-named : {c c' : ℕ} {tokens : List (List ℕ)} → Leads T c tokens c' → Leads named c tokens c'
  Leads-named Leads.here = Leads.here
  Leads-named {c} (Leads.down {next} {m = m'} {room = room'} {token} e is led rest) =
      elim (Bool-cases (c == p)) [
        | inl q ↦
            let there : T p ≡ folder m' room' = ap T (sym (==→eq c p q)) ∙ e in
            let old : m token ≡ some next = sym (kids token) ∙ unfold child in rw there led in
            let dir : named c ≡ folder (assign m name (some ino)) room = rw q refl in
            Leads.down dir is (still_led token old) (Leads-named rest)
        | inr q ↦
            let dir : named c ≡ folder m' room' =
              rw (q, ne→== c ino (λ z. cc (e, was, ap T z))) e in
            Leads.down dir is led (Leads-named rest)
      ]

  new_path : {path : List ℕ} → Place T path name p → Leads named 0 (strtok path) ino
  new_path place =
      let dir : named p ≡ folder (assign m name (some ino)) room = rw (eq→== p p refl) refl in
      rw place.tokens (
        Leads-append (Leads-named place.leads)
          (Leads.down dir place.ok_name (rw (same_name_refl name) refl) Leads.here))

-- The callback `run` returns 0, and afterwards the path leads to a new inode that is `v`.
pub record Appears (run : Cmd ℤ) (s : FsCtx) (total : ℕ) (path : List ℕ) (v : Node) : Type 0 where
  pub after : FsCtx
  pub nodes : Nodes
  pub spare : ℕ
  pub ino : ℕ
  pub runs : run s ≡ ok (pos 0) after
  pub tree : IsTree after total nodes spare
  pub leads : Leads nodes 0 (strtok path) ino
  pub is_new : nodes ino ≡ v

module _ {s : FsCtx} {total : ℕ} {T : Nodes} {spare : ℕ} (tree : IsTree s total T spare)
    {path name : List ℕ} {p : ℕ} (place : Place T path name p) (mode : ℕ) where
  appears :
      {c : Call} (ino room : ℕ) {spare' : ℕ} (m : Names) (v : Node)
      → Step total T spare c (pos 0) (with_name T p (assign m name (some ino)) room ino v) spare'
      → ((other : List ℕ) → child (T p) other ≡ m other)
      → m name ≡ none
      → T ino ≡ vacant
      → T p ≢ vacant
      → Appears (run_call 1 c) s total path v
  appears ino room {spare'} m v step kids new was stands =
      let (t, run, after) = run_call-Step tree step 0 in
      record {
        after = t;
        nodes = with_name T p (assign m name (some ino)) room ino v;
        spare = spare';
        ino = ino;
        runs = run;
        tree = after;
        leads = new_path T p ino room m name v kids new was place;
        is_new = rw (ne→== ino p (λ e. stands (ap T (sym e) ∙ was)), eq→== ino ino refl) refl;
      }

  both :
      (ino : ℕ)
      → IsFirstVacant T total ino
      → (w : Node) → T p ≡ w
      → HasRoom w name spare
      → Appears (a1fs_mkdir path mode) s total path bare
        × (is_reg mode ≡ true → Appears (a1fs_create path mode) s total path blank)
  unfolding run_call
  both ino v bare e room =
      let left : spare ≡ suc (spare - 1) = omega arith in
      let kids : (other : List ℕ) → child (T p) other ≡ none = λ other. unfold child in rw e refl in
      (
        appears ino 15 no_names bare (makes_first_dir {mode = mode} place e left v) kids refl
            v.is_vacant (λ q. cc),
        λ reg.
            appears ino 15 no_names blank (makes_first_file {mode = mode} place e left v reg) kids
              refl v.is_vacant (λ q. cc),
      )
  both ino v (folder m room) e (new, some_room) =
      let parent : T p ≡ folder m (suc (room - 1)) = rw (← (suc_less room some_room)) e in
      let kids : (other : List ℕ) → child (T p) other ≡ m other =
        λ other. unfold child in rw e refl in
      (
        appears ino (room - 1) m bare (makes_dir {mode = mode} place parent new v) kids new
            v.is_vacant (λ q. cc),
        λ reg.
            appears ino (room - 1) m blank (makes_file {mode = mode} place parent new v reg) kids
              new v.is_vacant (λ q. cc),
      )
  both ino v vacant e room = absurd room
  both ino v blank e room = absurd room
  both ino v (stored size content) e room = absurd room
  both ino v dropped e room = absurd room

-- While some inode is vacant, and the directory before the last name of a path has no such name
-- and an unused entry for it, or has no block where one is free: a1fs_mkdir, and a1fs_create with
-- the mode of a regular file, return 0, and the state then stands for a tree in which the path
-- leads to a new directory or file.
pub a1fs_mkdir-Appears :
    {s : FsCtx} {total : ℕ} {T : Nodes} {spare : ℕ}
    → IsTree s total T spare
    → {path name : List ℕ} {p : ℕ} → Place T path name p
    → HasRoom (T p) name spare
    → (j : ℕ) → j < total
    → T j ≡ vacant
    → (mode : ℕ)
    → Appears (a1fs_mkdir path mode) s total path bare
      × (is_reg mode ≡ true → Appears (a1fs_create path mode) s total path blank)
a1fs_mkdir-Appears {T} tree {p} place room j lt e mode =
    let (ino, v) = first_vacant j lt e in both tree place mode ino v (T p) refl room
