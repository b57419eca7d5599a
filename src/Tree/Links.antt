-- ===== src/Tree/Links.antt =====
-- Trees of directories: a name leads to an inode that is in use, and no two directories hold names
-- of the same inode. The steps of the callbacks of a1b/a1fs.c keep a tree one.
use extent_based_fs.Base.{
  ℕ, ◌≡◌, ◌≢◌, refl, sym, ap, ◌∙◌, inl, inr, List, Option, none, some, arith, ◌==◌, ==→eq, eq→==,
  ne→==, ◌⊎◌, Bool-cases,
}
use extent_based_fs.Types.{update}
use extent_based_fs.Catalog.{Names, assign, same_name}
use extent_based_fs.Catalog.Rows.{same_name→eq, same_name_refl}
use extent_based_fs.Tree.{Node, vacant, folder, Nodes, with_name}

-- What a node calls `name`.
unfoldable pub child : Node → List ℕ → Option ℕ
child (folder m room) name = m name
child _ name = none

pub record IsLinked (T : Nodes) : Type 0 where
  pub linked : (d : ℕ) (name : List ℕ) (i : ℕ) → child (T d) name ≡ some i → T i ≢ vacant
  pub one_link :
      (d e : ℕ) (name other : List ℕ) (i : ℕ)
      → child (T d) name ≡ some i
      → child (T e) other ≡ some i
      → (d ≡ e) × (name ≡ other)

folder_stands : {m : Names} {room : ℕ} → folder m room ≢ vacant
folder_stands e = cc

module _ {T : Nodes} (links : IsLinked T) (p : ℕ) (m : Names) (room' ino : ℕ) (name : List ℕ)
    (kids : (other : List ℕ) → child (T p) other ≡ m other) where
  stands_elsewhere :
      (m' : Names) (v : Node) (i : ℕ)
      → i ≢ ino
      → T i ≢ vacant
      → with_name T p m' room' ino v i ≢ vacant
  stands_elsewhere m' v i ne stands = elim (Bool-cases (i == p)) [
    | inl e ↦ rw e folder_stands
    | inr e ↦ rw (e, ne→== i ino ne) stands
  ]

  -- The children after a name is given.
  named :
      (v : Node)
      → ((other : List ℕ) → child v other ≡ none)
      → (d : ℕ) (other : List ℕ) (i : ℕ)
      → child (with_name T p (assign m name (some ino)) room' ino v d) other ≡ some i
      → ((d ≡ p) × (other ≡ name) × (i ≡ ino)) ⊎ (child (T d) other ≡ some i)
  named v empty d other i h = elim (Bool-cases (d == p)) [
    | inl q ↦
        let same : d ≡ p = ==→eq d p q in
        elim (Bool-cases (same_name name other)) [
          | inl n ↦ inl (
            same,
            sym (same_name→eq name other n),
            unfold child in ground (arith, rw (q, n) at h),
          )
          | inr n ↦ inr (rw same (kids other ∙ unfold child in rw (q, n) at h))
        ]
    | inr q ↦ elim (Bool-cases (d == ino)) [
      | inl e ↦ cc (empty other, rw (q, e) at h)
      | inr e ↦ inr (rw (q, e) at h)
    ]
  ]

  -- A new name of a vacant inode, which becomes a node without names.
  pub links_name :
      (v : Node)
      → v ≢ vacant
      → ((other : List ℕ) → child v other ≡ none)
      → T ino ≡ vacant
      → T p ≢ vacant
      → IsLinked (with_name T p (assign m name (some ino)) room' ino v)
  links_name v stands empty was lives = record {
    linked = λ d other i h. elim (named v empty d other i h) [
      | inl (e, q, same) ↦
          let other_one : ino ≢ p = λ z. lives (sym (ap T z) ∙ was) in
          rw (same, ne→== ino p other_one, eq→== ino ino refl) stands
      | inr old ↦
          let in_use = links.linked d other i old in
          stands_elsewhere (assign m name (some ino)) v i (λ e. in_use (ap T e ∙ was)) in_use
    ];
    one_link = λ d e x y i h k. elim (named v empty d x i h) [
      | inl (q, n, same) ↦ elim (named v empty e y i k) [
        | inl (q', n', same') ↦ (q ∙ sym q', n ∙ sym n')
        | inr old ↦ absurd (links.linked e y i old (ap T same ∙ was))
      ]
      | inr old ↦ elim (named v empty e y i k) [
        | inl (q', n', same') ↦ absurd (links.linked d x i old (ap T same' ∙ was))
        | inr old' ↦ links.one_link d e x y i old old'
      ]
    ];
  }

  -- The children after a name is taken away.
  unnamed :
      m name ≡ some ino
      → (d : ℕ) (other : List ℕ) (i : ℕ)
      → child (with_name T p (assign m name none) room' ino vacant d) other ≡ some i
      → (child (T d) other ≡ some i) × (i ≢ ino)
  unnamed led d other i h = elim (Bool-cases (d == p)) [
    | inl q ↦
        let same : d ≡ p = ==→eq d p q in
        elim (Bool-cases (same_name name other)) [
          | inl n ↦ unfold child in cc (rw (q, n) at h)
          | inr n ↦
              let old : child (T p) other ≡ some i = kids other ∙ unfold child in rw (q, n) at h in
              (
                rw same old,
                λ z.
                    let again =
                      links.one_link p p name other ino (kids name ∙ led) (old ∙ ap some z) in
                    cc (n, ap (same_name name) again.1, same_name_refl name),
              )
        ]
    | inr q ↦ elim (Bool-cases (d == ino)) [
      | inl e ↦ unfold child in cc (rw (q, e) at h)
      | inr e ↦
          let old : child (T d) other ≡ some i = rw (q, e) at h in
          (
            old,
            λ z.
                let again = links.one_link d p other name ino (old ∙ ap some z) (kids name ∙ led) in
                cc (q, eq→== d p again.0),
          )
    ]
  ]

  -- A name is taken away, and with it the inode that it led to.
  pub unlinks_name :
      m name ≡ some ino → IsLinked (with_name T p (assign m name none) room' ino vacant)
  unlinks_name led = record {
    linked = λ d other i h.
        let (old, ne) = unnamed led d other i h in
        stands_elsewhere (assign m name none) vacant i ne (links.linked d other i old);
    one_link =
        λ d e x y i h k. links.one_link d e x y i (unnamed led d x i h).0 (unnamed led e y i k).0;
  }

-- A node without names becomes another one.
module _ {T : Nodes} (links : IsLinked T) (i : ℕ) (v : Node)
    (before : (name : List ℕ) → child (T i) name ≡ none)
    (after : (name : List ℕ) → child v name ≡ none) where
  same_children : (d : ℕ) (name : List ℕ) → child (update T i v d) name ≡ child (T d) name
  same_children d name = elim (Bool-cases (d == i)) [
    | inl e ↦ rw (e, ==→eq d i e) (after name ∙ sym (before name))
    | inr e ↦ rw e refl
  ]

  pub links_kept : v ≢ vacant → IsLinked (update T i v)
  links_kept stands = record {
    linked = λ d name j e. elim (Bool-cases (j == i)) [
      | inl q ↦ rw q stands
      | inr q ↦ rw q (links.linked d name j (sym (same_children d name) ∙ e))
    ];
    one_link = λ d e name other j p q.
        links.one_link d e name other j (sym (same_children d name) ∙ p)
          (sym (same_children e other) ∙ q);
  }
