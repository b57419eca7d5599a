-- ===== src/Tree/Walk.antt =====
-- get_inode_num of a1b/a1fs_helper.c on a tree of directories.
use extent_based_fs.Base.{
  ℕ, ◌<◌, ◌≡◌, ◌≢◌, refl, sym, ap, ◌∙◌, inl, inr, true, List, none, arith, ltb, Bool-cases,
}
use extent_based_fs.Base.Int.{ℤ, pos}
use extent_based_fs.Types.{FsCtx, ok}
use extent_based_fs.Bitmap.{check_bit_usage}
use extent_based_fs.Dir.{inode_lookup, strtok, get_inode_num}
use extent_based_fs.Dir.Resolve.{Resolves, here, step, get_inode_num-Resolves}
use extent_based_fs.Ops.Changed.{Avoids}
use extent_based_fs.Catalog.{Names}
use extent_based_fs.Catalog.Reads.{to_ino}
use extent_based_fs.Catalog.Shows.{IsEntryName}
use extent_based_fs.Catalog.Steps.{Represents, inode_lookup-Represents}
use extent_based_fs.Tree.{Node, vacant, bare, folder, blank, stored, dropped, Nodes, Leads}
use extent_based_fs.Tree.Links.{child}
use extent_based_fs.Tree.Shape.{Stands, HasNodes}

pub Stands-used :
    (s : FsCtx) (es : List ℕ) (j : ℕ) (v : Node)
    → v ≢ vacant
    → Stands s es j v
    → check_bit_usage s.inode_bits j ≡ true
Stands-used s es j vacant ne h = absurd (ne refl)
Stands-used s es j bare ne h = h.0
Stands-used s es j (folder m room) ne h = h.0
Stands-used s es j blank ne h = h.0
Stands-used s es j (stored size content) ne h = h.0
Stands-used s es j dropped ne h = h.0

module _ {s : FsCtx} {total : ℕ} {T : Nodes} {spare : ℕ} (tree : HasNodes s total T spare) where
  pub used_below : (j : ℕ) → T j ≢ vacant → j < total
  used_below j ne = elim (Bool-cases (ltb j total)) [
    | inl e ↦ ground arith
    | inr e ↦ absurd (ne (tree.beyond j (ground arith)))
  ]

  pub node-Stands : (j : ℕ) {v : Node} → T j ≡ v → v ≢ vacant → Stands s (tree.places j) j v
  node-Stands j e ne = rw e at (tree.stands j (used_below j (λ q. ne (sym e ∙ q))))

  pub folder-Represents :
      (j : ℕ) {m : Names} {room : ℕ} → T j ≡ folder m room → Represents s j (tree.places j) m room
  folder-Represents j e = (node-Stands j e (λ q. cc)).1

  pub lookup-folder :
      (j : ℕ) {m : Names} {room : ℕ} (name : List ℕ)
      → T j ≡ folder m room
      → IsEntryName name
      → inode_lookup (pos j) name s ≡ ok (to_ino (m name)) s
  lookup-folder j name e is = inode_lookup-Represents (folder-Represents j e) name is

  -- What the names lead to is what the walk finds; it makes no lookup in a node without names.
  pub Leads-Resolves :
      {c c' : ℕ} {tokens : List (List ℕ)} (par : ℤ)
      → Leads T c tokens c'
      → (par' : ℤ) × (r : Resolves s par (pos c) tokens par' (pos c')) × ((ino : ℕ)
          → ((name : List ℕ) → child (T ino) name ≡ none)
          → Avoids ino r)
  Leads-Resolves par Leads.here = (par, here, λ ino empty. tt)
  Leads-Resolves {c} par (Leads.down {m} {token} e is led rest) =
      let (par', r, avoids) = Leads-Resolves (pos c) rest in
      (
        par',
        step (lookup-folder c token e is ∙ ap (λ i. ok (to_ino i) s) led) (λ q. cc) r,
        λ ino empty. (
          λ q.
              let same : c ≡ ino = cc in
              let gone = rw (← same, e) at (empty token) in unfold child in cc,
          avoids ino empty,
        ),
      )

  -- In a state that stands for a tree of directories, a path whose every component names an entry
  -- of the directory before it leads to the inode number that the tree gives it, and nothing is
  -- changed.
  pub get_inode_num-Leads :
      (path : List ℕ) {i : ℕ} → Leads T 0 (strtok path) i → get_inode_num path 0 s ≡ ok (pos i) s
  get_inode_num-Leads path l = (get_inode_num-Resolves s path (Leads-Resolves (pos 0) l).1).0
