-- ===== src/Ops/Make.antt =====
-- a1fs_mkdir and a1fs_create of a1b/a1fs.c where nothing stands in the way.
use Prim.Native.Nat.{bit_or}
use extent_based_fs.Base.{
  ℕ, ◌+◌, ◌%◌, ◌^◌, ◌<◌, ◌≡◌, ◌≢◌, refl, sym, ◌∙◌, inl, inr, true, false, List, [], ◌∷◌, ◌++◌, some,
  arith, lt→ltb,
}
use extent_based_fs.Base.Int.{ℤ, pos, minus_one, neg, ◌-ℤ◌}
use extent_based_fs.Types.{FsCtx, Inode, Cmd, ok, pure, inode_capacity}
use extent_based_fs.Bitmap.{check_bit_usage, flip_bit, set_bits, get_available_bit}
use extent_based_fs.Bitmap.Toggle.{IsBytes, check-flip_bit}
use extent_based_fs.Bitmap.FirstFit.{get_available_bit-InodeChoice}
use extent_based_fs.Dir.{inode_lookup, strtok, get_inode_num, last_name}
use extent_based_fs.Dir.Lookup.{IsDir}
use extent_based_fs.Dir.Resolve.{Resolves}
use extent_based_fs.Alloc.{create_inode}
use extent_based_fs.Entry.{find_entry, add_dentry}
use extent_based_fs.Entry.Fill.{IsName}
use extent_based_fs.Entry.Visible.{add_dentry-lookup}
use extent_based_fs.Ops.Changed.{
  changed, Avoids, IsDir-changed, lookup-changed, find_entry-changed, walk-changed,
}
use extent_based_fs.Ops.{
  new_node, new_name, a1fs_mkdir, a1fs_create, s_ifdir, is_reg, return_errno, enoent,
}

-- A fresh inode; the extents keep what the table held.
abbrev pub fresh : FsCtx → (ino mode : ℕ) → Inode
fresh s ino mode = record (s.itable ino) {
  mode = mode;
  links = 0;
  size = 0;
  i_mtime = s.clock s.ticks;
  last_used_extent = minus_one;
  last_used_indirect = minus_one;
  num_entries = 0;
}

-- The state once the inode is taken and initialised.
abbrev pub made : FsCtx → (ino mode : ℕ) → FsCtx
made s ino mode =
    changed s ino (fresh s ino mode) (s.sb.sb_free_inodes_count -ℤ pos 1)
      (flip_bit s.inode_bits ino) (s.ticks + 1)

new_name-last :
    (s : FsCtx) (path : List ℕ) {name : List ℕ}
    → last_name path ≡ some name
    → new_name path s ≡ ok name s
new_name-last s path h = ground arith

-- The parent directory `p` of a new name `name` at the path, with an unused entry at offset `a`,
-- and the free inode `ino` that the new file or directory is to have.
pub record Placeable (s : FsCtx) (path name : List ℕ) (p ino a : ℕ) (es : List ℕ) : Type 0 where
  pub dirs : List (List ℕ)
  pub above : ℤ
  pub tokens : strtok path ≡ dirs ++ name ∷ []
  pub last : last_name path ≡ some name
  pub resolves : Resolves s (pos 0) (pos 0) dirs above (pos p)
  pub avoids : Avoids ino resolves
  pub apart : p ≢ ino
  pub parent : IsDir s p es
  pub unused : find_entry p minus_one s ≡ ok (some a) s
  pub ok_name : IsName name
  pub new : inode_lookup (pos p) name s ≡ ok minus_one s
  pub chosen : get_available_bit s.sb s.inode_bits 0 minus_one ≡ pos ino
  pub in_table : ino < inode_capacity s.sb
  pub small : ino < 2 ^ 31

module _ {s : FsCtx} {path name : List ℕ} {p ino a : ℕ} {es : List ℕ}
    (h : Placeable s path name p ino a es) where
  -- The new entry leads to `ino`, which is a fresh inode with this mode and marked as in use; the
  -- parent counts one entry more; all other inodes and their bits are as they were.
  abbrev pub Made : FsCtx → (mode : ℕ) → Type 0
  Made t mode =
      (inode_lookup (pos p) name t ≡ ok (pos ino) t)
      × (t.itable ino ≡ fresh s ino mode)
      × ((t.itable p).num_entries ≡ ((s.itable p).num_entries + 1) % 2 ^ 32)
      × ((j : ℕ) → j ≢ p → j ≢ ino → t.itable j ≡ s.itable j)
      × (check_bit_usage t.inode_bits ino ≡ true)
      × ((j : ℕ) → j ≢ ino → check_bit_usage t.inode_bits j ≡ check_bit_usage s.inode_bits j)

-- The path leads to a directory `p` that does not have the name, without a lookup in the inode
-- `ino` that is taken.
pub record Located (s : FsCtx) (path name : List ℕ) (p ino : ℕ) : Type 0 where
  pub dirs : List (List ℕ)
  pub above : ℤ
  pub tokens : strtok path ≡ dirs ++ name ∷ []
  pub last : last_name path ≡ some name
  pub resolves : Resolves s (pos 0) (pos 0) dirs above (pos p)
  pub avoids : Avoids ino resolves
  pub apart : p ≢ ino
  pub new : inode_lookup (pos p) name s ≡ ok minus_one s
  pub in_table : ino < inode_capacity s.sb

module _ {s : FsCtx} {path name : List ℕ} {p ino : ℕ} (mode : ℕ)
    (h : Located s path name p ino) where
  other : pos p ≢ pos ino
  other e = h.apart (cc)

  parent-made : get_inode_num path 1 (made s ino mode) ≡ ok (pos p) (made s ino mode)
  unfolding get_inode_num
  parent-made =
      rw
        (
          h.tokens,
          walk-changed (fresh s ino mode) _ (flip_bit s.inode_bits ino) _ ino name h.resolves
              (λ e. cc) h.avoids other h.new,
        )
        refl

  pub new_node_steps :
      (no_parent : Cmd ℤ) (t : FsCtx)
      → add_dentry p ino name (made s ino mode) ≡ ok (pos 0) t
      → new_node path mode ino no_parent s ≡ ok (pos 0) t
  unfolding new_node create_inode set_bits
  new_node_steps no_parent t added =
      rw
        (
          lt→ltb ino _ h.in_table,
          lt→ltb ino _ h.in_table,
          parent-made,
          new_name-last (made s ino mode) path h.last,
          added,
        )
        refl

module _ {s : FsCtx} {path name : List ℕ} {p ino a : ℕ} {es : List ℕ} (mode : ℕ)
    (h : Placeable s path name p ino a es) where
  pub IsDir-made : IsDir (made s ino mode) p es
  IsDir-made = IsDir-changed (fresh s ino mode) _ (flip_bit s.inode_bits ino) _ h.apart h.parent

  pub unused-made : find_entry p minus_one (made s ino mode) ≡ ok (some a) (made s ino mode)
  unused-made =
      find_entry-changed (fresh s ino mode) _ (flip_bit s.inode_bits ino) _ s ino p minus_one
        h.apart h.unused

  pub new_node-Placeable :
      (no_parent : Cmd ℤ) (t : FsCtx)
      → add_dentry p ino name (made s ino mode) ≡ ok (pos 0) t
      → new_node path mode ino no_parent s ≡ ok (pos 0) t
  new_node-Placeable = new_node_steps mode (record {
    dirs = h.dirs;
    above = h.above;
    tokens = h.tokens;
    last = h.last;
    resolves = h.resolves;
    avoids = h.avoids;
    apart = h.apart;
    new = h.new;
    in_table = h.in_table;
  })

  was_free : check_bit_usage s.inode_bits ino ≡ false
  was_free = elim (get_available_bit-InodeChoice s.sb s.inode_bits minus_one) [
    | inl (nothing, why) ↦ cc (h.chosen, nothing)
    | inr (k, e, f) ↦ let same : k ≡ ino = ground (arith, h.chosen) in rw same at f.free
  ]

  new_node-Made :
      (no_parent : Cmd ℤ)
      → IsBytes s.inode_bits
      → (t : FsCtx) × (new_node path mode ino no_parent s ≡ ok (pos 0) t) × Made h t mode
  new_node-Made no_parent bytes =
      let (t, added, dir, seen, count, others, bits, blocks) =
        add_dentry-lookup a ino name IsDir-made unused-made h.ok_name h.small (
          lookup-changed (fresh s ino mode) _ (flip_bit s.inode_bits ino) _ s ino p name h.apart
            h.new) in
      (
        t,
        new_node-Placeable no_parent t added,
        (
          seen,
          others ino (λ e. h.apart (sym e)) ∙ ground arith,
          count ∙ ground (arith, h.apart),
          λ j np ni. others j np ∙ ground arith,
          rw bits (check-flip_bit ino ino bytes ∙ ground (arith, was_free)),
          λ j ne. rw bits (check-flip_bit ino j bytes ∙ ground (arith, ne)),
        ),
      )

-- Making a directory with a new name that fits an entry, in a directory that exists and has an
-- unused entry, by a path that does not pass the inode that is free, succeeds: the name then leads
-- to a fresh inode that is marked as in use and whose mode is the given one with the directory bit,
-- the parent counts one entry more, and no other inode and no other inode bit has changed.
pub a1fs_mkdir-Made :
    {s : FsCtx} {path name : List ℕ} {p ino a : ℕ} {es : List ℕ} (mode : ℕ)
    (h : Placeable s path name p ino a es)
    → IsBytes s.inode_bits
    → (t : FsCtx) × (a1fs_mkdir path mode s ≡ ok (pos 0) t) × Made h t (bit_or mode s_ifdir)
unfolding a1fs_mkdir
a1fs_mkdir-Made {path} mode h bytes =
    let (t, e, made') = new_node-Made (bit_or mode s_ifdir) h (pure (neg enoent)) bytes in
    (t, rw h.chosen e, made')

-- Creating a file with the mode of a regular file and a new name that fits an entry, in a
-- directory that exists and has an unused entry, by a path that does not pass the inode that is
-- free, succeeds: the name then leads to a fresh inode that is marked as in use and has the given
-- mode, the parent counts one entry more, and no other inode and no other inode bit has changed.
pub a1fs_create-Made :
    {s : FsCtx} {path name : List ℕ} {p ino a : ℕ} {es : List ℕ} (mode : ℕ)
    (h : Placeable s path name p ino a es)
    → is_reg mode ≡ true
    → IsBytes s.inode_bits
    → (t : FsCtx) × (a1fs_create path mode s ≡ ok (pos 0) t) × Made h t mode
unfolding a1fs_create
a1fs_create-Made {path} mode h reg bytes =
    let (t, e, made') = new_node-Made mode h return_errno bytes in (t, rw (reg, h.chosen) e, made')
