-- ===== src/Ops/Remove.antt =====
-- a1fs_rmdir of a1b/a1fs.c, and what it shares with a1fs_unlink, where nothing stands in the way.
use extent_based_fs.Base.{
  ℕ, ◌+◌, ◌-◌, ◌%◌, ◌^◌, ◌<◌, ◌≡◌, ◌≢◌, refl, ◌∙◌, true, false, List, [], ◌∷◌, ◌++◌, some, arith,
  lt→ltb,
}
use extent_based_fs.Base.Int.{ℤ, pos, minus_one, neg, ◌+ℤ◌}
use extent_based_fs.Types.{FsCtx, Inode, ok, inode_capacity}
use extent_based_fs.Bitmap.{check_bit_usage, flip_bit, set_bits}
use extent_based_fs.Bitmap.Toggle.{IsBytes, check-flip_bit}
use extent_based_fs.Dir.{inode_lookup, strtok, get_inode_num}
use extent_based_fs.Dir.Lookup.{IsDir, has_name}
use extent_based_fs.Dir.Entries.{entries-AllSlots, first_with-IsSlot}
use extent_based_fs.Dir.Resolve.{Resolves, here, step, get_inode_num-Resolves}
use extent_based_fs.Entry.{find_entry}
use extent_based_fs.Entry.Fill.{IsName}
use extent_based_fs.Entry.Add.{has_ino, find_entry-first_with}
use extent_based_fs.Entry.Clear.{
  OnlyAt, cleared, clear_entry-cleared, lookup-cleared, lookup-cleared_other,
}
use extent_based_fs.Ops.Changed.{
  changed, Avoids, IsDir-changed, lookup-changed, find_entry-changed, walk-changed,
}
use extent_based_fs.Ops.{remove_node, a1fs_rmdir, enotempty}

-- The inode as it is reset; its mode and extents stay.
abbrev pub reset : FsCtx → ℕ → Inode
reset s ino = record (s.itable ino) {
  i_mtime = s.clock s.ticks;
  links = 0;
  size = 0;
  last_used_extent = minus_one;
  last_used_indirect = minus_one;
  num_entries = 0;
}

-- The state once the inode is reset and given back.
abbrev pub released : FsCtx → ℕ → FsCtx
released s ino =
    changed s ino (reset s ino) (s.sb.sb_free_inodes_count +ℤ pos 1) (flip_bit s.inode_bits ino)
      (s.ticks + 1)

-- The path leads to inode `ino`, by a name that only the entry at offset `a` of the parent
-- directory `p` has, which is the first entry with that inode number.
pub record Removable (s : FsCtx) (path name : List ℕ) (p ino a : ℕ) (es : List ℕ) : Type 0 where
  pub dirs : List (List ℕ)
  pub above : ℤ
  pub tokens : strtok path ≡ dirs ++ name ∷ []
  pub resolves : Resolves s (pos 0) (pos 0) dirs above (pos p)
  pub avoids : Avoids ino resolves
  pub apart : p ≢ ino
  pub parent : IsDir s p es
  pub leads : inode_lookup (pos p) name s ≡ ok (pos ino) s
  pub entry : find_entry p (pos ino) s ≡ ok (some a) s
  pub named : has_name s.image name a ≡ true
  pub only : OnlyAt (has_name s.image name) a es
  pub ok_name : IsName name
  pub nonempty : name ≢ []
  pub in_table : ino < inode_capacity s.sb
  pub used : check_bit_usage s.inode_bits ino ≡ true

module _ {s : FsCtx} {path name : List ℕ} {p ino a : ℕ} {es : List ℕ}
    (h : Removable s path name p ino a es) where
  -- The name leads nowhere, every other name in the directory leads where it did, the inode is
  -- reset and its bit clear; the parent counts one entry less; the other inodes and their bits are
  -- as they were.
  abbrev pub Removed : FsCtx → Type 0
  Removed t =
      (inode_lookup (pos p) name t ≡ ok minus_one t)
      × ((other : List ℕ) (r : ℤ)
          → IsName other
          → other ≢ name
          → other ≢ []
          → inode_lookup (pos p) other s ≡ ok r s
          → inode_lookup (pos p) other t ≡ ok r t)
      × (t.itable ino ≡ reset s ino)
      × ((t.itable p).num_entries ≡ ((s.itable p).num_entries + 2 ^ 32 - 1) % 2 ^ 32)
      × ((j : ℕ) → j ≢ p → j ≢ ino → t.itable j ≡ s.itable j)
      × (check_bit_usage t.inode_bits ino ≡ false)
      × ((j : ℕ) → j ≢ ino → check_bit_usage t.inode_bits j ≡ check_bit_usage s.inode_bits j)

  pub leads_to : get_inode_num path 0 s ≡ ok (pos ino) s
  leads_to =
      (get_inode_num-Resolves s path {par = pos p} {curr = pos ino}
        (rw h.tokens (snoc h.resolves h.leads))).0
    where
      snoc :
          {par curr par' curr' : ℤ} {dirs : List (List ℕ)}
          → Resolves s par curr dirs par' curr'
          → inode_lookup curr' name s ≡ ok (pos ino) s
          → Resolves s par curr (dirs ++ name ∷ []) curr' (pos ino)
      snoc here l = step l (λ e. cc) here
      snoc (step e ne r) l = step e ne (snoc r l)

  other : pos p ≢ pos ino
  other e = h.apart (cc)

  parent_released : get_inode_num path 1 (released s ino) ≡ ok (pos p) (released s ino)
  unfolding get_inode_num
  parent_released =
      rw
        (
          h.tokens,
          walk-changed (reset s ino) _ (flip_bit s.inode_bits ino) _ ino name h.resolves (λ e. cc)
              h.avoids other h.leads,
        )
        refl

  released-IsDir : IsDir (released s ino) p es
  released-IsDir = IsDir-changed (reset s ino) _ (flip_bit s.inode_bits ino) _ h.apart h.parent

  aligned : a % 256 ≡ 0
  aligned =
      (first_with-IsSlot s.size (has_ino s.image (pos ino)) es
        (ground (arith, find_entry-first_with (pos ino) h.parent, h.entry))
        (entries-AllSlots s (s.itable p) es h.parent.entries)).0.0

  pub remove_node-cleared :
      (drop_dir : ℤ)
      → remove_node path ino drop_dir s ≡ ok (pos 0) (cleared (released s ino) p a drop_dir)
  unfolding remove_node set_bits
  remove_node-cleared drop_dir =
      rw
        (
          lt→ltb ino _ h.in_table,
          lt→ltb ino _ h.in_table,
          h.used,
          parent_released,
          find_entry-changed (reset s ino) _ (flip_bit s.inode_bits ino) _ s ino p (pos ino) h.apart
              h.entry,
          clear_entry-cleared (released s ino) p a drop_dir h.parent.in_table,
        )
        refl

  pub remove_node-Removed :
      (drop_dir : ℤ)
      → IsBytes s.inode_bits
      → (t : FsCtx) × (remove_node path ino drop_dir s ≡ ok (pos 0) t)
        × Removed t
        × (t.block_bits ≡ s.block_bits)
  remove_node-Removed drop_dir bytes = (
    cleared (released s ino) p a drop_dir,
    remove_node-cleared drop_dir,
    (
      lookup-cleared a name drop_dir released-IsDir aligned h.ok_name h.nonempty h.only,
      λ other r ok_other ne nonempty before.
          lookup-cleared_other a name drop_dir released-IsDir aligned h.ok_name h.named other r
            ok_other ne nonempty
            (lookup-changed (reset s ino) _ (flip_bit s.inode_bits ino) _ s ino p other h.apart
              before),
      ground (arith, h.apart),
      ground (arith, h.apart),
      λ j np ni. ground arith,
      check-flip_bit ino ino bytes ∙ ground (arith, h.used),
      λ j ne. check-flip_bit ino j bytes ∙ ground (arith, ne),
    ),
    refl,
  )

-- Removing an empty directory, by a path that leads to it through other directories and a name
-- that only its entry has in the parent, the first one there with its inode number, succeeds:
-- afterwards its name leads nowhere, every other name in the parent leads where it did, the inode
-- is reset and its bit clear, the parent counts one entry less, and no other inode and no other
-- inode bit has changed. A directory with entries is refused with -ENOTEMPTY, and nothing changes.
pub a1fs_rmdir-Removed :
    {s : FsCtx} {path name : List ℕ} {p ino a : ℕ} {es : List ℕ}
    (h : Removable s path name p ino a es)
    → IsBytes s.inode_bits
    → ((s.itable ino).num_entries ≡ 0
        → (t : FsCtx) × (a1fs_rmdir path s ≡ ok (pos 0) t) × Removed h t)
      × (0 < (s.itable ino).num_entries → a1fs_rmdir path s ≡ ok (neg enotempty) s)
unfolding a1fs_rmdir
a1fs_rmdir-Removed {s} {ino} h bytes = (
  λ empty.
      let (t, e, removed, blocks) = remove_node-Removed h (pos 1) bytes in
      (t, rw (leads_to h, lt→ltb ino _ h.in_table, empty) e, removed),
  λ full. rw (leads_to h, lt→ltb ino _ h.in_table, lt→ltb 0 _ full) refl,
)
