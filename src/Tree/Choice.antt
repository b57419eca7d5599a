-- ===== src/Tree/Choice.antt =====
-- get_available_bit of a1b/util.h takes the first inode that the tree leaves vacant.
use extent_based_fs.Base.{ℕ, ◌<◌, ◌≡◌, ◌≢◌, ap, ◌∙◌, inl, inr, true, false, arith, ltb, Bool-cases}
use extent_based_fs.Base.Int.{pos, minus_one, pos_part}
use extent_based_fs.Types.{FsCtx}
use extent_based_fs.Bitmap.{check_bit_usage, get_available_bit}
use extent_based_fs.Bitmap.FirstFit.{AllUsed, IsFirstFree, get_available_bit-InodeChoice}
use extent_based_fs.Bitmap.Count.{count_clear-sets}
use extent_based_fs.Tree.{Nodes, vacant, IsFirstVacant}
use extent_based_fs.Tree.Shape.{HasNodes}
use extent_based_fs.Tree.Walk.{Stands-used}

module _ {s : FsCtx} {total : ℕ} {T : Nodes} {spare : ℕ} (tree : HasNodes s total T spare) where
  pub vacant-free : (j : ℕ) → T j ≡ vacant → j < total → check_bit_usage s.inode_bits j ≡ false
  vacant-free j e below = (rw e at (tree.stands j below)).0

  pub used_bit : (j : ℕ) → T j ≢ vacant → j < total → check_bit_usage s.inode_bits j ≡ true
  used_bit j ne below = Stands-used s (tree.places j) j (T j) ne (tree.stands j below)

  pub chosen :
      {ino : ℕ}
      → IsFirstVacant T total ino
      → get_available_bit s.sb s.inode_bits 0 minus_one ≡ pos ino
  chosen {ino} v = elim (get_available_bit-InodeChoice s.sb s.inode_bits minus_one) [
    | inl (nothing, inl few) ↦ absurd (ground (arith, rw tree.blocks.counted at few))
    | inl (nothing, inr (inl zero_left)) ↦
        let left = rw tree.counts.free_inodes at zero_left in
        absurd (
          ground (
            arith,
            left,
            count_clear-sets ino tree.counts.bytes total v.below
                (vacant-free ino v.is_vacant v.below),
          ))
    | inl (nothing, inr (inr all)) ↦
        let set = all ino (omega arith) (rw tree.counts.inodes v.below) in
        cc (vacant-free ino v.is_vacant v.below)
    | inr (k, e, f) ↦ e ∙ ap pos (same k f)
  ]
    where
      same : (k : ℕ) → IsFirstFree s.inode_bits 0 (pos_part s.sb.sb_inodes_count) k → k ≡ ino
      same k f = elim (Bool-cases (ltb k ino)) [
        | inl lt ↦
            let lt' : k < ino = ground arith in
            cc (f.free, used_bit k (v.before k lt') (omega (arith, v.below)))
        | inr ge ↦ elim (Bool-cases (ltb ino k)) [
          | inl gt ↦
              cc (f.before ino (omega arith) (ground arith), vacant-free ino v.is_vacant v.below)
          | inr le ↦ ground arith
        ]
      ]

  pub none_chosen :
      ((j : ℕ) → j < total → T j ≢ vacant) → AllUsed s.inode_bits 0 (pos_part s.sb.sb_inodes_count)
  none_chosen all j lo hi =
      let below : j < total = rw tree.counts.inodes at hi in used_bit j (all j below) below
