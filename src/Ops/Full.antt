-- ===== src/Ops/Full.antt =====
-- a1fs_mkdir and a1fs_create of a1b/a1fs.c when every inode is in use.
use extent_based_fs.Base.{ℕ, ◌≡◌, inl, inr, true, List}
use extent_based_fs.Base.Int.{pos_part, minus_one, neg}
use extent_based_fs.Types.{FsCtx, ok}
use extent_based_fs.Bitmap.{get_available_bit}
use extent_based_fs.Bitmap.FirstFit.{AllUsed, get_available_bit-InodeChoice}
use extent_based_fs.Ops.{a1fs_mkdir, a1fs_create, is_reg, enospc}

nothing_available :
    (s : FsCtx)
    → AllUsed s.inode_bits 0 (pos_part s.sb.sb_inodes_count)
    → get_available_bit s.sb s.inode_bits 0 minus_one ≡ minus_one
nothing_available s all = elim (get_available_bit-InodeChoice s.sb s.inode_bits minus_one) [
  | inl (nothing, why) ↦ nothing
  | inr (k, e, f) ↦ absurd (cc (all k f.above f.below, f.free))
]

-- When every inode is in use, a1fs_mkdir and a1fs_create of a regular file return -ENOSPC and
-- change nothing, whatever the path and the count of free inodes.
pub a1fs_mkdir-full :
    (s : FsCtx) (path : List ℕ) (mode : ℕ)
    → AllUsed s.inode_bits 0 (pos_part s.sb.sb_inodes_count)
    → (a1fs_mkdir path mode s ≡ ok (neg enospc) s)
      × (is_reg mode ≡ true → a1fs_create path mode s ≡ ok (neg enospc) s)
unfolding a1fs_mkdir a1fs_create
a1fs_mkdir-full s path mode all =
    (rw (nothing_available s all), λ reg. rw (reg, nothing_available s all))
