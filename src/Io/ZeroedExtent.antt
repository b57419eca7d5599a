-- ===== src/Io/ZeroedExtent.antt =====
-- The loops of truncate_helper of a1b/a1fs_helper.c on a file with one extent.
use extent_based_fs.Base.{
  ℕ, zero, suc, ◌+◌, ◌*◌, ◌%◌, ◌≤◌, ◌<◌, ◌≡◌, refl, ap, ◌∙◌, false, arith, lt→ltb, ◌==◌,
}
use extent_based_fs.Base.Int.{ℤ, pos, ltb_ℤ, ◌+ℤ◌, ◌-ℤ◌, int_laws}
use extent_based_fs.Types.{FsCtx, Inode, ok, inode_capacity, a1fs_block_size}
use extent_based_fs.Dir.{block_addr}
use extent_based_fs.Contents.{zero_extents, zero_start, ZeroStart, zero_out_blocks}
use extent_based_fs.Io.Shrink.{ceil_blocks}
use extent_based_fs.Io.Zeroed.{
  Zeroes, Zeroes-append, Zeroes-resized, resized, add_extent_size-resized, bytes_zeroed,
  bytes_zeroed_sum, zero_out_blocks-Zeroes,
}

-- Zeroing starts at the first block of extent 0.
abbrev pub from_first : ℕ → ZeroStart
from_first first = record { extent = 0; block = pos first }

pub zero_start-first :
    (v : Inode) (s : FsCtx) {first n : ℕ}
    → (v.i_extent 0).start ≡ first
    → (v.i_extent 0).count ≡ pos n
    → zero_start v 1 (pos n) s ≡ ok (from_first first) s
unfolding zero_start
zero_start-first v s {first} {n} e c = rw (e, c, not_less n, back first n) refl
  where
    not_less : (n : ℕ) → ltb_ℤ (pos n) (pos n) ≡ false
    not_less n = ground arith

    back : (a n : ℕ) → pos a +ℤ pos n -ℤ pos n ≡ pos a
    back a n = omega int_laws

pub zero_extents-first :
    (i first n r : ℕ) (s t : FsCtx)
    → i < inode_capacity s.sb
    → i < inode_capacity t.sb
    → ((s.itable i).i_extent 0).count ≡ pos (suc n)
    → zero_out_blocks i 0 (suc n) first (pos (suc n)) (pos r) s ≡ ok (pos 0) t
    → zero_extents i (from_first first) 1 0 (pos (suc n)) (pos r) s ≡ ok tt (resized t i 0 (pos r))
unfolding zero_extents
zero_extents-first i first n r s t in_table here c run =
    rw (suc_not_zero n, lt→ltb i _ in_table, c, run, add_extent_size-resized t i 0 (pos r) here)
      refl
  where
    suc_not_zero : (n : ℕ) → (suc n == 0) ≡ false
    suc_not_zero n = ground arith

Zeroes-then_resized :
    {s t : FsCtx} (i lo n : ℕ) (z : ℤ) → Zeroes s t i lo n → Zeroes s (resized t i 0 z) i lo n
Zeroes-then_resized {t} i lo n z h =
    let same : n + 0 ≡ n = omega arith in
    rw same at (Zeroes-append i lo n 0 h (Zeroes-resized t i 0 (lo + n) z))

zero_extents-Zeroes :
    (i first n r : ℕ) (s : FsCtx)
    → i < inode_capacity s.sb
    → ((s.itable i).i_extent 0).count ≡ pos (suc n)
    → r < a1fs_block_size
    → block_addr s.sb.sb_first_data_block first + a1fs_block_size * suc n ≤ s.size
    → (t : FsCtx) × (zero_extents i (from_first first) 1 0 (pos (suc n)) (pos r) s ≡ ok tt t)
      × (t.sb ≡ s.sb)
      × Zeroes s t i (block_addr s.sb.sb_first_data_block first) (bytes_zeroed (suc n) r)
zero_extents-Zeroes i first n r s in_table c small inside =
    let (t, run, z) = zero_out_blocks-Zeroes i 0 r (suc n) first s in_table small inside in
    let same_sb : t.sb ≡ s.sb = ap (λ u. u.sb) z.others in
    (
      resized t i 0 (pos r),
      zero_extents-first i first n r s t in_table (rw same_sb in_table) c run,
      same_sb,
      Zeroes-then_resized i (block_addr s.sb.sb_first_data_block first) (bytes_zeroed (suc n) r)
          (pos r) z,
    )

pub zero_extents-positive :
    (i first n r : ℕ) (s : FsCtx)
    → 0 < n
    → i < inode_capacity s.sb
    → ((s.itable i).i_extent 0).count ≡ pos n
    → r < a1fs_block_size
    → block_addr s.sb.sb_first_data_block first + a1fs_block_size * n ≤ s.size
    → (t : FsCtx) × (zero_extents i (from_first first) 1 0 (pos n) (pos r) s ≡ ok tt t)
      × (t.sb ≡ s.sb)
      × Zeroes s t i (block_addr s.sb.sb_first_data_block first) (bytes_zeroed n r)
zero_extents-positive i first zero r s positive in_table c small inside = absurd (omega arith)
zero_extents-positive i first (suc n) r s positive in_table c small inside =
    zero_extents-Zeroes i first n r s in_table c small inside

-- The bytes that are zeroed are as many as the size.
pub bytes_total :
    (n size : ℕ) → n ≡ ceil_blocks size → 0 < size → bytes_zeroed n (size % 4096) ≡ size
bytes_total zero size e positive = absurd (omega arith)
bytes_total (suc n) size e positive = bytes_zeroed_sum n (size % 4096) ∙ ground arith
