-- ===== src/Io/Zeroed.antt =====
-- zero_out_blocks of a1b/a1fs_helper.c on the blocks of an extent.
use extent_based_fs.Base.{
  ℕ, zero, suc, ◌+◌, ◌*◌, ◌≤◌, ◌<◌, ◌≡◌, ◌≢◌, refl, ap, ◌∙◌, inl, inr, false, not, ◌&&◌, arith,
  if◌then◌else◌, lt→ltb, le→ltb, ◌==◌, Bool-cases,
}
use extent_based_fs.Base.Int.{ℤ, pos, neg, ◌+ℤ◌, ◌-ℤ◌, int_laws}
use extent_based_fs.Types.{FsCtx, Inode, ok, inode_capacity, update, a1fs_block_size}
use extent_based_fs.Bitmap.Range.{in_range}
use extent_based_fs.Dir.{block_addr}
use extent_based_fs.Contents.{zero_range, memset, add_extent_size, zero_out_blocks}

-- `t` is `s` with `n` bytes of the image from `lo` on set to 0, and other sizes recorded for the
-- extents of inode `i`.
pub record Zeroes (s t : FsCtx) (i lo n : ℕ) : Type 0 where
  pub image : (x : ℕ) → t.image x ≡ (if in_range lo n x then 0 else s.image x)
  pub itable : (j : ℕ) → j ≢ i → t.itable j ≡ s.itable j
  pub inode : t.itable i ≡ record (s.itable i) { i_extent = (t.itable i).i_extent }
  pub starts : (k : ℕ) → ((t.itable i).i_extent k).start ≡ ((s.itable i).i_extent k).start
  pub counts : (k : ℕ) → ((t.itable i).i_extent k).count ≡ ((s.itable i).i_extent k).count
  pub others : t ≡ record s { image = t.image; itable = t.itable }

pub Zeroes-none : (s : FsCtx) (i lo : ℕ) → Zeroes s s i lo 0
Zeroes-none s i lo = record {
  image = λ x. ground arith;
  itable = λ j ne. refl;
  inode = refl;
  starts = λ k. refl;
  counts = λ k. refl;
  others = refl;
}

pub Zeroes-append :
    {s t u : FsCtx} (i lo n m : ℕ)
    → Zeroes s t i lo n
    → Zeroes t u i (lo + n) m
    → Zeroes s u i lo (n + m)
Zeroes-append {s} {t} {u} i lo n m f g = record {
  image = λ x. g.image x ∙ ground (arith, f.image x);
  itable = λ j ne. g.itable j ne ∙ f.itable j ne;
  inode =
      g.inode
      ∙ ap {A = Inode} {B = Inode} (λ v. record v { i_extent = (u.itable i).i_extent }) f.inode;
  starts = λ k. g.starts k ∙ f.starts k;
  counts = λ k. g.counts k ∙ f.counts k;
  others =
      g.others
      ∙ ap {A = FsCtx} {B = FsCtx} (λ s. record s { image = u.image; itable = u.itable }) f.others;
}

-- The size that is recorded for extent `k` of inode `i` grows by `z`.
abbrev pub resized : FsCtx → (i k : ℕ) → ℤ → FsCtx
resized s i k z = record s {
  itable = update s.itable i (record (s.itable i) {
    i_extent =
        update (s.itable i).i_extent k
          (record ((s.itable i).i_extent k) { size = ((s.itable i).i_extent k).size +ℤ z });
  });
}

abbrev pub cleared_range : FsCtx → (a n : ℕ) → FsCtx
cleared_range s a n = record s { image = zero_range s.image a n }

memset-cleared_range :
    (s : FsCtx) (a n : ℕ) → a + n ≤ s.size → memset a (pos n) s ≡ ok tt (cleared_range s a n)
unfolding memset
memset-cleared_range s a n h = rw (le→ltb s.size (a + n) h) refl

pub add_extent_size-resized :
    (s : FsCtx) (i k : ℕ) (z : ℤ)
    → i < inode_capacity s.sb
    → add_extent_size i k z s ≡ ok tt (resized s i k z)
unfolding add_extent_size
add_extent_size-resized s i k z h = rw (lt→ltb i _ h, lt→ltb i _ h) refl

Zeroes-range :
    (s : FsCtx) (i k a n : ℕ) (z : ℤ) → Zeroes s (resized (cleared_range s a n) i k z) i a n
Zeroes-range s i k a n z = record {
  image = λ x. ground arith;
  itable = λ j ne. ground arith;
  inode = ground arith;
  starts = λ j. ground arith;
  counts = λ j. ground arith;
  others = refl;
}

pub Zeroes-resized : (s : FsCtx) (i k lo : ℕ) (z : ℤ) → Zeroes s (resized s i k z) i lo 0
Zeroes-resized s i k lo z = record {
  image = λ x. ground arith;
  itable = λ j ne. ground arith;
  inode = ground arith;
  starts = λ j. ground arith;
  counts = λ j. ground arith;
  others = refl;
}

-- The bytes of `left` blocks, the last of which is zeroed for `r` bytes if `r` is not 0.
abbrev pub bytes_zeroed : (left r : ℕ) → ℕ
bytes_zeroed zero r = 0
bytes_zeroed (suc left) r =
    if left == 0 && not (r == 0) then r else a1fs_block_size + bytes_zeroed left r

pub bytes_zeroed_sum :
    (left r : ℕ)
    → bytes_zeroed (suc left) r ≡ a1fs_block_size * left + (if r == 0 then a1fs_block_size else r)
bytes_zeroed_sum zero r = ground arith
bytes_zeroed_sum (suc left) r = ground (arith, bytes_zeroed_sum left r)

one_less : (m : ℕ) → pos (suc m) -ℤ pos 1 ≡ pos m
one_less m = omega int_laws

module _ (i k r : ℕ) where
  pub last_block :
      (j : ℕ) (s : FsCtx)
      → i < inode_capacity s.sb
      → block_addr s.sb.sb_first_data_block j + r ≤ s.size
      → (r == 0) ≡ false
      → zero_out_blocks i k 1 j (pos 1) (pos r) s
        ≡ ok
            (pos 0)
            (resized (cleared_range s (block_addr s.sb.sb_first_data_block j) r) i k (pos r))
  unfolding zero_out_blocks
  last_block j s in_table inside nonzero =
      rw
        (
          nonzero,
          memset-cleared_range s (block_addr s.sb.sb_first_data_block j) r inside,
          add_extent_size-resized (cleared_range s (block_addr s.sb.sb_first_data_block j) r) i k
              (pos r) in_table,
          one_less 0,
        )
        refl

  full_block :
      (left j : ℕ) (s t : FsCtx)
      → i < inode_capacity s.sb
      → block_addr s.sb.sb_first_data_block j + a1fs_block_size ≤ s.size
      → (left == 0 && not (r == 0)) ≡ false
      → zero_out_blocks i k left (j + 1) (pos left) (pos r) (
          resized
            (cleared_range s (block_addr s.sb.sb_first_data_block j) a1fs_block_size)
            i
            k
            (neg a1fs_block_size))
        ≡ ok (pos 0) t
      → zero_out_blocks i k (suc left) j (pos (suc left)) (pos r) s ≡ ok (pos 0) t
  unfolding zero_out_blocks
  full_block left j s t in_table inside more run =
      rw
        (
          not_last left r more,
          memset-cleared_range s (block_addr s.sb.sb_first_data_block j) a1fs_block_size inside,
          add_extent_size-resized
              (cleared_range s (block_addr s.sb.sb_first_data_block j) a1fs_block_size) i k
              (neg a1fs_block_size) in_table,
          one_less left,
        )
        run
    where
      not_last :
          (left r : ℕ)
          → (left == 0 && not (r == 0)) ≡ false
          → (suc left == 1 && not (r == 0)) ≡ false
      not_last left r h = ground arith

  pub zero_out_blocks-Zeroes :
      (left j : ℕ) (s : FsCtx)
      → i < inode_capacity s.sb
      → r < a1fs_block_size
      → block_addr s.sb.sb_first_data_block j + a1fs_block_size * left ≤ s.size
      → (t : FsCtx) × (zero_out_blocks i k left j (pos left) (pos r) s ≡ ok (pos 0) t)
        × Zeroes s t i (block_addr s.sb.sb_first_data_block j) (bytes_zeroed left r)
  zero_out_blocks-Zeroes zero j s in_table small inside =
      (s, unfold zero_out_blocks in refl, Zeroes-none s i _)
  zero_out_blocks-Zeroes (suc left) j s in_table small inside =
      elim (Bool-cases (left == 0 && not (r == 0))) [
        | inl end ↦
            let none : left ≡ 0 = ground arith in
            let nonzero : (r == 0) ≡ false = ground arith in
            rw (none, nonzero)
              (
                resized (cleared_range s (block_addr s.sb.sb_first_data_block j) r) i k (pos r),
                last_block j s in_table (omega arith) nonzero,
                Zeroes-range s i k (block_addr s.sb.sb_first_data_block j) r (pos r),
              )
        | inr more ↦
            let addr = block_addr s.sb.sb_first_data_block j in
            let u = resized (cleared_range s addr a1fs_block_size) i k (neg a1fs_block_size) in
            let next : block_addr s.sb.sb_first_data_block (j + 1) ≡ addr + a1fs_block_size =
              omega arith in
            let (t, run, z) = zero_out_blocks-Zeroes left (j + 1) u in_table small (omega arith) in
            rw more (
              t,
              full_block left j s t in_table (omega arith) more run,
              Zeroes-append i addr a1fs_block_size (bytes_zeroed left r)
                  (Zeroes-range s i k addr a1fs_block_size (neg a1fs_block_size)) (rw next at z),
            )
      ]
