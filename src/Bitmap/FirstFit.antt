-- ===== src/Bitmap/FirstFit.antt =====
-- What get_available_bit of a1b/util.h finds.
use extent_based_fs.Base.{
  ℕ, zero, suc, ◌+◌, ◌≤◌, ◌<◌, ◌≡◌, ◌≢◌, refl, true, false, arith, ltb, ◌==◌, ◌⊎◌, inl, inr,
  Bool-cases,
}
use extent_based_fs.Base.Int.{ℤ, pos, minus_one, pos_part, eq_ℤ, ltb_ℤ}
use extent_based_fs.Types.{Superblock, Bitmap}
use extent_based_fs.Bitmap.{check_bit_usage, inode_scan, block_scan, get_available_bit}

-- `k` is the first index of `[lo, hi)` whose bit is clear.
pub record IsFirstFree (b : Bitmap) (lo hi k : ℕ) : Type 0 where
  pub above : lo ≤ k
  pub below : k < hi
  pub free : check_bit_usage b k ≡ false
  pub before : (j : ℕ) → lo ≤ j → j < k → check_bit_usage b j ≡ true

abbrev pub AllUsed : Bitmap → ℕ → ℕ → Type 0
AllUsed b lo hi = (j : ℕ) → lo ≤ j → j < hi → check_bit_usage b j ≡ true

inode_scan-IsFirstFree :
    (b : Bitmap) (left i hi : ℕ)
    → i + left ≡ hi
    → ((inode_scan b left i ≡ minus_one) × AllUsed b i hi)
      ⊎ ((k : ℕ) × (inode_scan b left i ≡ pos k) × IsFirstFree b i hi k)
unfolding inode_scan
inode_scan-IsFirstFree b zero i hi e = inl (refl, λ j p q. absurd (omega arith))
inode_scan-IsFirstFree b (suc left) i hi e = elim (Bool-cases (check_bit_usage b i)) [
  | inl used ↦ rw used (elim (inode_scan-IsFirstFree b left (i + 1) hi (omega arith)) [
    | inl (e', all) ↦ inl (e', λ j p q. ground (arith, all j))
    | inr (k, e', f) ↦ inr (
      k,
      e',
      record {
        above = omega arith;
        below = f.below;
        free = f.free;
        before = λ j p q. ground (arith, f.before j);
      },
    )
  ])
  | inr free ↦ rw free (
      inr (
        i,
        refl,
        record {
          above = omega arith;
          below = omega arith;
          free = free;
          before = λ j p q. absurd (omega arith);
        },
      ))
]

-- What the search for a free inode returns: -1, and then the free counts forbid it or every inode
-- is in use, or the first free inode.
abbrev pub InodeChoice : Superblock → Bitmap → ℤ → ℤ → Type 0
InodeChoice sb b extent_size r =
    ((r ≡ minus_one)
      × ((ltb_ℤ sb.sb_free_blocks_count extent_size ≡ true)
          ⊎ ((eq_ℤ sb.sb_free_inodes_count (pos 0) ≡ true)
              ⊎ AllUsed b 0 (pos_part sb.sb_inodes_count))))
    ⊎ ((k : ℕ) × (r ≡ pos k) × IsFirstFree b 0 (pos_part sb.sb_inodes_count) k)

-- The search for an inode returns the index of the first clear bit below the number of inodes; it
-- returns -1 only if the free block count is below `extent_size`, no inode is counted as free, or
-- every bit below the number of inodes is set.
pub get_available_bit-InodeChoice :
    (sb : Superblock) (b : Bitmap) (extent_size : ℤ)
    → InodeChoice sb b extent_size (get_available_bit sb b 0 extent_size)
unfolding get_available_bit
get_available_bit-InodeChoice sb b n = elim (Bool-cases (ltb_ℤ sb.sb_free_blocks_count n)) [
  | inl full ↦ rw full (inl (refl, inl refl))
  | inr room ↦ rw room (elim (Bool-cases (eq_ℤ sb.sb_free_inodes_count (pos 0))) [
    | inl none_left ↦ rw none_left (inl (refl, inr (inl refl)))
    | inr some_left ↦
        rw some_left
          (elim (inode_scan-IsFirstFree b (pos_part sb.sb_inodes_count) 0
            (pos_part sb.sb_inodes_count) (omega arith)) [
              | inl (e, all) ↦ inl (e, inr (inr all))
              | inr (k, e, f) ↦ inr (k, e, f)
            ])
  ])
]

-- Every run of `n` blocks that starts in `[lo, hi)` holds a block in use.
abbrev pub NoRun : Bitmap → ℕ → ℕ → ℕ → Type 0
NoRun b n lo hi =
    (s : ℕ) → lo ≤ s → s < hi → (u : ℕ) × (s ≤ u) × (u < s + n) × (check_bit_usage b u ≡ true)

abbrev pub AllFree : Bitmap → ℕ → ℕ → Type 0
AllFree b lo hi = (j : ℕ) → lo ≤ j → j < hi → check_bit_usage b j ≡ false

-- What holds at every round: the blocks from `avail` up to `i` are free, `count` in number, and no
-- earlier start has a run of free blocks.
pub record Searched (b : Bitmap) (n first i avail : ℕ) : Type 0 where
  pub starts : first ≤ avail
  pub ordered : avail ≤ i
  pub short : i ≤ avail + n
  pub free : AllFree b avail i
  pub earlier : NoRun b n first avail

Searched-free :
    {b : Bitmap} {n first i avail : ℕ}
    → Searched b n first i avail
    → i ≢ avail + n
    → check_bit_usage b i ≡ false
    → Searched b n first (i + 1) avail
Searched-free {i} s ne f = record {
  starts = s.starts;
  ordered = omega (arith, s.ordered);
  short = omega (arith, s.short);
  free = λ j p q. elim (Bool-cases (j == i)) [
    | inl e ↦ ground arith
    | inr e ↦ s.free j p (ground arith)
  ];
  earlier = s.earlier;
}

Searched-used :
    {b : Bitmap} {n first i avail : ℕ}
    → Searched b n first i avail
    → i ≢ avail + n
    → check_bit_usage b i ≡ true
    → Searched b n first (i + 1) (i + 1)
Searched-used {i} {avail} s ne u = record {
  starts = omega (arith, s.starts, s.ordered);
  ordered = omega arith;
  short = omega arith;
  free = λ j p q. absurd (omega arith);
  earlier = λ t p q. elim (Bool-cases (ltb t avail)) [
    | inl e ↦ s.earlier t p (ground arith)
    | inr e ↦ (i, ground arith, ground (arith, s.short), u)
  ];
}

-- The search ends with its run, or at `max_index`.
pub block_scan-Searched :
    (b : Bitmap) (n left i count avail first top : ℕ)
    → i + left ≡ top
    → avail + count ≡ i
    → Searched b n first i avail
    → let end = block_scan b (pos n) left i count avail in
      Searched b n first end.i end.avail
      × ((end.i ≡ top) ⊎ ((end.i < top) × (end.i ≡ end.avail + n)))
unfolding block_scan
block_scan-Searched b n zero i count avail first top e c s = (s, inl (omega arith))
block_scan-Searched b n (suc left) i count avail first top e c s = elim (Bool-cases (count == n)) [
  | inl hit ↦ rw hit (s, inr (omega arith, ground arith))
  | inr miss ↦
      let ne : i ≢ avail + n = ground arith in
      rw miss (elim (Bool-cases (check_bit_usage b i)) [
        | inl used ↦ rw used (
            block_scan-Searched b n left (i + 1) 0 (i + 1) first top (omega arith) (omega arith)
              (Searched-used s ne used))
        | inr free ↦ rw free (
            block_scan-Searched b n left (i + 1) (count + 1) avail first top (omega arith)
              (omega arith) (Searched-free s ne free))
      ])
]
