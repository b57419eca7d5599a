-- ===== src/Alloc/Neighbours.antt =====
-- What attachable of a1b/a1fs_helper.c reports.
use extent_based_fs.Base.{
  ℕ, zero, suc, ◌+◌, ◌≤◌, ◌<◌, ◌≡◌, ◌≢◌, refl, ◌↔◌, inl, inr, true, arith, lt→ltb, if◌then◌else◌,
  Bool-cases,
}
use extent_based_fs.Base.Int.{pos, minus_one, pos_part}
use extent_based_fs.Types.{FsCtx, Bitmap, Extent, ok, inode_capacity, inode_extents}
use extent_based_fs.Bitmap.{check_bit_usage}
use extent_based_fs.Alloc.{any_used, Attach, attachable}

abbrev pub UsedIn : Bitmap → ℕ → ℕ → Type 0
UsedIn b i n = (j : ℕ) × (i ≤ j) × (j < i + n) × (check_bit_usage b j ≡ true)

pub any_used_iff : (b : Bitmap) (n i : ℕ) → (any_used b n i ≡ true) ↔ UsedIn b i n
unfolding any_used
any_used_iff b zero i = (λ h. cc, λ u. absurd (omega (arith, u.1, u.2)))
any_used_iff b (suc n) i = elim (Bool-cases (check_bit_usage b i)) [
  | inl used ↦ (λ h. (i, omega arith, omega arith, used), λ u. rw used)
  | inr free ↦
      let rest = any_used_iff b n (i + 1) in
      (
        λ h. let (j, lo, hi, used) = rest.0 (rw free at h) in (j, omega arith, omega arith, used),
        λ u. let (j, lo, hi, used) = u in rw free (rest.1 (j, ground arith, omega arith, used)),
      )
]

-- The inode `i` has `k + 1` extents, which the array holds, and no indirect ones.
pub record HasExtents (s : FsCtx) (i k : ℕ) : Type 0 where
  pub in_table : i < inode_capacity s.sb
  pub last : (s.itable i).last_used_extent ≡ pos k
  pub in_array : k < inode_extents
  pub direct : (s.itable i).last_used_indirect ≡ minus_one

abbrev pub last_extent : FsCtx → (i k : ℕ) → Extent
last_extent s i k = (s.itable i).i_extent k

-- The block behind the last extent.
abbrev pub block_after : FsCtx → (i k : ℕ) → ℕ
block_after s i k = (last_extent s i k).start + pos_part (last_extent s i k).count

pub attachable_lem :
    {s : FsCtx} {i k : ℕ} (n : ℕ)
    → HasExtents s i k
    → attachable i (pos n) s
      ≡ ok
          (record {
            large_enough = if any_used s.block_bits n (block_after s i k) then 1 else 0;
            index_of_last_used_extent = pos k;
            index_db_after_last_used_extent = block_after s i k;
          })
          s
unfolding attachable
attachable_lem {s} {i} {k} n h =
    rw (lt→ltb i _ h.in_table, h.direct, h.last, lt→ltb k inode_extents h.in_array) refl

-- For an inode with extents, `attachable` changes nothing, yields the index of the last extent and
-- the block behind it, and reports a number other than 0 exactly when one of the `n` blocks
-- behind the last extent is in use.
pub attachable-UsedIn :
    {s : FsCtx} {i k : ℕ} (n : ℕ)
    → HasExtents s i k
    → (at : Attach) × (attachable i (pos n) s ≡ ok at s)
      × (at.index_of_last_used_extent ≡ pos k)
      × (at.index_db_after_last_used_extent ≡ block_after s i k)
      × ((at.large_enough ≢ 0) ↔ UsedIn s.block_bits (block_after s i k) n)
attachable-UsedIn {s} {i} {k} n h = (
  record {
    large_enough = if any_used s.block_bits n (block_after s i k) then 1 else 0;
    index_of_last_used_extent = pos k;
    index_db_after_last_used_extent = block_after s i k;
  },
  attachable_lem n h,
  refl,
  refl,
  (
    λ ne. (any_used_iff s.block_bits n (block_after s i k)).0 (ground arith),
    λ u. let e = (any_used_iff s.block_bits n (block_after s i k)).1 u in ground arith,
  ),
)
