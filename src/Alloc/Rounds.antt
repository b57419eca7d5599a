-- ===== src/Alloc/Rounds.antt =====
-- What make_data_blocks of a1b/a1fs_helper.c does when one free run is found, and when none is.
use extent_based_fs.Base.{
  ℕ, zero, suc, ◌+◌, ◌≤◌, ◌<◌, ◌≡◌, refl, inl, inr, true, not, arith, if◌then◌else◌, Bool-cases,
}
use extent_based_fs.Base.Int.{ℤ, pos, minus_one, eq_ℤ, is_neg, ltb_ℤ, ◌+ℤ◌, ◌-ℤ◌}
use extent_based_fs.Types.{
  FsCtx, Run, Cmd, ok, fault, out_of_fuel, pure, and_then-eq-ok, inode_extents,
}
use extent_based_fs.Bitmap.{check_bit_usage, get_available_bit, set_bits}
use extent_based_fs.Bitmap.Toggle.{IsBytes}
use extent_based_fs.Bitmap.Range.{in_range, set_bits-range}
use extent_based_fs.Alloc.{any_used, allocate_data_blks, retry, make_data_blocks}
use extent_based_fs.Alloc.Neighbours.{HasExtents, UsedIn, any_used_iff, block_after}
use extent_based_fs.Alloc.Extents.{allocate_data_blks-data, extended, widened, with_inode}

-- Where the blocks are placed: behind the last extent if that is in use, else where the search
-- found room.
abbrev pub placed : FsCtx → (i k first n : ℕ) → ℕ
placed s i k first n =
    if any_used s.block_bits n (block_after s i k) then block_after s i k else first

module _ (s : FsCtx) (fuel i n : ℕ) (bytes : IsBytes s.block_bits) where
  -- The end of a call whose search and allocation have succeeded.
  finish :
      (first b : ℕ) (t : FsCtx)
      → get_available_bit s.sb s.block_bits 1 (pos n) ≡ pos first
      → allocate_data_blks i first (pos n) 0 s ≡ ok (pos b) t
      → t.block_bits ≡ s.block_bits
      → t.sb ≡ s.sb
      → (u : FsCtx) × (make_data_blocks (suc fuel) i (pos n) s ≡ ok (pos n) u)
        × ((j : ℕ)
            → check_bit_usage u.block_bits j ≡ (
                if in_range b n j
                then not (check_bit_usage s.block_bits j)
                else check_bit_usage s.block_bits j))
        × (u.sb ≡ record s.sb { sb_free_blocks_count = s.sb.sb_free_blocks_count -ℤ pos n })
  unfolding make_data_blocks
  finish first b t found placed' same_bits same_sb =
      let r = set_bits t.sb t.block_bits b 1 (pos n) 1 in
      let spec = set_bits-range s.sb b n 1 bytes in
      (
        record t { sb = r.sb; block_bits = r.bitmap },
        rw (found, placed', same_sb, same_bits, spec.2) refl,
        λ j. rw (same_sb, same_bits) (spec.0 j),
        rw (same_sb, same_bits) spec.1,
      )

  -- When the search finds room for the `n` blocks at `first` and the inode has an extent and room
  -- for another, one call returns `n`, takes `n` blocks off the free count and inverts the bits
  -- of `n` blocks: those behind the last extent if one of these is in use, else those found.
  pub make_data_blocks-placed :
      (k first : ℕ)
      → get_available_bit s.sb s.block_bits 1 (pos n) ≡ pos first
      → HasExtents s i k
      → k + 1 < inode_extents
      → (u : FsCtx) × (make_data_blocks (suc fuel) i (pos n) s ≡ ok (pos n) u)
        × ((j : ℕ)
            → check_bit_usage u.block_bits j ≡ (
                if in_range (placed s i k first n) n j
                then not (check_bit_usage s.block_bits j)
                else check_bit_usage s.block_bits j))
        × (u.sb ≡ record s.sb { sb_free_blocks_count = s.sb.sb_free_blocks_count -ℤ pos n })
  make_data_blocks-placed k first found h room =
      let (at_start, cases) = allocate_data_blks-data {s = s} i first n h.in_table in
      let (widens, extends, full) = cases k h in
      elim (Bool-cases (any_used s.block_bits n (block_after s i k))) [
        | inl used ↦ rw used (
            finish first (block_after s i k) (with_inode s i (widened s i k n)) found
              (widens ((any_used_iff s.block_bits n (block_after s i k)).0 used)) refl refl)
        | inr free ↦ rw free (
            finish first first (with_inode s i (extended s i (k + 1) first n)) found
              (extends (λ u. cc ((any_used_iff s.block_bits n (block_after s i k)).1 u)) room) refl
              refl)
      ]

  -- When some block behind the last extent is in use, the call that returns `n` marks every such
  -- block free that was in use.
  pub make_data_blocks-gives_away :
      (k first : ℕ)
      → get_available_bit s.sb s.block_bits 1 (pos n) ≡ pos first
      → HasExtents s i k
      → k + 1 < inode_extents
      → UsedIn s.block_bits (block_after s i k) n
      → (u : FsCtx) × (make_data_blocks (suc fuel) i (pos n) s ≡ ok (pos n) u)
        × ((j : ℕ)
            → block_after s i k ≤ j
            → j < block_after s i k + n
            → check_bit_usage u.block_bits j ≡ not (check_bit_usage s.block_bits j))
  make_data_blocks-gives_away k first found h room used =
      let (u, e, bits, sb) = make_data_blocks-placed k first found h room in
      let any = (any_used_iff s.block_bits n (block_after s i k)).1 used in
      (u, e, λ j p q. ground (arith, bits j))

positive : (n : ℕ) → ltb_ℤ (pos 0) (pos (suc n)) ≡ true
positive n = ground arith

-- A run that returns nothing but -1.
abbrev pub Fails : Run ℤ → Type 0
Fails (ok z t) = z ≡ minus_one
Fails fault = Unit
Fails out_of_fuel = Unit

fails : (r : Run ℤ) → ((z : ℤ) → (t : FsCtx) → r ≡ ok z t → z ≡ minus_one) → Fails r
fails (ok z t) h = h z t refl
fails fault h = tt
fails out_of_fuel h = tt

-- A loop that counts up to a positive number of blocks ends only by a failure.
retry_never :
    (rounds : ℕ) (create : Cmd ℤ) (n : ℕ) (total z : ℤ) (s t : FsCtx)
    → retry rounds create (pos (suc n)) total s ≡ ok z t
    → z ≡ minus_one
unfolding retry
retry_never zero create n total z s t e = cc
retry_never (suc rounds) create n total z s t e =
    let round : ℤ → Cmd ℤ = λ made.
      if eq_ℤ made minus_one
      then pure minus_one
      else if ltb_ℤ (pos 0) (pos (suc n))
      then retry rounds create (pos (suc n)) (total +ℤ made)
      else pure (total +ℤ made) in
    let (made, u, created, rest) = and_then-eq-ok (create s) round e in
    elim (Bool-cases (eq_ℤ made minus_one)) [
      | inl failed ↦ let e' = rw failed at rest in cc
      | inr more ↦ retry_never rounds create n (total +ℤ made) z u t (rw (more, positive n) at rest)
    ]

-- When the search for `n + 1` blocks in a row fails, no number of rounds and no depth of recursion
-- makes the call succeed: it returns -1, faults or does not end, whatever its inner calls for fewer
-- blocks have allocated.
pub make_data_blocks-Fails :
    (s : FsCtx) (fuel i n : ℕ)
    → is_neg (get_available_bit s.sb s.block_bits 1 (pos (suc n))) ≡ true
    → Fails (make_data_blocks fuel i (pos (suc n)) s)
unfolding make_data_blocks
make_data_blocks-Fails s zero i n none = tt
make_data_blocks-Fails s (suc fuel) i n none =
    fails (make_data_blocks (suc fuel) i (pos (suc n)) s)
      (λ z t e. retry_never (suc fuel) _ n (pos 0) z s t (rw none at e))
