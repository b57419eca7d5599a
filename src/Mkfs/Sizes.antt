-- ===== src/Mkfs/Sizes.antt =====
-- The sizes that a1b/mkfs.c computes for the bitmaps and the inode table.
use extent_based_fs.Base.{
  ℕ, zero, suc, ◌+◌, ◌-◌, ◌*◌, ◌≤◌, ◌<◌, ◌≡◌, refl, ◌↔◌, inl, inr, true, false, some, arith, ltb,
  ◌==◌, Bool-cases,
}
use extent_based_fs.Mkfs.{dbm_loop, dbm_fits, bits_per_block, ceil_div}

-- `n` is the least number of blocks from `lo` on that the loop accepts.
pub record IsLeastFit (remaining lo n : ℕ) : Type 0 where
  pub above : lo ≤ n
  pub fits : dbm_fits remaining n ≡ true
  pub before : (m : ℕ) → lo ≤ m → m < n → dbm_fits remaining m ≡ false

dbm_fits_end : (remaining n : ℕ) → remaining ≤ n → dbm_fits remaining n ≡ true
dbm_fits_end remaining n h = ground arith

dbm_loop-IsLeastFit :
    (fuel remaining lo : ℕ)
    → remaining < fuel + lo
    → 0 < fuel
    → (n : ℕ) × (dbm_loop fuel remaining lo ≡ some n) × IsLeastFit remaining lo n
unfolding dbm_loop
dbm_loop-IsLeastFit zero remaining lo h some_fuel = absurd (omega arith)
dbm_loop-IsLeastFit (suc fuel) remaining lo h some_fuel =
    elim (Bool-cases (dbm_fits remaining lo)) [
      | inl hit ↦ (
        lo,
        rw (hit, dbm_loop) refl,
        record { above = omega arith; fits = hit; before = λ m p q. absurd (omega arith) },
      )
      | inr miss ↦
          let short : lo < remaining = too_few miss in
          let (n, e, least) =
            dbm_loop-IsLeastFit fuel remaining (lo + 1) (omega arith) (omega arith) in
          (
            n,
            rw (miss, dbm_loop) e,
            record {
              above = omega (arith, least.above);
              fits = least.fits;
              before = λ m p q. elim (Bool-cases (m == lo)) [
                | inl same ↦ ground arith
                | inr other ↦ least.before m (ground arith) q
              ];
            },
          )
    ]
  where
    too_few : dbm_fits remaining lo ≡ false → lo < remaining
    too_few miss = elim (Bool-cases (ltb lo remaining)) [
      | inl less ↦ ground arith
      | inr more ↦ cc (miss, dbm_fits_end remaining lo (ground arith))
    ]

fits_cover :
    (remaining n : ℕ) → 1 ≤ n → dbm_fits remaining n ≡ true → remaining - n ≤ n * bits_per_block
fits_cover remaining n pos h = ground arith

-- The loop that sizes the block bitmap ends within `remaining + 1` rounds, with the least number
-- of blocks, from 1 on, that passes its test, and the bitmap then has a bit for every block
-- that is left.
pub dbm_loop-covers :
    (remaining : ℕ)
    → (n : ℕ) × (dbm_loop (remaining + 1) remaining 1 ≡ some n)
      × IsLeastFit remaining 1 n
      × (remaining - n ≤ n * bits_per_block)
dbm_loop-covers remaining =
    let (n, e, least) =
      dbm_loop-IsLeastFit (remaining + 1) remaining 1 (omega arith) (omega arith) in
    (n, e, least, fits_cover remaining n least.above least.fits)

-- The blocks reserved for the inode table hold fewer inodes than were asked for exactly when
-- more than 16 were.
pub table_short_iff : (n_inodes : ℕ) → (ceil_div n_inodes 256 * 16 < n_inodes) ↔ (16 < n_inodes)
table_short_iff n = ground arith
