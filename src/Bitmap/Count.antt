-- ===== src/Bitmap/Count.antt =====
-- How many bits of a bitmap are clear, and what a flip in set_bits of a1b/util.h makes of that.
use extent_based_fs.Base.{
  ℕ, zero, suc, ◌≤◌, ◌<◌, ◌≡◌, refl, inl, inr, true, false, arith, ◌==◌, if◌then◌else◌, Bool-cases,
}
use extent_based_fs.Types.{Bitmap}
use extent_based_fs.Bitmap.{check_bit_usage, flip_bit}
use extent_based_fs.Bitmap.FirstFit.{AllUsed}
use extent_based_fs.Bitmap.Toggle.{IsBytes, check-flip_bit}

-- The clear bits of the first `n`.
unfoldable pub count_clear : Bitmap → ℕ → ℕ
count_clear b zero = 0
count_clear b (suc n) = if check_bit_usage b n then count_clear b n else suc (count_clear b n)

module _ {b : Bitmap} (i : ℕ) (bytes : IsBytes b) where
  count_clear_below : (n : ℕ) → n ≤ i → count_clear (flip_bit b i) n ≡ count_clear b n
  unfolding count_clear
  count_clear_below zero h = refl
  count_clear_below (suc n) h =
      ground (arith, check-flip_bit i n bytes, count_clear_below n (omega arith))

  -- Setting a clear bit leaves one less that is clear.
  pub count_clear-sets :
      (n : ℕ)
      → i < n
      → check_bit_usage b i ≡ false
      → count_clear b n ≡ suc (count_clear (flip_bit b i) n)
  unfolding count_clear
  count_clear-sets zero h clear = absurd (omega arith)
  count_clear-sets (suc n) h clear = elim (Bool-cases (n == i)) [
    | inl e ↦
        let same : n ≡ i = ground arith in
        rw (check-flip_bit i n bytes, e, same, clear, count_clear_below i (omega arith)) refl
    | inr e ↦
        rw (check-flip_bit i n bytes, e)
          (elim (Bool-cases (check_bit_usage b n)) [
            | inl q ↦ rw q (count_clear-sets n (ground arith) clear)
            | inr q ↦ rw (q, count_clear-sets n (ground arith) clear) refl
          ])
  ]

  pub count_clear-clears :
      (n : ℕ)
      → i < n
      → check_bit_usage b i ≡ true
      → count_clear (flip_bit b i) n ≡ suc (count_clear b n)
  unfolding count_clear
  count_clear-clears zero h set = absurd (omega arith)
  count_clear-clears (suc n) h set = elim (Bool-cases (n == i)) [
    | inl e ↦
        let same : n ≡ i = ground arith in
        rw (check-flip_bit i n bytes, e, same, set, count_clear_below i (omega arith)) refl
    | inr e ↦
        rw (check-flip_bit i n bytes, e)
          (elim (Bool-cases (check_bit_usage b n)) [
            | inl q ↦ rw q (count_clear-clears n (ground arith) set)
            | inr q ↦ rw (q, count_clear-clears n (ground arith) set) refl
          ])
  ]

pub count_clear-AllUsed : (b : Bitmap) (n : ℕ) → AllUsed b 0 n → count_clear b n ≡ 0
unfolding count_clear
count_clear-AllUsed b zero all = refl
count_clear-AllUsed b (suc n) all =
    rw (all n (omega arith) (omega arith))
      (count_clear-AllUsed b n (λ j lo hi. all j lo (omega arith)))
