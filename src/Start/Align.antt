-- ===== src/Start/Align.antt =====
-- is_powerof2, is_aligned and align_up of a1b/util.h for the alignments that they are meant for.
use Prim.Native.Nat.{bit_and, bit_and-bitwise, digits, min}
use native.Mathlib.Nat.{
  mul-add-mod_self_right, mod-eq_of_lt, mod-lt, div-add-mod', two-pow-succ, zero-mod, mod_self,
  mul-mod_left, mul-le-mul_right, suc-mul, pow-le-pow_right,
}
use extent_based_fs.Base.{
  ℕ, Bool-cases, ltb, ltb→lt, inl, inr, zero, suc, ◌+◌, ◌-◌, ◌*◌, ◌/◌, ◌%◌, ◌^◌, ◌≤◌, ◌<◌, ◌≡◌,
  refl, sym, ap, ◌∙◌, true, some, arith, ◌==◌,
}
use extent_based_fs.Start.{is_powerof2, is_aligned, align_up, minus_1}

-- The lowest binary digit of a remainder stays.
mod-halves : (x p : ℕ) → 0 < p → x % (p + p) ≡ x / 2 % p * 2 + x % 2
mod-halves x p h =
    unique (x / 2 / p) (x / 2 % p) (x % 2) (div-add-mod' (x / 2) p) (mod-lt (x / 2) h) (omega arith)
  where
    unique : (q r c : ℕ) → q * p + r ≡ x / 2 → r < p → c ≡ x % 2 → x % (p + p) ≡ r * 2 + c
    unique q r c e lt bit =
        let whole : x ≡ q * (p + p) + (r * 2 + c) = grind arith in
        ap (λ y. y % (p + p)) whole
        ∙ mul-add-mod_self_right q (p + p) (r * 2 + c)
        ∙ mod-eq_of_lt (omega arith)

pow_pos : (k : ℕ) → 0 < 2 ^ k
pow_pos zero = omega arith
pow_pos (suc k) = omega (arith, two-pow-succ k, pow_pos k)

-- A mask of the `k` lowest digits.
low_digits : (n a k : ℕ) → a ≤ n → digits (λ b. 0) min n a (2 ^ k - 1) ≡ a % 2 ^ k
low_digits zero zero k h = sym (zero-mod (2 ^ k))
low_digits zero (suc a) k h = absurd (omega arith)
low_digits (suc n) zero k h = sym (zero-mod (2 ^ k))
low_digits (suc n) (suc a) zero h = omega (arith, low_digits n (suc a / 2) 0 (omega arith))
low_digits (suc n) (suc a) (suc k) h =
    let half : (2 ^ suc k - 1) / 2 ≡ 2 ^ k - 1 = omega (arith, two-pow-succ k, pow_pos k) in
    let odd : (2 ^ suc k - 1) % 2 ≡ 1 = omega (arith, two-pow-succ k, pow_pos k) in
    rw (half, odd, two-pow-succ k, low_digits n (suc a / 2) k (omega arith))
      (omega (arith, mod-halves (suc a) (2 ^ k) (pow_pos k)))

bit_and_low : (x k : ℕ) → bit_and x (2 ^ k - 1) ≡ x % 2 ^ k
bit_and_low x k = bit_and-bitwise x (2 ^ k - 1) ∙ low_digits x x k (omega arith)

-- A mask of all of `m` digits but the `k` lowest.
high_digits :
    (n a k m : ℕ)
    → a ≤ n
    → k ≤ m
    → a < 2 ^ m
    → digits (λ b. 0) min n a (2 ^ m - 2 ^ k) ≡ a - a % 2 ^ k
high_digits zero zero k m h le lt = omega arith
high_digits zero (suc a) k m h le lt = absurd (omega arith)
high_digits (suc n) zero k m h le lt = omega arith
high_digits (suc n) (suc a) k zero h le lt = absurd (omega arith)
high_digits (suc n) (suc a) zero (suc m) h le lt =
    let half : (2 ^ suc m - 1) / 2 ≡ 2 ^ m - 1 = omega (arith, two-pow-succ m, pow_pos m) in
    let odd : (2 ^ suc m - 1) % 2 ≡ 1 = omega (arith, two-pow-succ m, pow_pos m) in
    let small : suc a / 2 < 2 ^ m = omega (arith, two-pow-succ m) in
    rw (half, odd, low_digits n (suc a / 2) m (omega arith), mod-eq_of_lt small) (omega arith)
high_digits (suc n) (suc a) (suc k) (suc m) h le lt =
    let half : (2 ^ suc m - 2 ^ suc k) / 2 ≡ 2 ^ m - 2 ^ k =
      omega (arith, two-pow-succ k, two-pow-succ m) in
    let even : (2 ^ suc m - 2 ^ suc k) % 2 ≡ 0 = omega (arith, two-pow-succ k, two-pow-succ m) in
    rw
      (
        half,
        even,
        two-pow-succ k,
        high_digits n (suc a / 2) k m (omega arith) (omega arith) (omega (arith, two-pow-succ m)),
      )
      (omega (arith, mod-halves (suc a) (2 ^ k) (pow_pos k)))

bit_and_high : (x k m : ℕ) → k ≤ m → x < 2 ^ m → bit_and x (2 ^ m - 2 ^ k) ≡ x - x % 2 ^ k
bit_and_high x k m le lt =
    bit_and-bitwise x (2 ^ m - 2 ^ k) ∙ high_digits x x k m (omega arith) le lt

small_pow : (k : ℕ) → k < 64 → 2 ^ k ≤ 2 ^ 63
small_pow k lt = pow-le-pow_right (omega arith) {j = 63} (omega arith)

minus_1_lem : (k : ℕ) → k < 64 → minus_1 (2 ^ k) ≡ 2 ^ k - 1
minus_1_lem k lt = omega (arith, small_pow k lt, pow_pos k)

pub is_powerof2-pow : (k : ℕ) → k < 64 → is_powerof2 (2 ^ k) ≡ true
unfolding is_powerof2
is_powerof2-pow k lt = ap (λ y. y == 0) masked
  where
    masked : bit_and (2 ^ k) (minus_1 (2 ^ k)) ≡ 0
    masked = rw (minus_1_lem k lt) (bit_and_low (2 ^ k) k ∙ mod_self (2 ^ k))

pub is_aligned-pow : (x k : ℕ) → k < 64 → is_aligned x (2 ^ k) ≡ some (x % 2 ^ k == 0)
unfolding is_aligned
is_aligned-pow x k lt = rw (is_powerof2-pow k lt, minus_1_lem k lt, bit_and_low x k) refl

align_up-pow :
    (x k : ℕ)
    → k < 64
    → x + 2 ^ k ≤ 2 ^ 64
    → align_up x (2 ^ k) ≡ some (x + 2 ^ k - 1 - (x + 2 ^ k - 1) % 2 ^ k)
unfolding align_up
align_up-pow x k lt fits =
    rw (is_powerof2-pow k lt, sum, mask)
      (ap some (bit_and_high (x + 2 ^ k - 1) k 64 (omega arith) (omega (arith, pow_pos k))))
  where
    sum : (x + 2 ^ k + 2 ^ 64 - 1) % 2 ^ 64 ≡ x + 2 ^ k - 1
    sum = omega (arith, pow_pos k)

    mask : (2 ^ 64 - 2 ^ k) % 2 ^ 64 ≡ 2 ^ 64 - 2 ^ k
    mask = omega (arith, pow_pos k, small_pow k lt)

is_zero : (n : ℕ) → some (n == 0) ≡ some true → n ≡ 0
is_zero n e = ground arith

-- Rounding a number down to a multiple.
down-aligned : (w p : ℕ) → 0 < p → (w - w % p) % p ≡ 0
down-aligned w p h = ap (λ y. y % p) (omega (arith, div-add-mod' w p)) ∙ mul-mod_left (w / p) p

down_least : (x p z : ℕ) → 0 < p → z % p ≡ 0 → x ≤ z → x + p - 1 - (x + p - 1) % p ≤ z
down_least x p z h e le = elim (Bool-cases (ltb (z / p) ((x + p - 1) / p))) [
  | inl over ↦
      let row : suc (z / p) * p ≤ (x + p - 1) / p * p =
        mul-le-mul_right p (ltb→lt (z / p) ((x + p - 1) / p) over) in
      omega (arith, row, suc-mul (z / p) p, div-add-mod' (x + p - 1) p, div-add-mod' z p)
  | inr under ↦
      let row : (x + p - 1) / p * p ≤ z / p * p = mul-le-mul_right p (ground (arith, under)) in
      omega (arith, row, div-add-mod' (x + p - 1) p, div-add-mod' z p)
]

-- What align_up promises.
pub record LeastAligned (x alignment y : ℕ) : Type 0 where
  pub aligned : is_aligned y alignment ≡ some true
  pub above : x ≤ y
  pub least : (z : ℕ) → is_aligned z alignment ≡ some true → x ≤ z → y ≤ z

pub align_up-LeastAligned :
    (x k : ℕ)
    → k < 64
    → x + 2 ^ k ≤ 2 ^ 64
    → (y : ℕ) × (align_up x (2 ^ k) ≡ some y) × LeastAligned x (2 ^ k) y
align_up-LeastAligned x k lt fits = (
  w - w % p,
  align_up-pow x k lt fits,
  record {
    aligned =
        is_aligned-pow (w - w % p) k lt ∙ ap (λ y. some (y == 0)) (down-aligned w p (pow_pos k));
    above = omega (arith, mod-lt w (pow_pos k), pow_pos k);
    least = λ z e le.
        down_least x p z (pow_pos k) (is_zero (z % p) (sym (is_aligned-pow z k lt) ∙ e)) le;
  },
)
  where
    p : ℕ
    p = 2 ^ k

    w : ℕ
    w = x + 2 ^ k - 1
