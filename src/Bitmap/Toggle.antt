-- ===== src/Bitmap/Toggle.antt =====
-- What one flip does to the bits of a bitmap of bytes.
use Prim.Native.Nat.{bit_xor}
use extent_based_fs.Base.{
  ℕ, ◌/◌, ◌%◌, ◌^◌, ◌<◌, ◌≡◌, refl, Bool, true, false, not, arith, ltb, ◌==◌, if◌then◌else◌,
  Bool-cases, inl, inr, ltb→lt, ==→eq, eq→==,
}
use extent_based_fs.Base.Upto.{every_until, every_until-holds}
use extent_based_fs.Types.{Bitmap}
use extent_based_fs.Bitmap.{test_bit, check_bit_usage, flip_bit}

abbrev same : Bool → Bool → Bool
same true b = b
same false b = not b

same→eq : (a b : Bool) → same a b ≡ true → a ≡ b
same→eq a b h = ground arith

abbrev flips_at : ℕ → ℕ → ℕ → Bool
flips_at byte bit j =
    same (test_bit (bit_xor byte (2 ^ bit)) j)
      (if j == bit then not (test_bit byte j) else test_bit byte j)

abbrev byte_flips : ℕ → Bool
byte_flips byte = every_until (λ bit. every_until (flips_at byte bit) 8) 8

flips_table : every_until byte_flips 256 ≡ true
unfolding every_until test_bit
flips_table = refl

abbrev stays_byte : (byte bit : ℕ) → Bool
stays_byte byte bit = ltb (bit_xor byte (2 ^ bit)) 256

xor_table : every_until (λ byte. every_until (stays_byte byte) 8) 256 ≡ true
unfolding every_until
xor_table = refl

test_bit-xor :
    (byte bit j : ℕ)
    → byte < 256
    → bit < 8
    → j < 8
    → test_bit (bit_xor byte (2 ^ bit)) j
      ≡ (if j == bit then not (test_bit byte j) else test_bit byte j)
test_bit-xor byte bit j h k l =
    let of_byte = every_until-holds byte_flips 256 byte flips_table h in
    let of_bit = every_until-holds (λ bit. every_until (flips_at byte bit) 8) 8 bit of_byte k in
    same→eq _ _ (every_until-holds (flips_at byte bit) 8 j of_bit l)

xor-lt : (byte bit : ℕ) → byte < 256 → bit < 8 → bit_xor byte (2 ^ bit) < 256
xor-lt byte bit h k =
    let of_byte =
      every_until-holds (λ byte. every_until (stays_byte byte) 8) 256 byte xor_table h in
    ltb→lt _ _ (every_until-holds (stays_byte byte) 8 bit of_byte k)

abbrev pub IsBytes : Bitmap → Type 0
IsBytes b = (i : ℕ) → b i < 256

pub flip_bit-IsBytes : {b : Bitmap} (i : ℕ) → IsBytes b → IsBytes (flip_bit b i)
unfolding flip_bit
flip_bit-IsBytes {b} i h j =
    ground (arith, h j, xor-lt (b (i / 8)) (i % 8) (h (i / 8)) (omega arith))

-- A flip inverts its own bit and leaves every other one alone.
pub check-flip_bit :
    {b : Bitmap} (i j : ℕ)
    → IsBytes b
    → check_bit_usage (flip_bit b i) j
      ≡ (if j == i then not (check_bit_usage b j) else check_bit_usage b j)
unfolding check_bit_usage flip_bit
check-flip_bit {b} i j h = elim (Bool-cases (j / 8 == i / 8)) [
  | inl e ↦
      let e' : j / 8 ≡ i / 8 = ==→eq _ _ e in
      rw
        (
          e',
          eq→== (i / 8) (i / 8) refl,
          test_bit-xor (b (i / 8)) (i % 8) (j % 8) (h (i / 8)) (omega arith) (omega arith),
        )
        (ground arith)
  | inr e ↦ ground arith
]
