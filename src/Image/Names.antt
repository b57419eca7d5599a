-- ===== src/Image/Names.antt =====
-- Reading back a name, and what a copy leaves alone.
use extent_based_fs.Base.{
  ℕ, ◌+◌, ◌≤◌, ◌<◌, ◌≡◌, refl, ◌⊎◌, ◌↔◌, true, List, [], ◌∷◌, arith, ◌∙◌, length,
}
use extent_based_fs.Image.{Bytes, store8, str_eq, store_str}

-- Bytes of a string: none is NUL.
abbrev pub IsText : List ℕ → Type 0
IsText [] = Unit
IsText (c ∷ cs) = (0 < c) × (c < 256) × IsText cs

pub store_str_byte :
    (img : Bytes) (a : ℕ) (s : List ℕ) (x : ℕ)
    → (x < a) ⊎ (a + length s + 1 ≤ x)
    → store_str img a s x ≡ img x
unfolding store_str
store_str_byte img a [] x h = ground arith
store_str_byte img a (c ∷ cs) x h =
    store_str_byte (store8 img a c) (a + 1) cs x (omega arith) ∙ unfold store8 in ground arith

pub str_eq_ext :
    (img other : Bytes) (a : ℕ) (s : List ℕ)
    → ((x : ℕ) → a ≤ x → x ≤ a + length s → img x ≡ other x)
    → str_eq img a s ≡ str_eq other a s
unfolding str_eq
str_eq_ext img other a [] h = rw (h a (omega arith) (omega arith))
str_eq_ext img other a (c ∷ cs) h = rw (
  h a (omega arith) (omega arith),
  str_eq_ext img other (a + 1) cs (λ x p q. h x (omega arith) (omega arith)),
)

store_str_head : (img : Bytes) (a c : ℕ) (cs : List ℕ) → c < 256 → store_str img a (c ∷ cs) a ≡ c
unfolding store_str
store_str_head img a c cs h =
    store_str_byte (store8 img a c) (a + 1) cs a (omega arith) ∙ unfold store8 in ground arith

tails : (c d : ℕ) (cs ds : List ℕ) → c ∷ cs ≡ d ∷ ds → (c ≡ d) × (cs ≡ ds)
tails c d cs ds e = (cc, cc)

str_eq-cons :
    (img : Bytes) (a c d : ℕ) (cs ds : List ℕ)
    → c < 256
    → (str_eq (store_str (store8 img a c) (a + 1) cs) (a + 1) ds ≡ true) ↔ (cs ≡ ds)
    → (str_eq (store_str img a (c ∷ cs)) a (d ∷ ds) ≡ true) ↔ (c ∷ cs ≡ d ∷ ds)
unfolding str_eq store_str
str_eq-cons img a c d cs ds small rest =
    let head : store_str (store8 img a c) (a + 1) cs a ≡ c = store_str_head img a c cs small in
    (
      λ h. ground (arith, rest.0),
      λ h. ground (arith, rest.1 (tails c d cs ds h).1, (tails c d cs ds h).0),
    )

-- After a copy of `s` the name compares equal to `s`, and to no other text.
pub str_eq-store_str :
    (img : Bytes) (a : ℕ) (s t : List ℕ)
    → IsText s
    → IsText t
    → (str_eq (store_str img a s) a t ≡ true) ↔ (s ≡ t)
str_eq-store_str img a [] [] p q = unfold str_eq store_str store8 in (λ h. refl, λ h. ground arith)
str_eq-store_str img a [] (d ∷ ds) p q =
    unfold str_eq store_str store8 in (λ h. ground arith, λ h. cc)
str_eq-store_str img a (c ∷ cs) [] p q =
    unfold str_eq in (λ h. ground (arith, store_str_head img a c cs p.1), λ h. cc)
str_eq-store_str img a (c ∷ cs) (d ∷ ds) p q =
    str_eq-cons img a c d cs ds p.1 (str_eq-store_str (store8 img a c) (a + 1) cs ds p.2 q.2)
