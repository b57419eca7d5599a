-- ===== src/Entry/Fill.antt =====
-- The bytes of a directory entry that is filled in, and of the other entries.
use extent_based_fs.Base.{ℕ, ◌+◌, ◌%◌, ◌≤◌, ◌<◌, ◌≡◌, ◌≢◌, ◌∙◌, ◌⊎◌, ◌↔◌, true, List, arith, length}
use extent_based_fs.Base.Int.{ℤ}
use extent_based_fs.Image.{Bytes, store_str, set_dentry_ino, dentry_ino, name_addr}
use extent_based_fs.Image.Words.{IsInt32, dentry_ino-set_self, dentry_ino_ext, set_dentry_ino_byte}
use extent_based_fs.Image.Names.{IsText, store_str_byte, str_eq_ext, str_eq-store_str}
use extent_based_fs.Dir.Lookup.{has_name}

-- A name that fits an entry with its NUL.
pub record IsName (name : List ℕ) : Type 0 where
  pub text : IsText name
  pub short : length name ≤ 251

-- Images that agree on the 256 bytes of an entry show the same entry there.
module _ (img other : Bytes) (b : ℕ) (same : (x : ℕ) → b ≤ x → x < b + 256 → img x ≡ other x) where
  pub dentry_ino_same : dentry_ino img b ≡ dentry_ino other b
  dentry_ino_same = dentry_ino_ext img other b (λ x p q. same x p (omega arith))

  pub has_name_same :
      (name : List ℕ) → length name ≤ 251 → has_name img name b ≡ has_name other name b
  has_name_same name h =
      str_eq_ext img other (name_addr b) name (λ x p q. same x (omega arith) (omega arith))

abbrev pub entry_image : Bytes → (a : ℕ) → (name : List ℕ) → (ino : ℤ) → Bytes
entry_image img a name ino = set_dentry_ino (store_str img (name_addr a) name) a ino

module _ (img : Bytes) (a : ℕ) (name : List ℕ) (ino : ℤ) (is : IsName name) where
  pub entry_image_byte : (x : ℕ) → (x < a) ⊎ (a + 256 ≤ x) → entry_image img a name ino x ≡ img x
  entry_image_byte x h =
      set_dentry_ino_byte (store_str img (name_addr a) name) a ino x (omega arith)
      ∙ store_str_byte img (name_addr a) name x (omega (arith, is.short))

  pub entry_image-ino : IsInt32 ino → dentry_ino (entry_image img a name ino) a ≡ ino
  entry_image-ino h = dentry_ino-set_self (store_str img (name_addr a) name) a ino h

  pub entry_image-name :
      (t : List ℕ) → IsText t → (has_name (entry_image img a name ino) t a ≡ true) ↔ (name ≡ t)
  entry_image-name t h =
      rw
        (str_eq_ext (entry_image img a name ino) (store_str img (name_addr a) name) (name_addr a) t
          (λ x p q. set_dentry_ino_byte (store_str img (name_addr a) name) a ino x (omega arith)))
        (str_eq-store_str img (name_addr a) name t is.text h)

  -- Another entry: both stand at multiples of 256.
  other_byte :
      (b : ℕ)
      → a % 256 ≡ 0
      → b % 256 ≡ 0
      → a ≢ b
      → (x : ℕ) → b ≤ x
      → x < b + 256
      → entry_image img a name ino x ≡ img x
  other_byte b p q ne x lo hi = entry_image_byte x (omega arith)

  pub other-ino :
      (b : ℕ)
      → a % 256 ≡ 0
      → b % 256 ≡ 0
      → a ≢ b
      → dentry_ino (entry_image img a name ino) b ≡ dentry_ino img b
  other-ino b p q ne = dentry_ino_same _ _ b (other_byte b p q ne)

  pub other-name :
      (b : ℕ) (t : List ℕ)
      → a % 256 ≡ 0
      → b % 256 ≡ 0
      → a ≢ b
      → length t ≤ 251
      → has_name (entry_image img a name ino) t b ≡ has_name img t b
  other-name b t p q ne h = has_name_same _ _ b (other_byte b p q ne) t h
