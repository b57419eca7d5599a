-- ===== src/Image/Words.antt =====
-- Reading back an inode number, and what a store leaves alone.
use extent_based_fs.Base.{ℕ, ◌+◌, ◌^◌, ◌≤◌, ◌<◌, ◌≡◌, refl, ◌⊎◌, arith, ◌∙◌, ap}
use extent_based_fs.Base.Int.{ℤ, pos, negsuc}
use extent_based_fs.Image.{Bytes, load32, store32, signed32, word32, dentry_ino, set_dentry_ino}

pub store32_byte : (img : Bytes) (a v x : ℕ) → (x < a) ⊎ (a + 4 ≤ x) → store32 img a v x ≡ img x
unfolding store32
store32_byte img a v x h = ground arith

pub load32-store32 : (img : Bytes) (a v : ℕ) → v < 2 ^ 32 → load32 (store32 img a v) a ≡ v
unfolding load32 store32
load32-store32 img a v h = ground arith

-- The values that an int32_t holds.
abbrev pub IsInt32 : ℤ → Type 0
IsInt32 (pos n) = n < 2 ^ 31
IsInt32 (negsuc n) = n < 2 ^ 31

word32-lt : (z : ℤ) → IsInt32 z → word32 z < 2 ^ 32
word32-lt (pos n) h = omega arith
word32-lt (negsuc n) h = omega arith

signed32-word32 : (z : ℤ) → IsInt32 z → signed32 (word32 z) ≡ z
signed32-word32 (pos n) h = ground arith
signed32-word32 (negsuc n) h = ground arith

pub dentry_ino-set_self :
    (img : Bytes) (a : ℕ) (z : ℤ) → IsInt32 z → dentry_ino (set_dentry_ino img a z) a ≡ z
unfolding dentry_ino set_dentry_ino
dentry_ino-set_self img a z h =
    ap signed32 (load32-store32 img a (word32 z) (word32-lt z h)) ∙ signed32-word32 z h

-- Images that agree on four bytes hold the same inode number there.
pub dentry_ino_ext :
    (img other : Bytes) (a : ℕ)
    → ((x : ℕ) → a ≤ x → x < a + 4 → img x ≡ other x)
    → dentry_ino img a ≡ dentry_ino other a
unfolding dentry_ino load32
dentry_ino_ext img other a h =
    rw
      (
        h a (omega arith) (omega arith),
        h (a + 1) (omega arith) (omega arith),
        h (a + 2) (omega arith) (omega arith),
        h (a + 3) (omega arith) (omega arith),
      )
      refl

pub set_dentry_ino_byte :
    (img : Bytes) (a : ℕ) (z : ℤ) (x : ℕ) → (x < a) ⊎ (a + 4 ≤ x) → set_dentry_ino img a z x ≡ img x
unfolding set_dentry_ino
set_dentry_ino_byte img a z x h = store32_byte img a (word32 z) x h
