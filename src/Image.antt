-- ===== src/Image.antt =====
-- The bytes of the data region: a directory entry (a1fs_dentry of a1b/a1fs.h) is a little-endian
-- int32_t inode number and a name of 252 bytes that ends at its first NUL.
pub mod Words
pub mod Names
use extent_based_fs.Base.{
  ℕ, zero, suc, ◌+◌, ◌-◌, ◌*◌, ◌/◌, ◌%◌, ◌^◌, Bool, true, false, ◌&&◌, List, [], ◌∷◌, ltb, ◌==◌,
  if◌then◌else◌,
}
use extent_based_fs.Base.Int.{ℤ, pos, negsuc}

abbrev pub Bytes : Type 0
Bytes = ℕ → ℕ

unfoldable pub store8 : Bytes → ℕ → ℕ → Bytes
store8 img a v x = if x == a then v % 256 else img x

unfoldable pub load32 : Bytes → ℕ → ℕ
load32 img a = img a + 256 * img (a + 1) + 65536 * img (a + 2) + 16777216 * img (a + 3)

unfoldable pub store32 : Bytes → ℕ → ℕ → Bytes
store32 img a v x =
    if x == a
    then v % 256
    else if x == a + 1
    then v / 256 % 256
    else if x == a + 2
    then v / 65536 % 256
    else if x == a + 3
    then v / 16777216 % 256
    else img x

-- The int32_t that a pattern of 32 bits stands for, and back.
abbrev pub signed32 : ℕ → ℤ
signed32 w = if ltb w (2 ^ 31) then pos w else negsuc (2 ^ 32 - w - 1)

abbrev pub word32 : ℤ → ℕ
word32 (pos n) = n % 2 ^ 32
word32 (negsuc n) = 2 ^ 32 - 1 - n % 2 ^ 32

-- `dentry->ino`
unfoldable pub dentry_ino : Bytes → ℕ → ℤ
unfolding load32
dentry_ino img a = signed32 (load32 img a)

unfoldable pub set_dentry_ino : Bytes → ℕ → ℤ → Bytes
unfolding store32
set_dentry_ino img a ino = store32 img a (word32 ino)

-- `dentry->name`
abbrev pub name_addr : ℕ → ℕ
name_addr a = a + 4

-- `strcmp(dentry->name, s) == 0` for the bytes `s` of a string, none of them NUL.
unfoldable pub str_eq : Bytes → ℕ → List ℕ → Bool
str_eq img a [] = img a == 0
str_eq img a (c ∷ cs) = (img a == c) && str_eq img (a + 1) cs

-- The bytes up to the first NUL, of at most `n`: what a reader of the string sees.
unfoldable pub c_string : ℕ → Bytes → ℕ → List ℕ
c_string zero img a = []
c_string (suc n) img a =
    let rest = c_string n img (a + 1) in if img a == 0 then [] else img a ∷ rest

-- `strncpy(dst, src, strlen(src)); dst[strlen(src)] = '\0'`
unfoldable pub store_str : Bytes → ℕ → List ℕ → Bytes
unfolding store8
store_str img a [] = store8 img a 0
store_str img a (c ∷ cs) = store_str (store8 img a c) (a + 1) cs
