-- ===== src/Dir/Lookup.antt =====
-- What inode_lookup of a1b/a1fs_helper.c finds.
use extent_based_fs.Base.{
  ℕ, ◌<◌, ◌≡◌, refl, ap, ◌⊎◌, inl, inr, Bool, true, false, List, [], ◌∷◌, ◌++◌, map, Option, none,
  some, arith, lt→ltb, if◌then◌else◌, Bool-cases,
}
use extent_based_fs.Base.Int.{ℤ, pos, minus_one}
use extent_based_fs.Types.{FsCtx, ok, inode_capacity}
use extent_based_fs.Image.{Bytes, str_eq, dentry_ino, name_addr}
use extent_based_fs.Dir.{dentry_addrs, find_slot, found, missing, Found, inode_lookup}

-- The entries of directory `d` stand at the offsets `es`, all of them in the image.
pub record IsDir (s : FsCtx) (d : ℕ) (es : List ℕ) : Type 0 where
  pub in_table : d < inode_capacity s.sb
  pub entries : dentry_addrs s (s.itable d) ≡ map some es

abbrev pub to_found : Option ℕ → Found
to_found none = missing
to_found (some a) = found a

-- The first offset that passes a test.
unfoldable pub first_with : (ℕ → Bool) → List ℕ → Option ℕ
first_with test [] = none
first_with test (a ∷ es) = let rest = first_with test es in if test a then some a else rest

pub find_slot-map-some :
    (test : ℕ → Bool) (es : List ℕ) → find_slot test (map some es) ≡ to_found (first_with test es)
unfolding find_slot first_with
find_slot-map-some test [] = refl
find_slot-map-some test (a ∷ es) = ground (arith, find_slot-map-some test es)

abbrev pub has_name : Bytes → List ℕ → ℕ → Bool
has_name img token a = str_eq img (name_addr a) token

abbrev pub ino_of : Bytes → Option ℕ → ℤ
ino_of img none = minus_one
ino_of img (some a) = dentry_ino img a

pub inode_lookup-first_with :
    {s : FsCtx} {d : ℕ} {es : List ℕ} (token : List ℕ)
    → IsDir s d es
    → inode_lookup (pos d) token s ≡ ok (ino_of s.image (first_with (has_name s.image token) es)) s
unfolding inode_lookup
inode_lookup-first_with {s} {d} {es} token is =
    ground
      (arith, lt→ltb _ _ is.in_table, is.entries, find_slot-map-some (has_name s.image token) es)

abbrev pub NoneOf : (ℕ → Bool) → List ℕ → Type 0
NoneOf test [] = Unit
NoneOf test (a ∷ es) = (test a ≡ false) × NoneOf test es

-- `a` is the first offset of `es` that passes the test.
pub record IsFirstOf (test : ℕ → Bool) (es : List ℕ) (a : ℕ) : Type 0 where
  pub before : List ℕ
  pub after : List ℕ
  pub split : es ≡ before ++ a ∷ after
  pub fails : NoneOf test before
  pub passes : test a ≡ true

pub first_with_lem :
    (test : ℕ → Bool) (es : List ℕ)
    → ((first_with test es ≡ none) × NoneOf test es)
      ⊎ ((a : ℕ) × (first_with test es ≡ some a) × IsFirstOf test es a)
unfolding first_with
first_with_lem test [] = inl (refl, tt)
first_with_lem test (a ∷ es) = elim (Bool-cases (test a)) [
  | inl hit ↦
      rw hit
        (inr (a, refl, record { before = []; after = es; split = refl; fails = tt; passes = hit }))
  | inr miss ↦ rw miss (elim (first_with_lem test es) [
    | inl (e, all) ↦ inl (e, (refl, all))
    | inr (b, e, f) ↦ inr (
      b,
      e,
      record {
        before = a ∷ f.before;
        after = f.after;
        split = ap (λ r. a ∷ r) f.split;
        fails = (miss, f.fails);
        passes = f.passes;
      },
    )
  ])
]

-- What a lookup of `token` among the entries `es` returns.
abbrev pub LookedUp : Bytes → List ℕ → List ℕ → ℤ → Type 0
LookedUp img token es r =
    ((r ≡ minus_one) × NoneOf (has_name img token) es)
    ⊎ ((a : ℕ) × (r ≡ dentry_ino img a) × IsFirstOf (has_name img token) es a)

-- In a directory with entries `es` a lookup leaves the file system alone and returns the inode
-- number of the first entry whose name is `token`, or -1 if no entry has that name.
pub inode_lookup-LookedUp :
    {s : FsCtx} {d : ℕ} {es : List ℕ} (token : List ℕ)
    → IsDir s d es
    → (r : ℤ) × (inode_lookup (pos d) token s ≡ ok r s) × LookedUp s.image token es r
inode_lookup-LookedUp {s} {d} {es} token is = (
  ino_of s.image (first_with (has_name s.image token) es),
  inode_lookup-first_with token is,
  elim (first_with_lem (has_name s.image token) es) [
    | inl (e, all) ↦ inl (ap (ino_of s.image) e, all)
    | inr (a, e, f) ↦ inr (a, ap (ino_of s.image) e, f)
  ],
)
