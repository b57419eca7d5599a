-- ===== src/Tree/Frames.antt =====
-- An inode stands for the same node in states that agree on it, its bit and the bytes of its
-- entries, whatever the callbacks of a1b/a1fs.c have done elsewhere.
use extent_based_fs.Base.{
  ℕ, zero, suc, ◌*◌, ◌+◌, ◌%◌, ◌≤◌, ◌<◌, ◌≡◌, ◌≢◌, refl, ap, ◌∙◌, ◌⊎◌, true, false, List, [], ◌∷◌,
  some, arith, Bool, Bool-cases, ltb, inl, inr,
}
use extent_based_fs.Types.{FsCtx}
use extent_based_fs.Image.{Bytes, name_addr}
use extent_based_fs.Bitmap.{check_bit_usage}
use extent_based_fs.Dir.{dentry_addrs}
use extent_based_fs.Dir.Lookup.{IsDir, first_with}
use extent_based_fs.Dir.Entries.{AllSlots}
use extent_based_fs.Dir.{block_addr}
use extent_based_fs.Alloc.DirBlock.{entry_offsets}
use extent_based_fs.Entry.Elsewhere.{Lacks}
use extent_based_fs.Entry.Fill.{dentry_ino_same, has_name_same}
use extent_based_fs.Catalog.{Row, unused, used, Names}
use extent_based_fs.Catalog.Shows.{Holds, Shows}
use extent_based_fs.Catalog.Steps.{Represents}
use extent_based_fs.Tree.{Node, vacant, bare, folder, blank, stored, dropped}
use extent_based_fs.Tree.Shape.{Stands, HoldsFile, Each, block_of, IsClean}

-- The images agree on the entries at these offsets.
abbrev pub AllSame : (img img' : Bytes) → List ℕ → Type 0
AllSame img img' es = Each (λ a. (x : ℕ) → a ≤ x → x < a + 256 → img' x ≡ img x) es

pub AllSame-refl : (img : Bytes) (es : List ℕ) → AllSame img img es
AllSame-refl img [] = tt
AllSame-refl img (a ∷ es) = (λ x p q. refl, AllSame-refl img es)

pub AllSame-Lacks :
    (img img' : Bytes) (size a : ℕ) (es : List ℕ)
    → a % 256 ≡ 0
    → ((x : ℕ) → (x < a) ⊎ (a + 256 ≤ x) → img' x ≡ img x)
    → AllSlots size es
    → Lacks a es
    → AllSame img img' es
AllSame-Lacks img img' size a [] aligned same slots out = tt
AllSame-Lacks img img' size a (b ∷ es) aligned same slots out = (
  λ x p q. outside x p q aligned slots.0.0 out.0,
  AllSame-Lacks img img' size a es aligned same slots.1 out.1,
)
  where
    outside : (x : ℕ) → b ≤ x → x < b + 256 → a % 256 ≡ 0 → b % 256 ≡ 0 → a ≢ b → img' x ≡ img x
    outside x p q m n ne = same x (omega arith)

Holds-AllSame :
    (img img' : Bytes) (a : ℕ) (r : Row)
    → ((x : ℕ) → a ≤ x → x < a + 256 → img' x ≡ img x)
    → Holds img a r
    → Holds img' a r
Holds-AllSame img img' a unused same h =
    (dentry_ino_same img' img a same ∙ h.0, same (name_addr a) (omega arith) (omega arith) ∙ h.1)
Holds-AllSame img img' a (used name ino) same h = (
  dentry_ino_same img' img a same ∙ h.0,
  has_name_same img' img a same name h.2.0.short ∙ h.1,
  h.2,
)

pub Shows-AllSame :
    (img img' : Bytes) (es : List ℕ) (rows : List Row)
    → AllSame img img' es
    → Shows img es rows
    → Shows img' es rows
Shows-AllSame img img' [] [] same h = tt
Shows-AllSame img img' [] (r ∷ rows) same h = h
Shows-AllSame img img' (b ∷ es) [] same h = h
Shows-AllSame img img' (b ∷ es) (r ∷ rows) same h =
    (Holds-AllSame img img' b r same.0 h.0, Shows-AllSame img img' es rows same.1 h.1)

-- Images that agree on the pieces of a block agree on its bytes.
AllSame-pieces :
    (img img' : Bytes) (left a : ℕ)
    → AllSame img img' (entry_offsets left a)
    → (x : ℕ) → a ≤ x
    → x < a + 256 * left
    → img' x ≡ img x
unfolding entry_offsets
AllSame-pieces img img' zero a same x lo hi = absurd (omega arith)
AllSame-pieces img img' (suc left) a same x lo hi = elim (Bool-cases (ltb x (a + 256))) [
  | inl near ↦ same.0 x lo (ground arith)
  | inr far ↦ AllSame-pieces img img' left (a + 256) same.1 x (ground arith) (omega arith)
]

-- What a directory or inode `j` depends on.
pub record Agrees (s t : FsCtx) (es : List ℕ) (j : ℕ) : Type 0 where
  pub size : t.size ≡ s.size
  pub region : t.sb.sb_first_data_block ≡ s.sb.sb_first_data_block
  pub table : t.sb.sb_inode_table ≡ s.sb.sb_inode_table
  pub inode : t.itable j ≡ s.itable j
  pub bit : check_bit_usage t.inode_bits j ≡ check_bit_usage s.inode_bits j
  pub image : AllSame s.image t.image es

module _ {s t : FsCtx} {es : List ℕ} {j : ℕ} (same : Agrees s t es j) where
  IsDir-Agrees : IsDir s j es → IsDir t j es
  unfolding dentry_addrs
  IsDir-Agrees is = record {
    in_table = rw (same.region, same.table) is.in_table;
    entries = rw (same.size, same.region, same.inode) is.entries;
  }

  pub Represents-Agrees :
      {m : Names} {room : ℕ} → Represents s j es m room → Represents t j es m room
  Represents-Agrees r = record {
    is = IsDir-Agrees r.is;
    distinct = r.distinct;
    rows = r.rows;
    shows = Shows-AllSame s.image t.image es r.rows same.image r.shows;
    tidy = r.tidy;
    names = r.names;
    left = r.left;
  }

  HoldsFile-Agrees :
      {size : ℕ} {content : Bytes} → HoldsFile s es j size content → HoldsFile t es j size content
  HoldsFile-Agrees h = record {
    block = h.block;
    pieces = rw same.region h.pieces;
    last = rw same.inode h.last;
    start = rw same.inode h.start;
    count = rw same.inode h.count;
    reach = h.reach;
    recorded = rw same.inode h.recorded;
    covers = h.covers;
    length = rw same.inode h.length;
    positive = h.positive;
    small = h.small;
    bytes = λ x lt. rw same.region (
        AllSame-pieces s.image t.image 16 (block_addr s.sb.sb_first_data_block h.block)
          (rw h.pieces at same.image) (block_addr s.sb.sb_first_data_block h.block + x)
          (omega arith) (omega arith)
        ∙ h.bytes x lt);
  }

  pub Stands-Agrees : (v : Node) → Stands s es j v → Stands t es j v
  Stands-Agrees vacant h = (same.bit ∙ h.0, h.1)
  Stands-Agrees bare h = (same.bit ∙ h.0, h.1, rw same.inode h.2, rw same.inode h.3)
  Stands-Agrees (folder m room) h = (same.bit ∙ h.0, Represents-Agrees h.1, h.2, rw same.inode h.3)
  Stands-Agrees blank h = (same.bit ∙ h.0, h.1, rw same.inode h.2, rw same.inode h.3)
  Stands-Agrees (stored size content) h = (same.bit ∙ h.0, HoldsFile-Agrees h.1)
  Stands-Agrees dropped h = (same.bit ∙ h.0, h.1)

-- The entry that a search finds is one of the entries.
pub first_with-Each :
    (test : ℕ → Bool) (P : ℕ → Type 0) (es : List ℕ) {a : ℕ}
    → first_with test es ≡ some a
    → Each P es
    → P a
unfolding first_with
first_with-Each test P [] e h = cc
first_with-Each test P (b ∷ es) {a} e h = elim (Bool-cases (test b)) [
  | inl hit ↦ let found : some b ≡ some a = rw hit at e in let same : b ≡ a = cc in rw (← same) h.0
  | inr miss ↦ first_with-Each test P es (rw miss at e) h.1
]

-- A block that is free holds none of the bytes of an entry in a block that is in use.
pub IsClean-entry :
    (s : FsCtx) (img' : Bytes) (a limit : ℕ)
    → a % 256 ≡ 0
    → check_bit_usage s.block_bits (block_of s a) ≡ true
    → ((x : ℕ) → (x < a) ⊎ (a + 256 ≤ x) → img' x ≡ s.image x)
    → IsClean s.image s.block_bits s.sb.sb_first_data_block limit
    → IsClean img' s.block_bits s.sb.sb_first_data_block limit
IsClean-entry s img' a limit aligned set same clean k x below unset lo hi =
    elim (Bool-cases (ltb x a)) [
      | inl left ↦ same x (ground arith) ∙ clean k x below unset lo hi
      | inr left ↦ elim (Bool-cases (ltb x (a + 256))) [
        | inl inside ↦
            let there : block_of s a ≡ k = in_block a (le left) (lt inside) aligned in
            cc (set, unset, ap (check_bit_usage s.block_bits) there)
        | inr right ↦ same x (ground arith) ∙ clean k x below unset lo hi
      ]
    ]
  where
    le : ltb x a ≡ false → a ≤ x
    le h = ground arith

    lt : ltb x (a + 256) ≡ true → x < a + 256
    lt h = ground arith

    in_block : (b : ℕ) → b ≤ x → x < b + 256 → b % 256 ≡ 0 → block_of s b ≡ k
    in_block b p q m = omega (arith, lo, hi)
