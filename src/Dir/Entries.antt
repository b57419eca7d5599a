-- ===== src/Dir/Entries.antt =====
-- Which offsets the directory loops visit: multiples of the entry size, inside the image.
use extent_based_fs.Base.{
  ℕ, zero, suc, ◌+◌, ◌%◌, ◌≤◌, ◌≡◌, inl, inr, Bool, true, false, List, [], ◌∷◌, ◌++◌, map, Option,
  none, some, arith, ltb, if◌then◌else◌, Bool-cases,
}
use extent_based_fs.Base.Int.{pos_part}
use extent_based_fs.Types.{FsCtx, Extent, Inode, inode_extents, sizeof_dentry}
use extent_based_fs.Dir.Lookup.{first_with}
use extent_based_fs.Dir.{
  block_entries, extent_entries, inode_entries, dentry_addrs, entries_per_block, block_addr, visit,
  extents_used,
}

abbrev pub IsSlot : (size a : ℕ) → Type 0
IsSlot size a = (a % 256 ≡ 0) × (a + 256 ≤ size)

abbrev pub AllVisits : (size : ℕ) → List (Option ℕ) → Type 0
AllVisits size [] = Unit
AllVisits size (none ∷ r) = AllVisits size r
AllVisits size (some a ∷ r) = IsSlot size a × AllVisits size r

abbrev pub AllSlots : (size : ℕ) → List ℕ → Type 0
AllSlots size [] = Unit
AllSlots size (a ∷ es) = IsSlot size a × AllSlots size es

AllVisits-append :
    (size : ℕ) (xs ys : List (Option ℕ))
    → AllVisits size xs
    → AllVisits size ys
    → AllVisits size (xs ++ ys)
AllVisits-append size [] ys p q = q
AllVisits-append size (none ∷ xs) ys p q = AllVisits-append size xs ys p q
AllVisits-append size (some a ∷ xs) ys p q = (p.0, AllVisits-append size xs ys p.1 q)

AllVisits-visit :
    (size a : ℕ) (r : List (Option ℕ))
    → a % 256 ≡ 0
    → AllVisits size r
    → AllVisits size (visit size a ∷ r)
AllVisits-visit size a r h p = elim (Bool-cases (ltb size (a + sizeof_dentry))) [
  | inl out ↦ rw out p
  | inr inside ↦ rw inside ((h, ground arith), p)
]

block_entries-AllVisits :
    (size left a : ℕ) → a % 256 ≡ 0 → AllVisits size (block_entries size left a)
unfolding block_entries
block_entries-AllVisits size zero a h = tt
block_entries-AllVisits size (suc left) a h =
    AllVisits-visit size a _ h (block_entries-AllVisits size left (a + 256) (omega arith))

extent_entries-AllVisits :
    (size first left j : ℕ) → AllVisits size (extent_entries size first left j)
unfolding extent_entries
extent_entries-AllVisits size first zero j = tt
extent_entries-AllVisits size first (suc left) j =
    AllVisits-append size (block_entries size entries_per_block (block_addr first j))
      (extent_entries size first left (j + 1))
      (block_entries-AllVisits size entries_per_block (block_addr first j) (omega arith))
      (extent_entries-AllVisits size first left (j + 1))

inode_entries-AllVisits :
    (size first : ℕ) (extents : ℕ → Extent) (left i : ℕ)
    → AllVisits size (inode_entries size first extents left i)
unfolding inode_entries
inode_entries-AllVisits size first extents zero i = tt
inode_entries-AllVisits size first extents (suc left) i =
    AllVisits-append size
      (if ltb i inode_extents
        then extent_entries size first (pos_part (extents i).count) (extents i).start
        else none ∷ [])
      (inode_entries size first extents left (i + 1)) (one (ltb i inode_extents))
      (inode_entries-AllVisits size first extents left (i + 1))
  where
    one :
        (b : Bool)
        → AllVisits size (
            if b
            then extent_entries size first (pos_part (extents i).count) (extents i).start
            else none ∷ [])
    one true = extent_entries-AllVisits size first (pos_part (extents i).count) (extents i).start
    one false = tt

AllSlots-of_visits : (size : ℕ) (es : List ℕ) → AllVisits size (map some es) → AllSlots size es
AllSlots-of_visits size [] p = tt
AllSlots-of_visits size (a ∷ es) p = (p.0, AllSlots-of_visits size es p.1)

pub entries-AllSlots :
    (s : FsCtx) (inode : Inode) (es : List ℕ)
    → dentry_addrs s inode ≡ map some es
    → AllSlots s.size es
unfolding dentry_addrs
entries-AllSlots s inode es e = AllSlots-of_visits s.size es (
    rw e at (
      inode_entries-AllVisits s.size s.sb.sb_first_data_block inode.i_extent
        (extents_used inode.last_used_extent) 0))

pub first_with-IsSlot :
    (size : ℕ) (test : ℕ → Bool) (es : List ℕ) {a : ℕ}
    → first_with test es ≡ some a
    → AllSlots size es
    → IsSlot size a × (test a ≡ true)
unfolding first_with
first_with-IsSlot size test [] e h = cc
first_with-IsSlot size test (b ∷ es) e h = elim (Bool-cases (test b)) [
  | inl hit ↦ let same = rw hit at e in ground arith
  | inr miss ↦ let rest = rw miss at e in first_with-IsSlot size test es rest h.1
]
