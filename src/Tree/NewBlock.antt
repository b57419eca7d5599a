-- ===== src/Tree/NewBlock.antt =====
-- The unused entries of a block that make_dentry_block of a1b/a1fs_helper.c has just cleared.
use extent_based_fs.Base.{
  ℕ, zero, suc, ◌+◌, ◌*◌, ◌%◌, ◌≤◌, ◌<◌, ◌≡◌, refl, ◌∙◌, ◌⊎◌, inl, inr, false, List, [], ◌∷◌, none,
  arith, ltb, Bool-cases,
}
use extent_based_fs.Base.Int.{pos, minus_one, ltb_ℤ}
use extent_based_fs.Types.{FsCtx}
use extent_based_fs.Image.{Bytes, set_dentry_ino, name_addr}
use extent_based_fs.Image.Words.{dentry_ino-set_self, dentry_ino_ext, set_dentry_ino_byte}
use extent_based_fs.Bitmap.{check_bit_usage, get_available_block, get_available_bit}
use extent_based_fs.Bitmap.Count.{count_clear-AllUsed}
use extent_based_fs.Bitmap.Blocks.{get_available_block_single}
use extent_based_fs.Dir.Entries.{AllSlots}
use extent_based_fs.Alloc.{clear_inos}
use extent_based_fs.Alloc.DirBlock.{entry_offsets, clear_inos_outside}
use extent_based_fs.Entry.Elsewhere.{Lacks}
use extent_based_fs.Catalog.{Row, unused, find_row}
use extent_based_fs.Catalog.Rows.{IsTidy}
use extent_based_fs.Catalog.Shows.{Shows, AllDistinct}
use extent_based_fs.Tree.Shape.{HasSpare, Each}

by_block :
    {s : FsCtx} {spare k : ℕ} (h : HasSpare s (suc spare))
    → get_available_block s.sb s.block_bits (pos 1) ≡ pos k
    → get_available_bit s.sb s.block_bits 1 (pos 1) ≡ pos k
unfolding get_available_bit
by_block {s} h e = rw (h.counted, enough) e
  where
    enough : ltb_ℤ (pos h.free_blocks) (pos 1) ≡ false
    enough = ground (arith, h.enough)

-- With a free block left the search finds one.
pub block_chosen :
    {s : FsCtx} {spare : ℕ} (h : HasSpare s (suc spare))
    → (k : ℕ) × (get_available_bit s.sb s.block_bits 1 (pos 1) ≡ pos k)
      × (k < h.limit)
      × (check_bit_usage s.block_bits k ≡ false)
block_chosen {s} {spare} h =
    let (k, e, lo, hi, before, free) =
      get_available_block_single s.sb s.block_bits (omega (arith, h.first, h.below)) in
    let below : k < h.limit = elim (Bool-cases (ltb k h.limit)) [
      | inl q ↦ ground arith
      | inr q ↦
          let all =
            count_clear-AllUsed s.block_bits h.limit
              (λ j p r. before j (rw h.first (omega arith)) (past k q j r)) in
          absurd (omega (arith, all, h.spare_blocks))
    ] in
    (k, by_block h e, below, free (omega (arith, below, h.below)))
  where
    past : (k : ℕ) → ltb k h.limit ≡ false → (j : ℕ) → j < h.limit → j < k
    past k q j r = ground arith

-- Rows of a block that has just been cleared.
unfoldable pub new_rows : ℕ → List Row
new_rows zero = []
new_rows (suc left) = unused ∷ new_rows left

pub Shows-new_rows :
    (left a : ℕ) (img : Bytes)
    → a % 256 ≡ 0
    → ((x : ℕ) → a ≤ x → x < a + 256 * left → img x ≡ 0)
    → Shows (clear_inos left a img) (entry_offsets left a) (new_rows left)
unfolding clear_inos entry_offsets new_rows
Shows-new_rows zero a img aligned zeros = tt
Shows-new_rows (suc left) a img aligned zeros = (
  (
    dentry_ino_ext (clear_inos left (a + 256) img') img' a
          (λ x p q. clear_inos_outside left (a + 256) img' x (inl (omega arith)))
        ∙ dentry_ino-set_self img a minus_one (omega arith),
    clear_inos_outside left (a + 256) img' (name_addr a) (inl (omega arith))
        ∙ set_dentry_ino_byte img a minus_one (name_addr a) (inr (omega arith))
        ∙ zeros (name_addr a) (omega arith) (omega arith),
  ),
  Shows-new_rows left (a + 256) img' (omega arith) (λ x p q.
      set_dentry_ino_byte img a minus_one x (inr (omega arith))
      ∙ zeros x (omega arith) (omega arith)),
)
  where
    img' : Bytes
    img' = set_dentry_ino img a minus_one

pub new_rows-IsTidy : (left : ℕ) → IsTidy (new_rows left)
unfolding new_rows
new_rows-IsTidy zero = tt
new_rows-IsTidy (suc left) = new_rows-IsTidy left

pub find_row-new_rows : (left : ℕ) (name : List ℕ) → find_row name (new_rows left) ≡ none
unfolding find_row new_rows
find_row-new_rows zero name = refl
find_row-new_rows (suc left) name = find_row-new_rows left name

-- Where the new entries stand.
pub entry_offsets-Each :
    (P : ℕ → Type 0) (left a : ℕ)
    → ((x : ℕ) → a ≤ x → x + 256 ≤ a + 256 * left → x % 256 ≡ a % 256 → P x)
    → Each P (entry_offsets left a)
unfolding entry_offsets
entry_offsets-Each P zero a h = tt
entry_offsets-Each P (suc left) a h = (
  h a (omega arith) (omega arith) refl,
  entry_offsets-Each P left (a + 256) (λ x p q r. h x (omega arith) (omega arith) (omega arith)),
)

pub entry_offsets-Lacks :
    (b left a : ℕ) → (b < a) ⊎ (a + 256 * left ≤ b) → Lacks b (entry_offsets left a)
unfolding entry_offsets
entry_offsets-Lacks b zero a h = tt
entry_offsets-Lacks b (suc left) a h =
    (λ e. omega (arith, e), entry_offsets-Lacks b left (a + 256) (omega arith))

pub entry_offsets-AllDistinct : (left a : ℕ) → AllDistinct (entry_offsets left a)
unfolding entry_offsets
entry_offsets-AllDistinct zero a = tt
entry_offsets-AllDistinct (suc left) a = (
  entry_offsets-Lacks a left (a + 256) (inl (omega arith)),
  entry_offsets-AllDistinct left (a + 256),
)

pub entry_offsets-AllSlots :
    (size left a : ℕ) → a % 256 ≡ 0 → a + 256 * left ≤ size → AllSlots size (entry_offsets left a)
unfolding entry_offsets
entry_offsets-AllSlots size zero a aligned h = tt
entry_offsets-AllSlots size (suc left) a aligned h =
    ((aligned, omega arith), entry_offsets-AllSlots size left (a + 256) (omega arith) (omega arith))
