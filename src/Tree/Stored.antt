-- ===== src/Tree/Stored.antt =====
-- The block of a file in a tree, apart from all entries and from the blocks of other files.
use extent_based_fs.Base.{
  ℕ, zero, suc, ◌+◌, ◌*◌, ◌%◌, ◌≤◌, ◌<◌, ◌≡◌, ◌≢◌, ap, ◌∙◌, ◌⊎◌, true, List, [], ◌∷◌, arith,
}
use extent_based_fs.Types.{FsCtx, inode_capacity, a1fs_block_size}
use extent_based_fs.Image.{Bytes}
use extent_based_fs.Bitmap.{check_bit_usage}
use extent_based_fs.Dir.{block_addr}
use extent_based_fs.Dir.Entries.{AllSlots}
use extent_based_fs.Alloc.DirBlock.{entry_offsets}
use extent_based_fs.Entry.Elsewhere.{Lacks}
use extent_based_fs.Tree.{Nodes, stored}
use extent_based_fs.Tree.Shape.{HasNodes, HoldsFile, IsClean, LacksAll, InUse, block_of}
use extent_based_fs.Tree.Frames.{AllSame}
use extent_based_fs.Tree.Walk.{used_below, node-Stands}

pieces_inside :
    (size left a : ℕ) → AllSlots size (entry_offsets (suc left) a) → a + 256 * suc left ≤ size
unfolding entry_offsets
pieces_inside size zero a h = omega (arith, h.0.1)
pieces_inside size (suc left) a h = omega (arith, pieces_inside size left (a + 256) h.1)

not_piece :
    (b left a : ℕ)
    → b % 256 ≡ 0
    → a % 256 ≡ 0
    → Lacks b (entry_offsets left a)
    → (b < a) ⊎ (a + 256 * left ≤ b)
unfolding entry_offsets
not_piece b zero a p q h = omega arith
not_piece b (suc left) a p q h = further (not_piece b left (a + 256) p (omega arith) h.1) h.0
  where
    further :
        (b < a + 256) ⊎ (a + 256 + 256 * left ≤ b) → b ≢ a → (b < a) ⊎ (a + 256 * suc left ≤ b)
    further far ne = omega arith

first_used :
    (s : FsCtx) (left a : ℕ)
    → InUse s (entry_offsets (suc left) a)
    → check_bit_usage s.block_bits (block_of s a) ≡ true
unfolding entry_offsets
first_used s left a h = h.0

module _ {s : FsCtx} {total : ℕ} {T : Nodes} {spare : ℕ} (has : HasNodes s total T spare)
    {i size : ℕ} {content : Bytes} (file : T i ≡ stored size content) where
  pub holds : HoldsFile s (has.places i) i size content
  holds = (node-Stands has i file (λ q. cc)).1

  pub bit_set : check_bit_usage s.inode_bits i ≡ true
  bit_set = (node-Stands has i file (λ q. cc)).0

  abbrev pub file_addr : ℕ
  file_addr = block_addr s.sb.sb_first_data_block holds.block

  pub file_below : i < total
  file_below = used_below has i (λ e. cc)

  pub file_in_table : i < inode_capacity s.sb
  file_in_table = omega (arith, file_below, has.counts.in_table)

  pub file_inside : file_addr + 4096 ≤ s.size
  file_inside = pieces_inside s.size 15 file_addr (rw holds.pieces at (has.slots i))

  pub block_used : check_bit_usage s.block_bits holds.block ≡ true
  block_used =
      let there : block_of s file_addr ≡ holds.block = omega arith in
      rw there at (first_used s 15 file_addr (rw holds.pieces at (has.in_use i)))

  pub block_below : holds.block < has.blocks.limit
  block_below = omega (arith, file_inside, has.blocks.whole)

  pub slot_outside :
      (b : ℕ) → b % 256 ≡ 0 → Lacks b (has.places i) → (b < file_addr) ⊎ (file_addr + 4096 ≤ b)
  slot_outside b aligned lacks =
      not_piece b 16 file_addr aligned (omega arith) (rw holds.pieces at lacks)

  module _ (img' : Bytes)
      (same : (x : ℕ) → (x < file_addr) ⊎ (file_addr + 4096 ≤ x) → img' x ≡ s.image x) where
    AllSame-apart :
        (es : List ℕ) → AllSlots s.size es → LacksAll es (has.places i) → AllSame s.image img' es
    AllSame-apart [] slots lacks = tt
    AllSame-apart (b ∷ es) slots lacks = (
      λ x p q. same x (near b x slots.0.0 (slot_outside b slots.0.0 lacks.0) p q),
      AllSame-apart es slots.1 lacks.1,
    )
      where
        near :
            (b x : ℕ)
            → b % 256 ≡ 0
            → (b < file_addr) ⊎ (file_addr + 4096 ≤ b)
            → b ≤ x
            → x < b + 256
            → (x < file_addr) ⊎ (file_addr + 4096 ≤ x)
        near b x aligned out p q = omega arith

    pub others_same : (j : ℕ) → j ≢ i → AllSame s.image img' (has.places j)
    others_same j ne = AllSame-apart (has.places j) (has.slots j) (has.apart j i ne)

    pub file-IsClean : IsClean img' s.block_bits s.sb.sb_first_data_block has.blocks.limit
    file-IsClean k x lt unset lo hi =
        same x (outside k (λ e. cc (unset, block_used, ap (check_bit_usage s.block_bits) e)) lo hi)
        ∙ has.blocks.clean k x lt unset lo hi
      where
        outside :
            (k : ℕ)
            → k ≢ holds.block
            → block_addr s.sb.sb_first_data_block k ≤ x
            → x < block_addr s.sb.sb_first_data_block k + a1fs_block_size
            → (x < file_addr) ⊎ (file_addr + 4096 ≤ x)
        outside k ne p q = omega arith
