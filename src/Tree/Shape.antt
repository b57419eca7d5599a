-- ===== src/Tree/Shape.antt =====
-- Which tree the state of the program stands for: its inodes, their bits, and the entries of its
-- directories (a1b/a1fs.h), with what a1b/util.h counts of them.
use extent_based_fs.Base.{
  ℕ, ◌*◌, ◌+◌, ◌-◌, ◌/◌, ◌^◌, ◌≤◌, ◌<◌, ◌≡◌, ◌≢◌, true, false, List, [], ◌∷◌, length,
}
use extent_based_fs.Base.Int.{pos, minus_one}
use extent_based_fs.Types.{FsCtx, Bitmap, inode_capacity, a1fs_block_size}
use extent_based_fs.Image.{Bytes}
use extent_based_fs.Bitmap.{check_bit_usage}
use extent_based_fs.Bitmap.Toggle.{IsBytes}
use extent_based_fs.Bitmap.Count.{count_clear}
use extent_based_fs.Dir.{block_addr}
use extent_based_fs.Alloc.DirBlock.{entry_offsets}
use extent_based_fs.Dir.Entries.{AllSlots}
use extent_based_fs.Entry.Elsewhere.{Lacks}
use extent_based_fs.Catalog.Steps.{Represents}
use extent_based_fs.Tree.{Node, vacant, bare, folder, blank, stored, dropped, Nodes}
use extent_based_fs.Tree.Links.{IsLinked}

-- File `j` has one block, which `es` cuts into pieces of 256 bytes; the size that is recorded for its
-- extent is not below that of the file, so that every byte is found.
pub record HoldsFile (s : FsCtx) (es : List ℕ) (j size : ℕ) (content : Bytes) : Type 0 where
  pub block : ℕ
  pub pieces : es ≡ entry_offsets 16 (block_addr s.sb.sb_first_data_block block)
  pub last : (s.itable j).last_used_extent ≡ pos 0
  pub start : ((s.itable j).i_extent 0).start ≡ block
  pub count : ((s.itable j).i_extent 0).count ≡ pos 1
  pub reach : ℕ
  pub recorded : ((s.itable j).i_extent 0).size ≡ pos reach
  pub covers : size ≤ reach
  pub length : (s.itable j).size ≡ size
  pub positive : 0 < size
  pub small : size < 4096
  pub bytes :
      (x : ℕ) → x < 4096 → s.image (block_addr s.sb.sb_first_data_block block + x) ≡ content x

-- Inode `j`, whose directory entries or pieces of a file stand at `es`, is the node.
abbrev pub Stands : FsCtx → (es : List ℕ) → (j : ℕ) → Node → Type 0
Stands s es j vacant = (check_bit_usage s.inode_bits j ≡ false) × (es ≡ [])
Stands s es j bare =
    (check_bit_usage s.inode_bits j ≡ true)
    × (es ≡ [])
    × ((s.itable j).last_used_extent ≡ minus_one)
    × ((s.itable j).num_entries ≡ 0)
Stands s es j (folder m room) =
    (check_bit_usage s.inode_bits j ≡ true)
    × Represents s j es m room
    × (length es < 2 ^ 32)
    × ((s.itable j).num_entries ≡ length es - room)
Stands s es j blank =
    (check_bit_usage s.inode_bits j ≡ true)
    × (es ≡ [])
    × ((s.itable j).last_used_extent ≡ minus_one)
    × ((s.itable j).size ≡ 0)
Stands s es j (stored size content) =
    (check_bit_usage s.inode_bits j ≡ true) × HoldsFile s es j size content
Stands s es j dropped = (check_bit_usage s.inode_bits j ≡ true) × (es ≡ [])

abbrev pub Each : (ℕ → Type 0) → List ℕ → Type 0
Each P [] = Unit
Each P (a ∷ es) = P a × Each P es

abbrev pub LacksAll : List ℕ → List ℕ → Type 0
LacksAll es fs = Each (λ a. Lacks a fs) es

-- The data block that holds offset `a`.
abbrev pub block_of : FsCtx → ℕ → ℕ
block_of s a = a / a1fs_block_size - s.sb.sb_first_data_block

-- The offsets lie in blocks that are in use.
abbrev pub InUse : FsCtx → List ℕ → Type 0
InUse s es = Each (λ a. check_bit_usage s.block_bits (block_of s a) ≡ true) es

-- The offsets lie in the data region.
abbrev pub InRegion : FsCtx → List ℕ → Type 0
InRegion s es = Each (λ a. s.sb.sb_first_data_block * a1fs_block_size ≤ a) es

-- Of the first `limit` data blocks, those that are free hold zeros.
abbrev pub IsClean : Bytes → Bitmap → (first_data_block limit : ℕ) → Type 0
IsClean img bits first_data_block limit =
    (k x : ℕ)
    → k < limit
    → check_bit_usage bits k ≡ false
    → block_addr first_data_block k ≤ x
    → x < block_addr first_data_block k + a1fs_block_size
    → img x ≡ 0

-- The first `limit` data blocks are those inside the image, `spare` of them are free, and those hold zeros.
pub record HasSpare (s : FsCtx) (spare : ℕ) : Type 0 where
  pub first : s.sb.sb_first_empty_db ≡ 0
  pub bytes : IsBytes s.block_bits
  pub limit : ℕ
  pub below : limit < s.sb.size / a1fs_block_size
  pub inside : block_addr s.sb.sb_first_data_block limit ≤ s.size
  pub whole : s.size / a1fs_block_size ≤ s.sb.sb_first_data_block + limit
  pub spare_blocks : spare ≡ count_clear s.block_bits limit
  pub free_blocks : ℕ
  pub counted : s.sb.sb_free_blocks_count ≡ pos free_blocks
  pub enough : spare ≤ free_blocks
  pub clean : IsClean s.image s.block_bits s.sb.sb_first_data_block limit

-- There are `total` inodes, all in the table, and the superblock counts the free ones.
pub record HasInodes (s : FsCtx) (total : ℕ) : Type 0 where
  pub inodes : s.sb.sb_inodes_count ≡ pos total
  pub in_table : total ≤ inode_capacity s.sb
  pub small : total ≤ 2 ^ 31
  pub bytes : IsBytes s.inode_bits
  pub free_inodes : s.sb.sb_free_inodes_count ≡ pos (count_clear s.inode_bits total)

-- The state `s` has the nodes `T`, of `total` inodes, and `spare` free blocks. The entries of
-- directory `j`, or the pieces of file `j`, stand at `places j`.
pub record HasNodes (s : FsCtx) (total : ℕ) (T : Nodes) (spare : ℕ) : Type 0 where
  pub counts : HasInodes s total
  pub blocks : HasSpare s spare
  pub places : ℕ → List ℕ
  pub stands : (j : ℕ) → j < total → Stands s (places j) j (T j)
  pub beyond : (j : ℕ) → total ≤ j → T j ≡ vacant
  pub apart : (i j : ℕ) → i ≢ j → LacksAll (places i) (places j)
  pub in_use : (j : ℕ) → InUse s (places j)
  pub slots : (j : ℕ) → AllSlots s.size (places j)
  pub region : (j : ℕ) → InRegion s (places j)

-- The state `s` stands for the tree `T` of `total` inodes with `spare` free blocks.
pub record IsTree (s : FsCtx) (total : ℕ) (T : Nodes) (spare : ℕ) : Type 0 where
  pub has : HasNodes s total T spare
  pub links : IsLinked T
