-- ===== src/Mkfs.antt =====
-- The formatting tool, a1b/mkfs.c, and the check of fs_ctx_init in a1b/fs_ctx.c.
pub mod Sizes
pub mod Format
use extent_based_fs.Base.{
  ℕ, zero, suc, ◌+◌, ◌-◌, ◌*◌, ◌/◌, ◌%◌, ◌^◌, Bool, true, false, not, ◌&&◌, Option, none, some, ltb,
  leb, ◌==◌, if◌then◌else◌,
}
use extent_based_fs.Base.Int.{is_neg, ℤ, pos, minus_one, eq_ℤ}
use extent_based_fs.Types.{
  FsCtx, Superblock, Inode, Extent, Timespec, Cmd, pure, stop, starve, get, put, put_sb, load_inode,
  store_inode, index, clock_gettime, ◌>>=◌, ◌>>◌, a1fs_block_size, a1fs_magic, sizeof_inode,
}
use extent_based_fs.Bitmap.{get_available_bit}
use extent_based_fs.Alloc.{create_inode, set_inode_bit}

-- `n / d + (n % d != 0)`
abbrev pub ceil_div : ℕ → ℕ → ℕ
ceil_div n d = n / d + (if n % d == 0 then 0 else 1)

abbrev pub bits_per_block : ℕ
bits_per_block = a1fs_block_size * 8

-- The test of the loop that sizes the block bitmap, for `blocks_remaining` and `num_dbm_blocks`.
abbrev pub dbm_fits : ℕ → ℕ → Bool
dbm_fits remaining n =
    let quotient = (remaining - n) / bits_per_block in
    leb (quotient + (if quotient == 0 then 0 else 1)) n

unfoldable pub dbm_loop : (fuel remaining n : ℕ) → Option ℕ
dbm_loop zero remaining n = none
dbm_loop (suc fuel) remaining n = elim (dbm_fits remaining n) [
  | true ↦ some n
  | false ↦ dbm_loop fuel remaining (n + 1)
]

unfoldable pub a1fs_is_present : FsCtx → Bool
a1fs_is_present s = s.sb.magic == a1fs_magic

-- Where the parts of the file system start, and the blocks left for data.
pub record Layout : Type 0 where
  pub num_ibm_blocks : ℕ
  pub num_iblocks : ℕ
  pub num_dbm_blocks : ℕ
  pub blocks_remaining : ℕ

-- The stores of an 8-bit field.
abbrev pub u8 : ℕ → ℕ
u8 n = n % 2 ^ 8

-- The last part of `mkfs`, from the layout of the superblock on.
unfoldable pub mkfs_write : (size : ℕ) → Layout → Cmd Bool
mkfs_write size l = do
  s ← get
  put_sb (record s.sb {
    sb_block_bitmap = u8 (1 + l.num_ibm_blocks);
    sb_inode_table = u8 (1 + l.num_ibm_blocks + l.num_dbm_blocks);
    sb_first_data_block = u8 (1 + l.num_ibm_blocks + l.num_dbm_blocks + l.num_iblocks);
  })
  t ← get
  let available = get_available_bit t.sb t.inode_bits 0 minus_one
  if eq_ℤ available minus_one then pure false else do
    root ← index available
    flipped ← set_inode_bit root 1
    if is_neg flipped then pure false else do
      create_inode root 0x41FF
      curr_time ← clock_gettime
      inode ← load_inode root
      store_inode root (record inode {
        i_mtime = curr_time;
        last_used_extent = minus_one;
        links = 2;
        num_entries = 0;
        size = sizeof_inode;
      })
      u ← get
      put_sb (record u.sb {
        magic = a1fs_magic;
        size = size;
        sb_total_data_blocks = u8 (size / a1fs_block_size + 2 ^ 8 - u.sb.sb_first_data_block);
        sb_free_blocks_count = pos l.blocks_remaining;
        sb_used_dirs_count = pos 1;
      })
      pure true

-- `blocks_remaining` is an `int` that is tested after each subtraction and not used once it is
-- not positive, so a subtraction that stops at 0 tells the same.
unfoldable pub mkfs : (size n_inodes : ℕ) → Cmd Bool
unfolding dbm_loop a1fs_is_present
mkfs size n_inodes = do
  s ← get
  if a1fs_is_present s then pure false else do
    let after_sb = size / a1fs_block_size - 1
    if after_sb == 0 then pure false else do
      put_sb (record s.sb { sb_free_inodes_count = pos n_inodes; sb_inodes_count = pos n_inodes })
      let num_ibm_blocks = ceil_div n_inodes bits_per_block
      let after_ibm = after_sb - num_ibm_blocks
      if after_ibm == 0 then pure false else do
        t ← get
        put_sb (record t.sb { sb_inode_bitmap = 1 })
        let num_iblocks = ceil_div n_inodes sizeof_inode
        let after_table = after_ibm - num_iblocks
        if after_table == 0 then pure false else do
          num_dbm_blocks ← elim (dbm_loop (after_table + 1) after_table 1) [
            | none ↦ starve
            | some n ↦ pure n
          ]
          let remaining = after_table - num_dbm_blocks
          if remaining == 0
              then pure false
              else mkfs_write size (record {
                num_ibm_blocks = num_ibm_blocks;
                num_iblocks = num_iblocks;
                num_dbm_blocks = num_dbm_blocks;
                blocks_remaining = remaining;
              })

pub record MkfsOpts : Type 0 where
  pub n_inodes : ℕ
  pub force : Bool
  pub zero : Bool

-- Objects of zero bytes.
abbrev pub zero_extent : Extent
zero_extent = record { start = 0; count = pos 0; size = pos 0 }

abbrev pub zero_inode : Inode
zero_inode = record {
  mode = 0;
  links = 0;
  size = 0;
  i_mtime = record { tv_sec = 0; tv_nsec = 0 };
  i_extent = λ i. zero_extent;
  last_used_extent = pos 0;
  last_used_indirect = pos 0;
  num_entries = 0;
}

abbrev pub zero_superblock : Superblock
zero_superblock = record {
  magic = 0;
  size = 0;
  sb_first_data_block = 0;
  sb_first_empty_db = 0;
  sb_total_data_blocks = 0;
  sb_block_bitmap = 0;
  sb_inode_bitmap = 0;
  sb_inode_table = 0;
  sb_free_blocks_count = pos 0;
  sb_free_inodes_count = pos 0;
  sb_inodes_count = pos 0;
  sb_used_dirs_count = pos 0;
}

-- `memset(image, 0, size)`
abbrev pub memset_zero : FsCtx → FsCtx
memset_zero s = record s {
  image = λ a. 0;
  sb = zero_superblock;
  inode_bits = λ i. 0;
  block_bits = λ i. 0;
  itable = λ i. zero_inode;
}

-- The tool once its options are parsed and the image is mapped: its exit status.
unfoldable pub mkfs_main : (size : ℕ) → MkfsOpts → Cmd ℕ
mkfs_main size opts s =
    if not opts.force && a1fs_is_present s
    then pure 1 s
    else (do formatted ← mkfs size opts.n_inodes; pure (if formatted then 0 else 1))
        (if opts.zero then memset_zero s else s)

-- The mounted context is usable if the image holds the magic number.
unfoldable pub fs_ctx_init : FsCtx → Bool
fs_ctx_init s = s.sb.magic == a1fs_magic
