-- ===== src/Mkfs/Format.antt =====
-- mkfs of a1b/mkfs.c on an image that it can format, and the refusal of one that holds an a1fs.
use extent_based_fs.Base.{
  ℕ, zero, suc, ◌+◌, ◌-◌, ◌/◌, ◌^◌, ◌≤◌, ◌<◌, ◌≡◌, ◌≢◌, refl, ◌∙◌, ◌↔◌, inl, inr, true, false, some,
  arith, ltb, lt→ltb, ne→==, eq→==, Bool-cases,
}
use extent_based_fs.Base.Int.{pos, minus_one, ltb_ℤ, ◌-ℤ◌}
use extent_based_fs.Types.{
  Bitmap, FsCtx, Superblock, Inode, Timespec, ok, update, inode_capacity, a1fs_block_size,
  a1fs_magic, sizeof_inode,
}
use extent_based_fs.Bitmap.{check_bit_usage, flip_bit, set_bits, get_available_bit, inode_scan}
use extent_based_fs.Alloc.{create_inode}
use extent_based_fs.Bitmap.Toggle.{IsBytes, check-flip_bit}
use extent_based_fs.Mkfs.Sizes.{table_short_iff}
use extent_based_fs.Mkfs.{
  Layout, u8, ceil_div, bits_per_block, dbm_loop, mkfs, mkfs_write, mkfs_main, MkfsOpts,
  a1fs_is_present, fs_ctx_init,
}

-- The layout for an image of `size` bytes and `n_inodes` inodes, with `dbm` blocks for the block
-- bitmap.
abbrev pub after_table : (size n_inodes : ℕ) → ℕ
after_table size n_inodes =
    size / a1fs_block_size - 1 - ceil_div n_inodes bits_per_block - ceil_div n_inodes sizeof_inode

abbrev pub layout : (size n_inodes dbm : ℕ) → Layout
layout size n_inodes dbm = record {
  num_ibm_blocks = ceil_div n_inodes bits_per_block;
  num_iblocks = ceil_div n_inodes sizeof_inode;
  num_dbm_blocks = dbm;
  blocks_remaining = after_table size n_inodes - dbm;
}

abbrev pub first_data_block : Layout → ℕ
first_data_block l = 1 + l.num_ibm_blocks + l.num_dbm_blocks + l.num_iblocks

abbrev pub counted : FsCtx → ℕ → FsCtx
counted s n_inodes = record s {
  sb = record s.sb {
    sb_free_inodes_count = pos n_inodes;
    sb_inodes_count = pos n_inodes;
    sb_inode_bitmap = 1;
  };
}

-- The superblock once the layout is written, and once the format is complete.
abbrev pub laid_out : FsCtx → (n_inodes : ℕ) → Layout → Superblock
laid_out s n_inodes l = record (counted s n_inodes).sb {
  sb_block_bitmap = 1 + l.num_ibm_blocks;
  sb_inode_table = 1 + l.num_ibm_blocks + l.num_dbm_blocks;
  sb_first_data_block = first_data_block l;
}

abbrev pub complete : FsCtx → (size n_inodes : ℕ) → Layout → Superblock
complete s size n_inodes l = record (laid_out s n_inodes l) {
  magic = a1fs_magic;
  size = size;
  sb_total_data_blocks = u8 (size / a1fs_block_size + 2 ^ 8 - first_data_block l);
  sb_free_inodes_count = pos n_inodes -ℤ pos 1;
  sb_free_blocks_count = pos l.blocks_remaining;
  sb_used_dirs_count = pos 1;
}

-- The root directory: empty, with two links.
abbrev pub root_inode : Inode → Timespec → Inode
root_inode old now = record old {
  mode = 0x41FF;
  links = 2;
  size = sizeof_inode;
  i_mtime = now;
  last_used_extent = minus_one;
  last_used_indirect = minus_one;
  num_entries = 0;
}

abbrev pub created : FsCtx → ℕ → Inode
created s mode = record (s.itable 0) {
  mode = mode;
  links = 0;
  size = 0;
  i_mtime = s.clock s.ticks;
  last_used_extent = minus_one;
  last_used_indirect = minus_one;
  num_entries = 0;
}

abbrev pub formatted : FsCtx → (size n_inodes : ℕ) → Layout → FsCtx
formatted s size n_inodes l = record s {
  sb = complete s size n_inodes l;
  inode_bits = flip_bit s.inode_bits 0;
  itable =
      update (update s.itable 0 (created s 0x41FF)) 0
        (root_inode (s.itable 0) (s.clock (s.ticks + 1)));
  ticks = s.ticks + 1 + 1;
}

scan_first : (b : Bitmap) (n : ℕ) → 0 < n → check_bit_usage b 0 ≡ false → inode_scan b n 0 ≡ pos 0
unfolding inode_scan
scan_first b zero h clear = elim h [ ]
scan_first b (suc n) h clear = rw clear refl

-- The image can be formatted: it holds no a1fs, its first inode bit is clear, some block is left
-- for data, and the data region starts at a block that 8 bits can name.
pub record CanFormat (s : FsCtx) (size n_inodes dbm : ℕ) : Type 0 where
  pub absent : s.sb.magic ≢ a1fs_magic
  pub free_blocks : ltb_ℤ s.sb.sb_free_blocks_count minus_one ≡ false
  pub first_clear : check_bit_usage s.inode_bits 0 ≡ false
  pub some_inode : 0 < n_inodes
  pub bitmap : dbm_loop (after_table size n_inodes + 1) (after_table size n_inodes) 1 ≡ some dbm
  pub some_data : dbm < after_table size n_inodes
  pub fits_u8 : first_data_block (layout size n_inodes dbm) < 256

module _ {s : FsCtx} {size n dbm : ℕ} (h : CanFormat s size n dbm) where
  mkfs-mkfs_write : mkfs size n s ≡ mkfs_write size (layout size n dbm) (counted s n)
  unfolding mkfs a1fs_is_present
  mkfs-mkfs_write =
      rw
        (
          ne→== s.sb.magic a1fs_magic h.absent,
          ne→== (size / a1fs_block_size - 1) 0 (omega (arith, h.some_data)),
          ne→== (size / a1fs_block_size - 1 - ceil_div n bits_per_block) 0
              (omega (arith, h.some_data)),
          ne→== (after_table size n) 0 (omega (arith, h.some_data)),
          h.bitmap,
          ne→== (after_table size n - dbm) 0 (omega (arith, h.some_data)),
        )
        refl

  u8_fits : (x : ℕ) → x ≤ first_data_block (layout size n dbm) → u8 x ≡ x
  u8_fits x le = omega (arith, h.fits_u8)

  first_inode :
      get_available_bit (laid_out s n (layout size n dbm)) s.inode_bits 0 minus_one ≡ pos 0
  unfolding get_available_bit inode_scan
  first_inode =
      rw
        (
          h.free_blocks,
          ne→== n 0 (omega (arith, h.some_inode)),
          scan_first s.inode_bits n h.some_inode h.first_clear,
        )
        refl

  table_has_room : ltb 0 (inode_capacity (laid_out s n (layout size n dbm))) ≡ true
  table_has_room = lt→ltb _ _ (ground (arith, h.some_inode))

  mkfs_write-formatted :
      mkfs_write size (layout size n dbm) (counted s n)
      ≡ ok true (formatted s size n (layout size n dbm))
  unfolding mkfs_write set_bits create_inode
  mkfs_write-formatted =
      rw
        (
          u8_fits (1 + ceil_div n bits_per_block) (omega arith),
          u8_fits (1 + ceil_div n bits_per_block + dbm) (omega arith),
          u8_fits (first_data_block (layout size n dbm)) (omega arith),
          first_inode,
          table_has_room,
          table_has_room,
          table_has_room,
          table_has_room,
        )
        refl

  pub mkfs-formatted : mkfs size n s ≡ ok true (formatted s size n (layout size n dbm))
  mkfs-formatted = mkfs-mkfs_write ∙ mkfs_write-formatted

  -- An image that can be formatted is formatted: it then mounts; the inode bitmap, the block
  -- bitmap, the inode table and the data region follow one another from block 1 on and with the
  -- free blocks make up the whole image; the root directory is inode 0, empty and in use; and one
  -- inode is off the free count.
  pub mkfs_formats :
      IsBytes s.inode_bits
      → (t : FsCtx) × (mkfs size n s ≡ ok true t)
        × (fs_ctx_init t ≡ true)
        × (t.sb.sb_inode_bitmap ≡ 1)
        × (t.sb.sb_block_bitmap ≡ t.sb.sb_inode_bitmap + ceil_div n bits_per_block)
        × (t.sb.sb_inode_table ≡ t.sb.sb_block_bitmap + dbm)
        × (t.sb.sb_first_data_block ≡ t.sb.sb_inode_table + ceil_div n sizeof_inode)
        × ((free : ℕ) × (t.sb.sb_free_blocks_count ≡ pos free)
            × (t.sb.sb_first_data_block + free ≡ size / a1fs_block_size))
        × ((now : Timespec) × (t.itable 0 ≡ root_inode (s.itable 0) now))
        × (check_bit_usage t.inode_bits 0 ≡ true)
        × (t.sb.sb_free_inodes_count ≡ pos n -ℤ pos 1)
  mkfs_formats bytes = (
    formatted s size n (layout size n dbm),
    mkfs-formatted,
    unfold fs_ctx_init in refl,
    refl,
    refl,
    refl,
    refl,
    ((layout size n dbm).blocks_remaining, refl, omega (arith, h.some_data)),
    (s.clock (s.ticks + 1), refl),
    check-flip_bit 0 0 bytes ∙ ground (arith, h.first_clear),
    refl,
  )

  -- The table that a format lays out for `n` inodes has room for fewer than `n` exactly when `n`
  -- exceeds 16: the blocks are counted as if each held 256 inodes, and it holds 16.
  pub mkfs_table_short :
      (t : FsCtx) × (mkfs size n s ≡ ok true t)
      × (t.sb.sb_inodes_count ≡ pos n)
      × ((inode_capacity t.sb < n) ↔ (16 < n))
  mkfs_table_short = (
    formatted s size n (layout size n dbm),
    mkfs-formatted,
    refl,
    (
      λ short. (table_short_iff n).0 (omega arith),
      λ many. let short = (table_short_iff n).1 many in omega arith,
    ),
  )

-- An image that holds an a1fs is never formatted unless it is zeroed first: the tool returns 1 and
-- leaves it as it is, with the option to force the format and without.
pub mkfs_main_present :
    (s : FsCtx) (size : ℕ) (opts : MkfsOpts)
    → s.sb.magic ≡ a1fs_magic
    → opts.zero ≡ false
    → mkfs_main size opts s ≡ ok 1 s
unfolding mkfs_main mkfs a1fs_is_present
mkfs_main_present s size opts present unzeroed = elim (Bool-cases opts.force) [
  | inl forced ↦ rw (forced, unzeroed, eq→== s.sb.magic a1fs_magic present) refl
  | inr plain ↦ rw (plain, eq→== s.sb.magic a1fs_magic present) refl
]
