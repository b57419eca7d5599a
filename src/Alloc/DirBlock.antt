-- ===== src/Alloc/DirBlock.antt =====
-- make_dentry_block of a1b/a1fs_helper.c for a directory that has no block yet.
use extent_based_fs.Base.{
  ℕ, zero, suc, ◌+◌, ◌*◌, ◌%◌, ◌≤◌, ◌<◌, ◌≡◌, refl, ◌∙◌, ◌⊎◌, inl, inr, Bool, true, false, List, [],
  ◌∷◌, map, some, arith, ltb, eq→==, lt→ltb, le→ltb,
}
use extent_based_fs.Base.Int.{pos, minus_one, ◌-ℤ◌}
use extent_based_fs.Types.{FsCtx, ok, update, inode_capacity, a1fs_block_size}
use extent_based_fs.Image.{Bytes, set_dentry_ino}
use extent_based_fs.Image.Words.{set_dentry_ino_byte}
use extent_based_fs.Bitmap.{flip_bit, set_bits, set_block_bits, get_available_bit}
use extent_based_fs.Dir.{dentry_addrs, block_addr, block_entries, extent_entries, inode_entries}
use extent_based_fs.Alloc.{
  make_dentry_block, allocate_data_blks, new_extent, set_extent, set_dirb_extent, clear_inos,
  extent_set,
}

-- The offsets of `left` entries from `a` on.
unfoldable pub entry_offsets : (left a : ℕ) → List ℕ
entry_offsets zero a = []
entry_offsets (suc left) a = a ∷ entry_offsets left (a + 256)

-- The state once directory `d` has been given block `k`.
abbrev pub grown : FsCtx → (d k : ℕ) → FsCtx
grown s d k = record s {
  image = clear_inos 16 (block_addr s.sb.sb_first_data_block k) s.image;
  itable =
      update (update s.itable d (record (s.itable d) { last_used_extent = pos 0 })) d
        (record (s.itable d) {
          last_used_extent = pos 0;
          i_extent =
              update (s.itable d).i_extent 0 (extent_set ((s.itable d).i_extent 0) k (pos 1) true);
          i_mtime = s.clock s.ticks;
        });
  ticks = s.ticks + 1;
  sb = record s.sb { sb_free_blocks_count = s.sb.sb_free_blocks_count -ℤ pos 1 };
  block_bits = flip_bit s.block_bits k;
}

pub make_dentry_block-grown :
    (s : FsCtx) (d k : ℕ)
    → d < inode_capacity s.sb
    → (s.itable d).last_used_extent ≡ minus_one
    → block_addr s.sb.sb_first_data_block k + a1fs_block_size ≤ s.size
    → get_available_bit s.sb s.block_bits 1 (pos 1) ≡ pos k
    → make_dentry_block d s ≡ ok (pos 0) (grown s d k)
unfolding make_dentry_block allocate_data_blks new_extent set_extent set_dirb_extent set_bits
    set_block_bits
make_dentry_block-grown s d k in_table no_block inside first =
    rw
      (
        first,
        lt→ltb d _ in_table,
        no_block,
        lt→ltb d _ in_table,
        lt→ltb d _ in_table,
        lt→ltb d _ in_table,
        eq→== d d refl,
        le→ltb s.size (block_addr s.sb.sb_first_data_block k + a1fs_block_size) inside,
        lt→ltb d _ in_table,
      )
      refl

-- What is cleared: nothing outside of the entries, and no byte of a name.
pub clear_inos_outside :
    (left a : ℕ) (img : Bytes) (x : ℕ)
    → (x < a) ⊎ (a + 256 * left ≤ x)
    → clear_inos left a img x ≡ img x
unfolding clear_inos
clear_inos_outside zero a img x h = refl
clear_inos_outside (suc left) a img x h =
    clear_inos_outside left (a + 256) (set_dentry_ino img a minus_one) x (omega arith)
    ∙ set_dentry_ino_byte img a minus_one x (omega arith)

pub clear_inos_name :
    (left a : ℕ) (img : Bytes) (x : ℕ) → a % 256 ≡ 0 → 4 ≤ x % 256 → clear_inos left a img x ≡ img x
unfolding clear_inos
clear_inos_name zero a img x aligned h = refl
clear_inos_name (suc left) a img x aligned h =
    clear_inos_name left (a + 256) (set_dentry_ino img a minus_one) x (omega arith) h
    ∙ set_dentry_ino_byte img a minus_one x (apart (ltb x a) refl)
  where
    apart : (b : Bool) → ltb x a ≡ b → (x < a) ⊎ (a + 4 ≤ x)
    apart true e = inl (ground arith)
    apart false e = inr (past (ground arith))
      where
        past : a ≤ x → a + 4 ≤ x
        past le = omega arith

pub block_entries-inside :
    (size left a : ℕ)
    → a + 256 * left ≤ size
    → block_entries size left a ≡ map some (entry_offsets left a)
unfolding block_entries entry_offsets
block_entries-inside size zero a h = refl
block_entries-inside size (suc left) a h =
    rw (le→ltb size (a + 256) (omega arith), block_entries-inside size left (a + 256) (omega arith))
      refl

pub grown-entries :
    (s : FsCtx) (d k : ℕ)
    → block_addr s.sb.sb_first_data_block k + a1fs_block_size ≤ s.size
    → dentry_addrs (grown s d k) ((grown s d k).itable d)
      ≡ map some (entry_offsets 16 (block_addr s.sb.sb_first_data_block k))
unfolding dentry_addrs inode_entries extent_entries
grown-entries s d k inside =
    rw
      (
        eq→== d d refl,
        block_entries-inside s.size 16 (block_addr s.sb.sb_first_data_block k) (omega arith),
      )
      refl
