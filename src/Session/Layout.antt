-- ===== src/Session/Layout.antt =====
-- What the allocation of a1b/a1fs_helper.c leaves alone: the layout of the image.
use extent_based_fs.Base.{
  ℕ, zero, suc, ◌+◌, ◌-◌, ◌*◌, ◌/◌, ◌^◌, ◌≤◌, ◌<◌, ◌≡◌, refl, ap, not, ◌&&◌, Bool, true, false,
  List, ltb, ◌==◌, Bool-cases, inl, inr,
}
use extent_based_fs.Base.Int.{ℤ, pos, minus_one, is_neg, eq_ℤ, ltb_ℤ, pos_part, ◌+ℤ◌, ◌-ℤ◌}
use extent_based_fs.Types.{
  FsCtx, Superblock, Inode, Bitmap, Cmd, load_inode, store_inode, a1fs_block_size, inode_capacity,
}
use extent_based_fs.Bitmap.{set_bits, set_block_bits, flip_bit, count_flip, get_available_bit}
use extent_based_fs.Dir.{block_addr, get_inode_num}
use extent_based_fs.Alloc.{
  attachable, extent_set, set_db_extent, set_dirb_extent, set_extent, new_extent,
  allocate_data_blks, make_dentry_block, retry, make_data_blocks, create_inode,
}
use extent_based_fs.Session.Frame.{
  Frames, whole, returns, faults, starves, then-Frames, then_reads, if-Frames,
}
use extent_based_fs.Session.Reads.{
  index_reads, load_inode_reads, extent_index_reads, get_inode_num_reads,
}

-- The superblock but for its counters.
abbrev pub fixed : Superblock → Superblock
fixed sb = record sb {
  sb_free_blocks_count = pos 0;
  sb_free_inodes_count = pos 0;
  sb_used_dirs_count = pos 0;
}

-- What the image's size and superblock say about its layout.
pub record Layout : Type 0 where
  pub sb : Superblock
  pub size : ℕ

abbrev pub layout : FsCtx → Layout
layout s = record { sb = fixed s.sb; size = s.size }

-- The regions of an image do not overlap: superblock, inode bitmap, block bitmap, inode table and data
-- region follow one another, and the bitmaps have room for all inodes and blocks. The image is below
-- 2^31 bytes, so that a product of a block number and the block size that does not fit an `int` is
-- no offset in it.
pub record HasRegions (l : Layout) : Type 0 where
  pub inode_bitmap : 0 < l.sb.sb_inode_bitmap
  pub block_bitmap : l.sb.sb_inode_bitmap < l.sb.sb_block_bitmap
  pub inode_table : l.sb.sb_block_bitmap < l.sb.sb_inode_table
  pub data_region : l.sb.sb_inode_table < l.sb.sb_first_data_block
  pub in_image : a1fs_block_size * l.sb.sb_first_data_block ≤ l.size
  pub small : l.size < 2 ^ 31
  pub inode_bits :
      pos_part l.sb.sb_inodes_count ≤ (l.sb.sb_block_bitmap - l.sb.sb_inode_bitmap) * 32768
  pub block_bits : l.size / a1fs_block_size ≤ (l.sb.sb_inode_table - l.sb.sb_block_bitmap) * 32768

pub store_inode_keeps : (i : ℕ) (v : Inode) → Frames layout (store_inode i v)
store_inode_keeps i v s a t e = elim (Bool-cases (ltb i (inode_capacity s.sb))) [
  | inl below ↦ returns layout s refl a t (rw below at e)
  | inr above ↦ faults layout s a t (rw above at e)
]

-- After a change, where what is known is the layout.
pub load_inode_keeps : (i : ℕ) → Frames layout (load_inode i)
load_inode_keeps i s a t e = ap layout (load_inode_reads i s a t e)

pub get_inode_num_keeps : (path : List ℕ) (tog : ℕ) → Frames layout (get_inode_num path tog)
get_inode_num_keeps path tog s a t e = ap layout (get_inode_num_reads path tog s a t e)

fixed-set_block_bits :
    (left i flip : ℕ) (sb : Superblock) (b : Bitmap)
    → fixed (set_block_bits left i flip sb b).sb ≡ fixed sb
unfolding set_block_bits
fixed-set_block_bits zero i flip sb b = refl
fixed-set_block_bits (suc left) i flip sb b =
    fixed-set_block_bits left (i + 1) flip
      (record sb { sb_free_blocks_count = count_flip flip sb.sb_free_blocks_count }) (flip_bit b i)

-- `set_block_range` returns at once: this is what it leaves alone.
pub layout-set_block_range :
    (i : ℕ) (n : ℤ) (flip : ℕ) (s : FsCtx)
    → Path Layout
        (record { sb = fixed (set_bits s.sb s.block_bits i 1 n flip).sb; size = s.size })
        (layout s)
unfolding set_bits
layout-set_block_range i n flip s =
    ap (λ sb. record { sb = sb; size = s.size })
      (fixed-set_block_bits (pos_part n) i flip s.sb s.block_bits)

set_db_extent_keeps :
    (i k start : ℕ) (n : ℤ) (new : Bool) → Frames layout (set_db_extent i k start n new)
unfolding set_db_extent
set_db_extent_keeps i k start n new s =
    then_reads layout s _ (load_inode_reads i s)
      λ inode. then-Frames layout s (store_inode_keeps i _ _) λ u t. returns layout t refl

set_dirb_extent_keeps :
    (i k start : ℕ) (n : ℤ) (new : Bool) → Frames layout (set_dirb_extent i k start n new)
unfolding set_dirb_extent
set_dirb_extent_keeps i k start n new s = then_reads layout s _ (load_inode_reads i s) λ inode.
    if-Frames layout s
      (ltb s.size (
        block_addr s.sb.sb_first_data_block (extent_set (inode.i_extent k) start n new).start
        + a1fs_block_size))
      _ _ (faults layout s)
      (then-Frames layout s (store_inode_keeps i _ _) λ u t. returns layout t refl)

set_extent_keeps :
    (db_type i k start : ℕ) (n : ℤ) (new : Bool)
    → Frames layout (set_extent db_type i k start n new)
unfolding set_extent
set_extent_keeps db_type i k start n new = elim (Bool-cases (db_type == 0)) [
  | inl for_data ↦ rw for_data (set_db_extent_keeps i k start n new)
  | inr for_dir ↦ rw for_dir (set_dirb_extent_keeps i k start n new)
]

new_extent_keeps :
    (db_type i : ℕ) (k : ℤ) (start : ℕ) (n : ℤ) → Frames layout (new_extent db_type i k start n)
unfolding new_extent
new_extent_keeps db_type i k start n s = then_reads layout s _ (load_inode_reads i s) λ inode.
    then-Frames layout s (store_inode_keeps i _ s) λ u t.
      then_reads layout t _ (extent_index_reads k t)
        λ j. set_extent_keeps db_type i j start n true t

attachable_reads : (i : ℕ) (n : ℤ) → Frames whole (attachable i n)
unfolding attachable
attachable_reads i n s = then-Frames whole s (load_inode_reads i s) λ inode u.
    if-Frames whole u (not (eq_ℤ inode.last_used_indirect minus_one)) _ _ (faults whole u) (
      then-Frames whole u (extent_index_reads inode.last_used_extent u) λ k t. returns whole t refl)

pub allocate_data_blks_keeps :
    (i first : ℕ) (n : ℤ) (db_type : ℕ) → Frames layout (allocate_data_blks i first n db_type)
unfolding allocate_data_blks
allocate_data_blks_keeps i first n db_type s =
    if-Frames layout s (not (db_type == 0) && not (db_type == 1)) _ _ (returns layout s refl) (
      then_reads layout s _ (load_inode_reads i s) λ inode.
        if-Frames layout s (eq_ℤ inode.last_used_extent minus_one) _ _
          (new_extent_keeps db_type i (pos 0) first n s)
          (then_reads layout s _ (attachable_reads i n s) λ at.
            if-Frames layout s (not (at.large_enough == 0)) _ _
              (then_reads layout s _ (extent_index_reads at.index_of_last_used_extent s)
                λ k. set_extent_keeps db_type i k _ n false s)
              (new_extent_keeps db_type i _ first n s)))

pub make_dentry_block_keeps : (d : ℕ) → Frames layout (make_dentry_block d)
unfolding make_dentry_block
make_dentry_block_keeps d s =
    let available = get_available_bit s.sb s.block_bits 1 (pos 1) in
    if-Frames layout s (is_neg available) _ _ (returns layout s refl) (
      then_reads layout s _ (index_reads available s) λ first.
        then-Frames layout s (allocate_data_blks_keeps d first (pos 1) 1 s) λ block t.
          if-Frames layout t (is_neg block) _ _ (returns layout t refl) (
            then_reads layout t _ (index_reads block t)
              λ b. returns layout t (layout-set_block_range b (pos 1) 1 t)))

retry_keeps :
    (rounds : ℕ) (create : Cmd ℤ) (n total : ℤ)
    → Frames layout create
    → Frames layout (retry rounds create n total)
unfolding retry
retry_keeps zero create n total h s = starves layout s
retry_keeps (suc rounds) create n total h s = then-Frames layout s (h s) λ made t.
    if-Frames layout t (eq_ℤ made minus_one) _ _ (returns layout t refl) (
      if-Frames layout t (ltb_ℤ (pos 0) n) _ _ (retry_keeps rounds create n (total +ℤ made) h t)
        (returns layout t refl))

pub make_data_blocks_keeps : (fuel i : ℕ) (n : ℤ) → Frames layout (make_data_blocks fuel i n)
unfolding make_data_blocks
make_data_blocks_keeps zero i n s = starves layout s
make_data_blocks_keeps (suc fuel) i n s =
    let available = get_available_bit s.sb s.block_bits 1 n in
    if-Frames layout s (is_neg available) _ _
      (retry_keeps (suc fuel) _ n (pos 0) (make_data_blocks_keeps fuel i (n -ℤ pos 1)) s)
      (then_reads layout s _ (index_reads available s) λ first.
        then-Frames layout s (allocate_data_blks_keeps i first n 0 s) λ block t.
          if-Frames layout t (is_neg block) _ _ (returns layout t refl) (
            then_reads layout t _ (index_reads block t)
              λ b. returns layout t (layout-set_block_range b n 1 t)))

pub create_inode_keeps : (i mode : ℕ) → Frames layout (create_inode i mode)
unfolding create_inode
create_inode_keeps i mode s =
    then_reads layout s _ (load_inode_reads i s) λ inode. store_inode_keeps i _ _
