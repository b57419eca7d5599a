-- ===== src/Alloc.antt =====
-- Extents and blocks: attachable, set_db_extent, set_dirb_extent, allocate_data_blks,
-- make_dentry_block, make_data_blocks and create_inode.
pub mod Neighbours
pub mod Extents
pub mod Rounds
pub mod DirBlock
pub mod Emptied
use extent_based_fs.Base.{
  ℕ, zero, suc, ◌+◌, ◌-◌, ◌*◌, Bool, true, false, not, ◌&&◌, ◌||◌, List, [], ◌∷◌, ◌++◌, Option,
  none, some, ltb, ◌==◌, if◌then◌else◌,
}
use extent_based_fs.Base.Int.{is_neg, ℤ, pos, negsuc, minus_one, pos_part, eq_ℤ, ltb_ℤ, ◌+ℤ◌, ◌-ℤ◌}
use extent_based_fs.Types.{
  FsCtx, Extent, Inode, Bitmap, Cmd, Run, starve, pure, stop, get, put, load_inode, store_inode,
  index, clock_gettime, update, ◌>>=◌, ◌>>◌, a1fs_block_size, sizeof_dentry, inode_extents,
}
use extent_based_fs.Bitmap.{check_bit_usage, get_available_bit, set_bits}
use extent_based_fs.Image.{Bytes, set_dentry_ino}
use extent_based_fs.Dir.{block_addr, entries_per_block}

-- An index of `i_extent`: beyond the array is a fault.
abbrev pub extent_index : ℤ → Cmd ℕ
extent_index z = do i ← index z; if ltb i inode_extents then pure i else stop

-- Whether one of the blocks `i`, `i + 1`, ..., `left` of them, is in use: the loops of
-- `attachable`.
unfoldable pub any_used : Bitmap → (left i : ℕ) → Bool
any_used bitmap zero i = false
any_used bitmap (suc left) i =
    let rest = any_used bitmap left (i + 1) in if check_bit_usage bitmap i then true else rest

-- The result of `attachable` and what it stores through its two pointers.
pub record Attach : Type 0 where
  pub large_enough : ℕ
  pub index_of_last_used_extent : ℤ
  pub index_db_after_last_used_extent : ℕ

-- The case `last_used_indirect != -1` starts by reading `i_extent[12]`, which lies beyond the
-- array: a fault. No code sets the field to another value than -1.
unfoldable pub attachable : (inode_index : ℕ) → (extent_count : ℤ) → Cmd Attach
unfolding any_used
attachable inode_index extent_count = do
  inode ← load_inode inode_index
  s ← get
  if not (eq_ℤ inode.last_used_indirect minus_one) then stop else do
    i ← extent_index inode.last_used_extent
    let last = inode.i_extent i
    let after = last.start + pos_part last.count
    pure (record {
      large_enough = if any_used s.block_bits (pos_part extent_count) after then 1 else 0;
      index_of_last_used_extent = inode.last_used_extent;
      index_db_after_last_used_extent = after;
    })

-- What both setters store in the extent.
abbrev pub extent_set : Extent → (extent_start : ℕ) → (extent_count : ℤ) → Bool → Extent
extent_set e extent_start extent_count new =
    if new
    then record { start = extent_start; count = extent_count; size = pos 0 }
    else record e { count = e.count +ℤ extent_count }

unfoldable pub set_db_extent :
    (inode_index extent_index extent_start : ℕ) → (extent_count : ℤ) → (new : Bool) → Cmd ℤ
set_db_extent inode_index extent_index extent_start extent_count new = do
  inode ← load_inode inode_index
  curr_time ← clock_gettime
  store_inode inode_index (record inode {
    i_extent =
        update inode.i_extent extent_index
          (extent_set (inode.i_extent extent_index) extent_start extent_count new);
    i_mtime = curr_time;
  })
  pure (pos extent_start)

-- `dentry->ino = -1` in `left` entries from offset `a` on.
unfoldable pub clear_inos : (left a : ℕ) → Bytes → Bytes
clear_inos zero a img = img
clear_inos (suc left) a img = clear_inos left (a + sizeof_dentry) (set_dentry_ino img a minus_one)

unfoldable pub set_dirb_extent :
    (inode_index extent_index extent_start : ℕ) → (extent_count : ℤ) → (new : Bool) → Cmd ℤ
unfolding clear_inos
set_dirb_extent inode_index extent_index extent_start extent_count new = do
  inode ← load_inode inode_index
  let e = extent_set (inode.i_extent extent_index) extent_start extent_count new
  s ← get
  if ltb s.size (block_addr s.sb.sb_first_data_block e.start + a1fs_block_size) then stop else do
    put (record s {
      image = clear_inos entries_per_block (block_addr s.sb.sb_first_data_block e.start) s.image;
    })
    curr_time ← clock_gettime
    store_inode inode_index
        (record inode { i_extent = update inode.i_extent extent_index e; i_mtime = curr_time })
    pure (pos extent_start)

-- The setter that `db_type` selects.
unfoldable pub set_extent :
    (db_type : ℕ)
    → (inode_index extent_index extent_start : ℕ) → (extent_count : ℤ) → (new : Bool) → Cmd ℤ
set_extent db_type = if db_type == 0 then set_db_extent else set_dirb_extent

-- A new extent: `last_used_extent` is set first.
unfoldable pub new_extent :
    (db_type inode_index : ℕ) → (extent_index : ℤ) → (data_index : ℕ) → (extent_size : ℤ) → Cmd ℤ
new_extent db_type inode_index extent_no data_index extent_size = do
  inode ← load_inode inode_index
  store_inode inode_index (record inode { last_used_extent = extent_no })
  i ← extent_index extent_no
  set_extent db_type inode_index i data_index extent_size true

unfoldable pub allocate_data_blks :
    (inode_index data_index : ℕ) → (extent_size : ℤ) → (db_type : ℕ) → Cmd ℤ
allocate_data_blks inode_index data_index extent_size db_type =
    if not (db_type == 0) && not (db_type == 1) then pure minus_one else do
      inode ← load_inode inode_index
      if eq_ℤ inode.last_used_extent minus_one
          then new_extent db_type inode_index (pos 0) data_index extent_size
          else do
            at ← attachable inode_index extent_size
            if not (at.large_enough == 0)
                then (do
                  i ← extent_index at.index_of_last_used_extent
                  set_extent db_type inode_index i at.index_db_after_last_used_extent extent_size
                      false)
                else new_extent db_type inode_index (at.index_of_last_used_extent +ℤ pos 1)
                    data_index extent_size

-- A call of `set_bits` on the block bitmap, with its `int` result.
abbrev pub set_block_range : ℕ → ℤ → ℕ → Cmd ℤ
set_block_range i extent_size flip_type s =
    let r = set_bits s.sb s.block_bits i 1 extent_size flip_type in
    pure r.result (record s { sb = r.sb; block_bits = r.bitmap })

abbrev pub set_inode_bit : ℕ → ℕ → Cmd ℤ
set_inode_bit i flip_type s =
    let r = set_bits s.sb s.inode_bits i 0 minus_one flip_type in
    pure r.result (record s { sb = r.sb; inode_bits = r.bitmap })

unfoldable pub make_dentry_block : (directory_inode_num : ℕ) → Cmd ℤ
make_dentry_block directory_inode_num = do
  s ← get
  let available = get_available_bit s.sb s.block_bits 1 (pos 1)
  if is_neg available then pure minus_one else do
    first ← index available
    block ← allocate_data_blks directory_inode_num first (pos 1) 1
    if is_neg block then pure minus_one else do
      b ← index block
      r ← set_block_range b (pos 1) 1
      pure (if is_neg r then minus_one else pos 0)

-- The do-while loop of `make_data_blocks`, with `rounds` for fuel. Its condition reads the outer
-- `blocks_created`, which stays 0.
unfoldable pub retry : (rounds : ℕ) → Cmd ℤ → (num_blocks total_created : ℤ) → Cmd ℤ
retry zero create num_blocks total_created = starve
retry (suc rounds) create num_blocks total_created = do
  blocks_created ← create
  let total = total_created +ℤ blocks_created
  let again = retry rounds create num_blocks total
  if eq_ℤ blocks_created minus_one
      then pure minus_one
      else if ltb_ℤ (pos 0) num_blocks
      then again
      else pure total

-- `fuel` bounds the depth of the recursion and the rounds of each loop.
unfoldable pub make_data_blocks : (fuel inode_index : ℕ) → (num_blocks : ℤ) → Cmd ℤ
make_data_blocks zero inode_index num_blocks = starve
make_data_blocks (suc fuel) inode_index num_blocks = do
  s ← get
  let available = get_available_bit s.sb s.block_bits 1 num_blocks
  let smaller = make_data_blocks fuel inode_index (num_blocks -ℤ pos 1)
  if is_neg available then retry (suc fuel) smaller num_blocks (pos 0) else do
    first ← index available
    block ← allocate_data_blks inode_index first num_blocks 0
    if is_neg block then pure minus_one else do
      b ← index block
      r ← set_block_range b num_blocks 1
      pure (if is_neg r then minus_one else num_blocks)

-- create_inode of a1b/util.h. The extents keep what they held.
unfoldable pub create_inode : (index mode : ℕ) → Cmd (Unit {0})
create_inode i mode = do
  inode ← load_inode i
  curr_time ← clock_gettime
  store_inode i (record inode {
    mode = mode;
    links = 0;
    size = 0;
    i_mtime = curr_time;
    last_used_extent = minus_one;
    last_used_indirect = minus_one;
    num_entries = 0;
  })
