-- ===== src/Contents.antt =====
-- The contents of files: find_offset_extent, zero_out_blocks and truncate_helper of
-- a1b/a1fs_helper.c.
pub mod Search
use extent_based_fs.Base.{ℕ, zero, suc, ◌+◌, ◌-◌, ◌/◌, ◌%◌, not, ◌&&◌, ltb, ◌==◌, if◌then◌else◌}
use extent_based_fs.Base.Int.{
  is_neg, ℤ, pos, negsuc, minus_one, pos_part, neg, eq_ℤ, ltb_ℤ, ◌+ℤ◌, ◌-ℤ◌,
}
use extent_based_fs.Types.{
  Inode, Cmd, pure, stop, get, put, load_inode, store_inode, index, clock_gettime, update, ◌>>=◌,
  ◌>>◌, a1fs_block_size, inode_extents,
}
use extent_based_fs.Image.{Bytes}
use extent_based_fs.Dir.{block_addr, extents_used}
use extent_based_fs.Alloc.{extent_index, make_data_blocks}

-- `z / A1FS_BLOCK_SIZE` of an `int`, which rounds towards 0, and the remainder that it leaves.
abbrev pub block_quotient : ℤ → ℤ
block_quotient (pos n) = pos (n / a1fs_block_size)
block_quotient (negsuc n) = neg (suc n / a1fs_block_size)

abbrev pub block_rest : ℤ → ℤ
block_rest (pos n) = pos (n % a1fs_block_size)
block_rest (negsuc n) = neg (suc n % a1fs_block_size)

-- `memset(image + a, '\0', n)`; a length below 0 is a huge one.
abbrev pub zero_range : Bytes → (a n : ℕ) → Bytes
zero_range img a n x = if ltb x a then img x else if ltb x (a + n) then 0 else img x

unfoldable pub memset : (a : ℕ) → ℤ → Cmd (Unit {0})
memset a (negsuc n) = stop
memset a (pos n) = do
  s ← get
  if ltb s.size (a + n) then stop else put (record s { image = zero_range s.image a n })

-- `i_extent[k].size += n`
unfoldable pub add_extent_size : (inode_index k : ℕ) → ℤ → Cmd (Unit {0})
add_extent_size inode_index k n = do
  inode ← load_inode inode_index
  let e = inode.i_extent k
  store_inode inode_index
      (record inode { i_extent = update inode.i_extent k (record e { size = e.size +ℤ n }) })

-- `left` is the rest of `length`; the result is what `*blocks_left_to_zero` holds at the end.
unfoldable pub zero_out_blocks :
    (cur_inode extent_index : ℕ) → (left j : ℕ) → (blocks_left_to_zero leftover_bytes : ℤ) → Cmd ℤ
unfolding memset add_extent_size
zero_out_blocks cur_inode k zero j blocks_left leftover = pure blocks_left
zero_out_blocks cur_inode k (suc left) j blocks_left leftover = do
  s ← get
  let db_addr = block_addr s.sb.sb_first_data_block j
  let rest = zero_out_blocks cur_inode k left (j + 1) (blocks_left -ℤ pos 1) leftover
  if eq_ℤ blocks_left (pos 1) && not (eq_ℤ leftover (pos 0))
      then (do
        memset db_addr leftover
        add_extent_size cur_inode k leftover
        pure (blocks_left -ℤ pos 1))
      else (do
        memset db_addr (pos a1fs_block_size)
        add_extent_size cur_inode k (neg a1fs_block_size)
        rest)

-- Where truncate_helper starts to zero: an extent and a block in it.
pub record ZeroStart : Type 0 where
  pub extent : ℕ
  pub block : ℤ

-- The search over the extents `left - 1`, ..., 0. If none is large enough, the two variables stay
-- without a value and are read: a fault.
unfoldable pub zero_start : Inode → (left : ℕ) → (blocks_needed : ℤ) → Cmd ZeroStart
zero_start inode zero blocks_needed = stop
zero_start inode (suc i) blocks_needed = do
  k ← extent_index (pos i)
  let e = inode.i_extent k
  let rest = zero_start inode i (blocks_needed -ℤ e.count)
  if ltb_ℤ e.count blocks_needed
      then rest
      else pure (record { extent = i; block = (pos e.start +ℤ e.count) -ℤ blocks_needed })

-- The loop over the extents from `i` on, with `left` rounds to go.
unfoldable pub zero_extents :
    (cur_inode : ℕ)
    → ZeroStart
    → (left i : ℕ) → (blocks_left_to_zero leftover_bytes : ℤ) → Cmd (Unit {0})
zero_extents cur_inode from zero i blocks_left leftover = pure tt
zero_extents cur_inode from (suc left) i blocks_left leftover =
    if eq_ℤ blocks_left (pos 0) then pure tt else do
      inode ← load_inode cur_inode
      k ← extent_index (pos i)
      let e = inode.i_extent k
      j ← index (if i == from.extent then from.block else pos e.start)
      after ← zero_out_blocks cur_inode k (pos_part e.count) j blocks_left leftover
      add_extent_size cur_inode k leftover
      zero_extents cur_inode from left (i + 1) after leftover

-- `i_mtime` of an inode is set to the current time.
unfoldable pub touch_inode : (inode_index : ℕ) → Cmd (Unit {0})
touch_inode inode_index = do
  curr_time ← clock_gettime
  inode ← load_inode inode_index
  store_inode inode_index (record inode { i_mtime = curr_time })

-- `fuel` is that of make_data_blocks.
unfoldable pub truncate_helper : (fuel cur_inode : ℕ) → (size : ℤ) → Cmd ℤ
truncate_helper fuel cur_inode size = do
  let leftover_bytes = block_rest size
  let num_blocks =
      if eq_ℤ leftover_bytes (pos 0) then block_quotient size else block_quotient size +ℤ pos 1
  made ← make_data_blocks fuel cur_inode num_blocks
  if not (eq_ℤ num_blocks made) then pure minus_one else do
    touch_inode cur_inode
    inode ← load_inode cur_inode
    from ← zero_start inode (extents_used inode.last_used_extent) num_blocks
    zero_extents cur_inode from (extents_used inode.last_used_extent - from.extent) from.extent
        num_blocks leftover_bytes
    touch_inode cur_inode
    pure (pos 0)

-- The search of the extent that holds a byte, from extent `k` on; `left` is the number of extents
-- from `k` on. An extent that is too small moves the pointer to the offset and not the offset:
-- what it points to then is a fault, unless the extent's size is 0.
unfoldable pub find_offset_from : Inode → (left k : ℕ) → (remainingoffset : ℤ) → Cmd ℕ
find_offset_from inode zero k remainingoffset = stop
find_offset_from inode (suc left) k remainingoffset =
    let rest = find_offset_from inode left (k + 1) remainingoffset in
    let e = inode.i_extent k in
    if ltb_ℤ e.size remainingoffset then if eq_ℤ e.size (pos 0) then rest else stop else pure k

-- The extent that is found, starting from extent 0. The C function returns 0 where this does, and
-- -1 only for an offset below 0.
unfoldable pub find_offset_extent : (inode_num : ℕ) → (remainingoffset : ℤ) → Cmd (ℤ)
find_offset_extent inode_num remainingoffset =
    if eq_ℤ remainingoffset (pos 0)
    then pure (pos 0)
    else if is_neg remainingoffset
    then pure minus_one
    else do
      inode ← load_inode inode_num
      k ← find_offset_from inode inode_extents 0 remainingoffset
      pure (pos k)
