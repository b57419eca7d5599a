-- ===== src/Io.antt =====
-- The FUSE callbacks of a1b/a1fs.c on the contents of files: a1fs_truncate, a1fs_read, a1fs_write.
pub mod Paths
pub mod RoundTrip
pub mod Grow
pub mod Zeroed
pub mod ZeroedExtent
pub mod Shrink
use extent_based_fs.Base.{
  ℕ, zero, suc, List, ◌+◌, ◌-◌, ◌*◌, ◌/◌, ◌%◌, ◌^◌, Bool, true, false, not, ◌&&◌, ltb, ◌==◌,
  if◌then◌else◌,
}
use extent_based_fs.Base.Int.{
  is_neg, ℤ, pos, negsuc, minus_one, pos_part, neg, eq_ℤ, ltb_ℤ, ◌+ℤ◌, ◌-ℤ◌,
}
use extent_based_fs.Types.{
  FsCtx, Extent, Inode, Cmd, pure, stop, get, put, load_inode, store_inode, index, ◌>>=◌, ◌>>◌,
  a1fs_block_size, inode_extents,
}
use extent_based_fs.Image.{Bytes, signed32}
use extent_based_fs.Dir.{block_addr, extents_used, get_inode_num}
use extent_based_fs.Alloc.{extent_index, set_block_range}
use extent_based_fs.Contents.{
  block_quotient, block_rest, memset, truncate_helper, find_offset_extent,
}
use extent_based_fs.Ops.{return_errno, enospc}

-- The `int` that a 64-bit number is cut down to, and the 64-bit number that an integer is stored
-- as.
abbrev pub to_int : ℕ → ℤ
to_int n = signed32 (n % 2 ^ 32)

abbrev pub word64 : ℤ → ℕ
word64 (pos n) = n % 2 ^ 64
word64 (negsuc n) = 2 ^ 64 - 1 - n % 2 ^ 64

-- `size - fs->itable[cur_inode].size` as an `int`.
abbrev pub size_minus : (size inode_size : ℕ) → ℤ
size_minus size inode_size = to_int ((size + 2 ^ 64 - inode_size % 2 ^ 64) % 2 ^ 64)

-- `fs->itable[cur_inode].size += n`
unfoldable pub add_size : (cur_inode : ℕ) → ℤ → Cmd (Unit {0})
add_size cur_inode n = do
  inode ← load_inode cur_inode
  store_inode cur_inode (record inode { size = word64 (pos inode.size +ℤ n) })

-- A file without extents.
unfoldable pub truncate_empty : (fuel cur_inode size : ℕ) → Cmd ℤ
truncate_empty fuel cur_inode size = do
  r ← truncate_helper fuel cur_inode (pos size)
  if is_neg r then return_errno else do
    inode ← load_inode cur_inode
    store_inode cur_inode (record inode { size = size })
    pure (pos 0)

-- A file that grows. Where the new size is `bytes_til_full` neither case applies.
unfoldable pub truncate_extend : (fuel cur_inode : ℕ) → (cur_size : ℤ) → (size : ℕ) → Cmd ℤ
unfolding add_size
truncate_extend fuel cur_inode cur_size size =
    let leftover_bytes = block_rest cur_size in
    let bytes_til_full = pos a1fs_block_size -ℤ leftover_bytes in
    if ltb_ℤ (pos size) bytes_til_full
    then (do
      r ← truncate_helper fuel cur_inode (pos size)
      if is_neg r then return_errno else do add_size cur_inode (pos size -ℤ cur_size); pure (pos 0))
    else if ltb_ℤ bytes_til_full (pos size)
    then (do
      inode ← load_inode cur_inode
      k ← extent_index inode.last_used_extent
      let e = inode.i_extent k
      s ← get
      last_db ← index ((pos e.start +ℤ e.count) -ℤ pos 1)
      db_addr ← index (pos (block_addr s.sb.sb_first_data_block last_db) +ℤ leftover_bytes)
      memset db_addr bytes_til_full
      let remaining_bytes = size_minus size inode.size -ℤ bytes_til_full
      r ←
          if eq_ℤ remaining_bytes (pos 0)
          then pure (pos 0)
          else truncate_helper fuel cur_inode remaining_bytes
      if is_neg r then return_errno else do
        grown ← load_inode cur_inode
        add_size cur_inode (size_minus size grown.size)
        pure (pos 0))
    else pure minus_one

-- The blocks `start + left - 1` down to `start` of an extent are given back until `num` is 0; the
-- result is what is left of `num`.
unfoldable pub unlink_blocks : (start left : ℕ) → (num : ℤ) → Cmd ℤ
unlink_blocks start zero num = pure num
unlink_blocks start (suc left) num =
    let rest = unlink_blocks start left (num -ℤ pos 1) in
    if eq_ℤ num (pos 0) then pure num else do set_block_range (start + left) (pos 1) 0; rest

-- The extents `left - 1` down to 0.
unfoldable pub unlink_extents : Inode → (left : ℕ) → (num : ℤ) → Cmd (Unit {0})
unfolding unlink_blocks
unlink_extents inode zero num = pure tt
unlink_extents inode (suc i) num = if eq_ℤ num (pos 0) then pure tt else do
  k ← extent_index (pos i)
  let e = inode.i_extent k
  rest ← unlink_blocks e.start (pos_part e.count) num
  unlink_extents inode i rest

-- The blocks that hold `n` bytes, for an `int` that is not negative.
abbrev pub blocks_of : ℤ → ℤ
blocks_of n = if eq_ℤ (block_rest n) (pos 0) then block_quotient n else block_quotient n +ℤ pos 1

-- A file that shrinks. The extents keep their counts.
unfoldable pub truncate_shrink : (cur_inode : ℕ) → (cur_size : ℤ) → (size : ℕ) → Cmd ℤ
unfolding unlink_extents
truncate_shrink cur_inode cur_size size = do
  before ← load_inode cur_inode
  unlink_extents before (extents_used before.last_used_extent)
      (blocks_of cur_size -ℤ blocks_of (pos size))
  inode ← load_inode cur_inode
  store_inode cur_inode (record inode {
    size = size;
    last_used_extent = if size == 0 then minus_one else inode.last_used_extent;
    last_used_indirect = if size == 0 then minus_one else inode.last_used_indirect;
  })
  pure (pos 0)

-- `fuel` is that of make_data_blocks.
unfoldable pub a1fs_truncate : (fuel : ℕ) → (path : List ℕ) → (size : ℕ) → Cmd ℤ
a1fs_truncate fuel path size = do
  found ← get_inode_num path 0
  cur_inode ← index found
  inode ← load_inode cur_inode
  let cur_size = to_int inode.size
  if eq_ℤ cur_size (pos size)
      then pure (pos 0)
      else if eq_ℤ inode.last_used_extent minus_one
      then truncate_empty fuel cur_inode size
      else if ltb_ℤ cur_size (pos size)
      then truncate_extend fuel cur_inode cur_size size
      else truncate_shrink cur_inode cur_size size

-- `memcpy(dst + to, src + from, n)` between arrays of bytes; the image's bounds are checked apart.
abbrev pub copy : (dst src : Bytes) → (to from n : ℕ) → Bytes
copy dst src to from n x =
    if ltb x to then dst x else if ltb x (to + n) then src (from + (x - to)) else dst x

-- `n` bytes of the image from `a` on; a length below 0 is a huge one.
unfoldable pub in_image : (a : ℕ) → ℤ → Cmd ℕ
in_image a (negsuc n) = stop
in_image a (pos n) = do s ← get; if ltb s.size (a + n) then stop else pure n

-- `count * A1FS_BLOCK_SIZE`
abbrev pub extent_bytes : ℤ → ℤ
extent_bytes (pos n) = pos (n * a1fs_block_size)
extent_bytes (negsuc n) = neg (suc n * a1fs_block_size)

-- The buffer that a1fs_read fills, with its result.
pub record ReadResult : Type 0 where
  pub buf : Bytes
  pub result : ℤ

-- The loop of a1fs_read from extent `k` on, `left` of which are in the array. `read` is set, and
-- not summed up, in each round; a whole `size` is copied where an extent is too small.
unfoldable pub read_loop :
    Inode
    → (size left k : ℕ) → (remainingsize : ℤ) → (remainingoffset : ℕ) → (read : ℤ) → Bytes
    → Cmd ReadResult
read_loop inode size zero k remaining offset read buf =
    if ltb_ℤ (pos 0) remaining then stop else pure (record { buf = buf; result = pos size })
read_loop inode size (suc left) k remaining offset read buf =
    if not (ltb_ℤ (pos 0) remaining) then pure (record { buf = buf; result = pos size }) else do
      s ← get
      let e = inode.i_extent k
      let src = block_addr s.sb.sb_first_data_block e.start + offset
      let available = extent_bytes e.count -ℤ pos offset
      let rest =
          read_loop inode size left (k + 1) (remaining -ℤ available) 0 available
            (copy buf s.image 0 src size)
      if ltb_ℤ available remaining then (do in_image src (pos size); rest) else (do
        n ← in_image src remaining
        to ← index read
        pure (record { buf = copy buf s.image to src n; result = pos size }))

unfoldable pub a1fs_read : (path : List ℕ) → Bytes → (size offset : ℕ) → Cmd ReadResult
unfolding in_image
a1fs_read path buf size offset = do
  found ← get_inode_num path 0
  s ← get
  if is_neg found then pure (record { buf = buf; result = neg s.errno }) else do
    inode_num ← index found
    inode ← load_inode inode_num
    if ltb_ℤ (to_int inode.size) (pos offset)
        then pure (record { buf = buf; result = pos 0 })
        else do
          cur_extent ← find_offset_extent inode_num (pos offset)
          if is_neg cur_extent then pure (record { buf = buf; result = neg s.errno }) else do
            k ← index cur_extent
            read_loop inode size (inode_extents - k) k (pos size) offset (pos 0) buf

-- The loop of a1fs_write, likewise. Where an extent is too small, the offset is added twice.
unfoldable pub write_loop :
    Inode
    → Bytes
    → (size left k : ℕ) → (remainingsize : ℤ) → (remainingoffset : ℕ) → (written : ℤ) → Cmd ℤ
write_loop inode buf size zero k remaining offset written =
    if ltb_ℤ (pos 0) remaining then stop else pure (pos size)
write_loop inode buf size (suc left) k remaining offset written =
    let e = inode.i_extent k in
    let available = extent_bytes e.count -ℤ pos offset in
    let rest = write_loop inode buf size left (k + 1) (remaining -ℤ available) 0 available in
    if not (ltb_ℤ (pos 0) remaining) then pure (pos size) else do
      s ← get
      let dst = block_addr s.sb.sb_first_data_block e.start + offset
      if ltb_ℤ available remaining
          then (do
            n ← in_image (dst + offset) available
            put (record s { image = copy s.image buf (dst + offset) 0 n })
            rest)
          else (do
            n ← in_image dst remaining
            from ← index written
            put (record s { image = copy s.image buf dst from n })
            pure (pos size))

unfoldable pub a1fs_write : (fuel : ℕ) → (path : List ℕ) → Bytes → (size offset : ℕ) → Cmd ℤ
a1fs_write fuel path buf size offset = do
  found ← get_inode_num path 0
  if is_neg found then return_errno else do
    inode_num ← index found
    before ← load_inode inode_num
    grown ←
        if ltb before.size (offset + size)
        then a1fs_truncate fuel path (size + offset)
        else pure (pos 0)
    if not (eq_ℤ grown (pos 0)) then pure (neg enospc) else do
      cur_extent ← find_offset_extent inode_num (pos offset)
      if is_neg cur_extent then return_errno else do
        k ← index cur_extent
        inode ← load_inode inode_num
        write_loop inode buf size (inode_extents - k) k (pos size) offset (pos 0)
