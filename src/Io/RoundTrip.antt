-- ===== src/Io/RoundTrip.antt =====
-- a1fs_read of a1b/a1fs.c after a1fs_write, in the first extent of a file.
use extent_based_fs.Base.{
  ℕ, suc, ◌+◌, ◌*◌, ◌≤◌, ◌<◌, ◌≡◌, refl, ◌⊎◌, inl, inr, Bool-cases, ◌==◌, true, false, List, arith,
  lt→ltb, le→ltb,
}
use extent_based_fs.Base.Int.{ℤ, pos, ltb_ℤ, ◌-ℤ◌}
use extent_based_fs.Types.{FsCtx, ok, inode_capacity, a1fs_block_size}
use extent_based_fs.Image.{Bytes}
use extent_based_fs.Dir.{block_addr, strtok, get_inode_num}
use extent_based_fs.Dir.Resolve.{Resolves, get_inode_num-Resolves}
use extent_based_fs.Contents.{find_offset_extent, find_offset_from}
use extent_based_fs.Io.{
  copy, in_image, read_loop, write_loop, a1fs_read, a1fs_truncate, a1fs_write, ReadResult, to_int,
  extent_bytes,
}
use extent_based_fs.Io.Paths.{SameOutside, WalksOutside, Resolves-outside}

-- Where the byte at an offset of a file stands, in its first extent.
abbrev pub byte_addr : FsCtx → (ino offset : ℕ) → ℕ
byte_addr s ino offset =
    block_addr s.sb.sb_first_data_block ((s.itable ino).i_extent 0).start + offset

-- `size` bytes from `offset` on lie in the file `ino`, in its first extent and in the image, and
-- the offset is 0 or at most the size that is recorded for that extent.
pub record InFirstExtent (s : FsCtx) (ino size offset : ℕ) : Type 0 where
  pub in_table : ino < inode_capacity s.sb
  pub within : offset + size ≤ (s.itable ino).size
  pub small : (s.itable ino).size < 2147483648
  pub blocks : ℕ
  pub count : ((s.itable ino).i_extent 0).count ≡ pos blocks
  pub holds : offset + size ≤ blocks * a1fs_block_size
  pub first : (offset ≡ 0) ⊎ (ltb_ℤ ((s.itable ino).i_extent 0).size (pos offset) ≡ false)
  pub inside : byte_addr s ino offset + size ≤ s.size
  pub positive : 0 < size

-- The state once the bytes are written.
abbrev pub written : FsCtx → (ino offset size : ℕ) → Bytes → FsCtx
written s ino offset size buf = record s {
  image = copy s.image buf (byte_addr s ino offset) 0 size;
}

extent_holds :
    {c : ℤ} {blocks : ℕ} (size offset : ℕ)
    → c ≡ pos blocks
    → offset + size ≤ blocks * a1fs_block_size
    → ltb_ℤ (extent_bytes c -ℤ pos offset) (pos size) ≡ false
unfolding ◌-ℤ◌
extent_holds size offset e h = rw e (ground arith)

positive_size : (size : ℕ) → 0 < size → ltb_ℤ (pos 0) (pos size) ≡ true
positive_size size h = ground arith

pub to_int_small : (n : ℕ) → n < 2147483648 → to_int n ≡ pos n
to_int_small n h = ground arith

find_offset_first :
    (s : FsCtx) (ino offset : ℕ)
    → ino < inode_capacity s.sb
    → (offset ≡ 0) ⊎ (ltb_ℤ ((s.itable ino).i_extent 0).size (pos offset) ≡ false)
    → find_offset_extent ino (pos offset) s ≡ ok (pos 0) s
unfolding find_offset_extent
find_offset_first s ino offset in_table (inl e) = rw e refl
find_offset_first s ino offset in_table (inr e) = elim (Bool-cases (offset == 0)) [
  | inl z ↦ rw z refl
  | inr z ↦ rw (z, lt→ltb ino _ in_table) (unfold find_offset_from in rw e refl)
]

module _ {s : FsCtx} {ino size offset : ℕ} (h : InFirstExtent s ino size offset) where
  write_loop-written :
      (buf : Bytes) (left : ℕ)
      → write_loop (s.itable ino) buf size (suc left) 0 (pos size) offset (pos 0) s
        ≡ ok (pos size) (written s ino offset size buf)
  unfolding write_loop in_image
  write_loop-written buf left =
      rw
        (
          positive_size size h.positive,
          extent_holds size offset h.count h.holds,
          le→ltb s.size (byte_addr s ino offset + size) h.inside,
        )
        refl

  read_loop-copy :
      (img into : Bytes) (left : ℕ)
      → read_loop
          (s.itable ino)
          size
          (suc left)
          0
          (pos size)
          offset
          (pos 0)
          into
          (record s { image = img })
        ≡ ok
            (record { buf = copy into img 0 (byte_addr s ino offset) size; result = pos size })
            (record s { image = img })
  unfolding read_loop in_image
  read_loop-copy img into left =
      rw
        (
          positive_size size h.positive,
          extent_holds size offset h.count h.holds,
          le→ltb s.size (byte_addr s ino offset + size) h.inside,
        )
        refl

  pub write-written :
      (fuel : ℕ) (path : List ℕ) (buf : Bytes)
      → get_inode_num path 0 s ≡ ok (pos ino) s
      → a1fs_write fuel path buf size offset s ≡ ok (pos size) (written s ino offset size buf)
  unfolding a1fs_write
  write-written fuel path buf leads =
      rw
        (
          leads,
          lt→ltb ino _ h.in_table,
          le→ltb (s.itable ino).size (offset + size) h.within,
          find_offset_first s ino offset h.in_table h.first,
          lt→ltb ino _ h.in_table,
        )
        (write_loop-written buf 11)

  -- A write beyond the end of the file, once the file is long enough.
  pub write-grown :
      {s' : FsCtx} (fuel : ℕ) (path : List ℕ) (buf : Bytes)
      → get_inode_num path 0 s' ≡ ok (pos ino) s'
      → ino < inode_capacity s'.sb
      → (s'.itable ino).size < offset + size
      → a1fs_truncate fuel path (size + offset) s' ≡ ok (pos 0) s
      → a1fs_write fuel path buf size offset s' ≡ ok (pos size) (written s ino offset size buf)
  unfolding a1fs_write
  write-grown {s'} fuel path buf leads in_table short run =
      rw
        (
          leads,
          lt→ltb ino _ in_table,
          lt→ltb (s'.itable ino).size (offset + size) short,
          run,
          find_offset_first s ino offset h.in_table h.first,
          lt→ltb ino _ h.in_table,
        )
        (write_loop-written buf 11)

  before_end : ltb_ℤ (to_int (s.itable ino).size) (pos offset) ≡ false
  before_end = let within = h.within in rw (to_int_small (s.itable ino).size h.small) (ground arith)

  pub read-copy :
      (path : List ℕ) (img into : Bytes)
      → get_inode_num path 0 (record s { image = img }) ≡ ok (pos ino) (record s { image = img })
      → a1fs_read path into size offset (record s { image = img })
        ≡ ok
            (record { buf = copy into img 0 (byte_addr s ino offset) size; result = pos size })
            (record s { image = img })
  unfolding a1fs_read
  read-copy path img into leads =
      rw
        (
          leads,
          lt→ltb ino _ h.in_table,
          before_end,
          find_offset_first (record s { image = img }) ino offset h.in_table h.first,
        )
        (read_loop-copy img into 11)

-- For one or more bytes of a file of less than 2^31 bytes that lie within its size, in its first
-- extent and in the image, at an offset that is 0 or at most the size recorded for that extent, and
-- at a path whose directories do not overlap them: a write returns the number of bytes and changes no other byte of the image, and a read of
-- the same range afterwards returns that number and the bytes that were written, and changes
-- nothing.
pub a1fs_read-a1fs_write :
    {s : FsCtx} {ino size offset : ℕ} (h : InFirstExtent s ino size offset) (path : List ℕ)
    {par : ℤ} (r : Resolves s (pos 0) (pos 0) (strtok path) par (pos ino))
    → WalksOutside (byte_addr s ino offset) (byte_addr s ino offset + size) r
    → (fuel : ℕ) (buf into : Bytes)
    → (t : FsCtx) × (a1fs_write fuel path buf size offset s ≡ ok (pos size) t)
      × SameOutside (byte_addr s ino offset) (byte_addr s ino offset + size) s t.image
      × ((result : ReadResult) × (a1fs_read path into size offset t ≡ ok result t)
          × (result.result ≡ pos size)
          × ((x : ℕ) → x < size → result.buf x ≡ buf x))
a1fs_read-a1fs_write {s} {ino} {size} {offset} h path r w fuel buf into =
    let t = written s ino offset size buf in
    let outside : SameOutside (byte_addr s ino offset) (byte_addr s ino offset + size) s t.image =
      λ x out. ground arith in
    (
      t,
      write-written h fuel path buf (get_inode_num-Resolves s path r).0,
      outside,
      (
        record { buf = copy into t.image 0 (byte_addr s ino offset) size; result = pos size },
        read-copy h path t.image into
            (get_inode_num-Resolves t path (Resolves-outside s _ _ t.image outside r w)).0,
        refl,
        λ x lt. ground arith,
      ),
    )
