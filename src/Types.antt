-- ===== src/Types.antt =====
-- The types of a1b/a1fs.h and a1b/fs_ctx.h: superblock, extents, inodes and the mounted context,
-- and the outcome of code that reads and writes it.
use extent_based_fs.Base.{ℕ, ◌+◌, ◌-◌, ◌*◌, ltb, if◌then◌else◌, ◌==◌, ◌≡◌, refl}
use extent_based_fs.Base.Int.{ℤ, pos, negsuc}

abbrev pub a1fs_block_size : ℕ
a1fs_block_size = 4096

abbrev pub a1fs_magic : ℕ
a1fs_magic = 0xC5C369A1C5C369A1

abbrev pub a1fs_name_max : ℕ
a1fs_name_max = 252

-- PATH_MAX of limits.h.
abbrev pub a1fs_path_max : ℕ
a1fs_path_max = 4096

abbrev pub sizeof_inode : ℕ
sizeof_inode = 256

abbrev pub sizeof_dentry : ℕ
sizeof_dentry = 256

-- The length of `i_extent`.
abbrev pub inode_extents : ℕ
inode_extents = 12

pub record Timespec : Type 0 where
  pub tv_sec : ℕ
  pub tv_nsec : ℕ

pub record Superblock : Type 0 where
  pub magic : ℕ
  pub size : ℕ
  pub sb_first_data_block : ℕ
  pub sb_first_empty_db : ℕ
  pub sb_total_data_blocks : ℕ
  pub sb_block_bitmap : ℕ
  pub sb_inode_bitmap : ℕ
  pub sb_inode_table : ℕ
  pub sb_free_blocks_count : ℤ
  pub sb_free_inodes_count : ℤ
  pub sb_inodes_count : ℤ
  pub sb_used_dirs_count : ℤ

pub record Extent : Type 0 where
  pub start : ℕ
  pub count : ℤ
  pub size : ℤ

pub record Inode : Type 0 where
  pub mode : ℕ
  pub links : ℕ
  pub size : ℕ
  pub i_mtime : Timespec
  pub i_extent : ℕ → Extent
  pub last_used_extent : ℤ
  pub last_used_indirect : ℤ
  pub num_entries : ℕ

-- The bytes of a bitmap, by index.
abbrev pub Bitmap : Type 0
Bitmap = ℕ → ℕ

-- `image` holds the bytes of the data region at their offsets from the start of the image; the
-- superblock, the bitmaps and the inode table are objects of their own. `clock` holds the
-- readings of CLOCK_REALTIME, of which `ticks` have been taken, and `errno` is the value that the
-- last failed library call left.
pub record FsCtx : Type 0 where
  pub image : ℕ → ℕ
  pub size : ℕ
  pub sb : Superblock
  pub inode_bits : Bitmap
  pub block_bits : Bitmap
  pub itable : ℕ → Inode
  pub clock : ℕ → Timespec
  pub ticks : ℕ
  pub errno : ℕ

-- `fault` is an access outside of the object that it is meant for, `out_of_fuel` a loop that has
-- used up its rounds.
pub data Run (A : Type 0) : Type 0 where
  ok : A → FsCtx → Run A
  fault : Run A
  out_of_fuel : Run A

abbrev pub Cmd : Type 0 → Type 0
Cmd A = FsCtx → Run A

abbrev pub pure : {A : Type 0} → A → Cmd A
pure = ok

abbrev pub stop : {A : Type 0} → Cmd A
stop s = fault

abbrev pub starve : {A : Type 0} → Cmd A
starve s = out_of_fuel

-- Runs that succeed alike have one result.
pub ok_value : {A : Type 0} {x y : A} {s t : FsCtx} → ok x s ≡ ok y t → x ≡ y
ok_value e = cc

module _ {A B : Type 0} where
  abbrev pub and_then : Run A → (A → Cmd B) → Run B
  and_then (ok a s) k = k a s
  and_then fault k = fault
  and_then out_of_fuel k = out_of_fuel

  -- Inversion of a run that has succeeded.
  pub and_then-eq-ok :
      {b : B} {t : FsCtx} (r : Run A) (k : A → Cmd B)
      → and_then r k ≡ ok b t
      → (a : A) × (s : FsCtx) × (r ≡ ok a s) × (k a s ≡ ok b t)
  and_then-eq-ok (ok a s) k h = (a, s, refl, h)
  and_then-eq-ok fault k h = cc
  and_then-eq-ok out_of_fuel k h = cc

  infixl 5 ◌>>=◌ ◌>>◌
  abbrev pub ◌>>=◌ : Cmd A → (A → Cmd B) → Cmd B
  m >>= k = λ s. and_then (m s) k

  abbrev pub ◌>>◌ : Cmd A → Cmd B → Cmd B
  m >> n = m >>= λ _. n

abbrev pub get : Cmd FsCtx
get s = ok s s

abbrev pub put : FsCtx → Cmd (Unit {0})
put s _ = ok tt s

abbrev pub put_sb : Superblock → Cmd (Unit {0})
put_sb sb s = ok tt (record s { sb = sb })

-- clock_gettime(CLOCK_REALTIME, &t).
abbrev pub clock_gettime : Cmd Timespec
clock_gettime s = ok (s.clock s.ticks) (record s { ticks = s.ticks + 1 })

abbrev pub update : {A : Type 0} → (ℕ → A) → ℕ → A → ℕ → A
update f i v j = if j == i then v else f j

-- The inode table ends where the data region begins: `itable[i]` beyond that is a fault.
abbrev pub inode_capacity : Superblock → ℕ
inode_capacity sb = (sb.sb_first_data_block - sb.sb_inode_table) * 16

abbrev pub load_inode : ℕ → Cmd Inode
load_inode i s = if ltb i (inode_capacity s.sb) then ok (s.itable i) s else fault

abbrev pub store_inode : ℕ → Inode → Cmd (Unit {0})
store_inode i v s =
    if ltb i (inode_capacity s.sb) then ok tt (record s { itable = update s.itable i v }) else fault

-- An `int` that indexes an array.
abbrev pub index : ℤ → Cmd ℕ
index (pos n) = pure n
index (negsuc n) = stop
