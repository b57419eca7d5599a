-- ===== src/Ops.antt =====
-- The FUSE callbacks of a1b/a1fs.c that create, remove and describe files and directories.
pub mod Changed
pub mod Make
pub mod Describe
pub mod Full
pub mod Remove
pub mod Unlink
pub mod FreeExtents
use Prim.Native.Nat.{bit_and, bit_or}
use extent_based_fs.Base.{
  ℕ, zero, suc, ◌+◌, ◌-◌, ◌*◌, ◌/◌, Bool, true, false, not, ◌&&◌, ◌||◌, List, [], ◌∷◌, ◌++◌, Option,
  none, some, ltb, leb, ◌==◌, length, if◌then◌else◌,
}
use extent_based_fs.Base.Int.{is_neg, ℤ, pos, minus_one, eq_ℤ, neg}
use extent_based_fs.Types.{
  FsCtx, Inode, Timespec, Cmd, pure, stop, get, load_inode, store_inode, index, clock_gettime,
  ◌>>=◌, ◌>>◌, a1fs_block_size, a1fs_path_max, a1fs_name_max, sizeof_inode,
}
use extent_based_fs.Bitmap.{check_bit_usage, get_available_bit}
use extent_based_fs.Image.{c_string, name_addr, Bytes}
use extent_based_fs.Dir.{dentry_addrs, get_inode_num, last_name, extents_used, slash}
use extent_based_fs.Alloc.{create_inode, set_inode_bit, set_block_range, extent_index}
use extent_based_fs.Entry.{add_dentry, find_entry, clear_entry}

abbrev pub enoent : ℕ
enoent = 2

abbrev pub enotdir : ℕ
enotdir = 20

abbrev pub enospc : ℕ
enospc = 28

abbrev pub enametoolong : ℕ
enametoolong = 36

abbrev pub enotempty : ℕ
enotempty = 39

-- `return -errno`
abbrev pub return_errno : Cmd ℤ
return_errno s = pure (neg s.errno) s

abbrev pub s_ifdir : ℕ
s_ifdir = 0x4000

abbrev pub is_reg : ℕ → Bool
is_reg mode = bit_and mode 0xF000 == 0x8000

-- `strrchr(path, '/') + 1`, which is read as a string: a fault without a slash.
abbrev pub new_name : List ℕ → Cmd (List ℕ)
new_name path = elim (last_name path) [ some name ↦ pure name | none ↦ stop ]

-- From the free inode on, a1fs_mkdir and a1fs_create do the same but for the error that they
-- return when the parent has no inode.
unfoldable pub new_node : (path : List ℕ) → (mode ino : ℕ) → (no_parent : Cmd ℤ) → Cmd ℤ
new_node path mode ino no_parent = do
  flipped ← set_inode_bit ino 1
  if is_neg flipped then return_errno else do
    create_inode ino mode
    par ← get_inode_num path 1
    if is_neg par then no_parent else do
      p ← index par
      name ← new_name path
      added ← add_dentry p ino name
      if is_neg added then return_errno else pure (pos 0)

unfoldable pub a1fs_mkdir : (path : List ℕ) → (mode : ℕ) → Cmd ℤ
a1fs_mkdir path mode = do
  s ← get
  let available = get_available_bit s.sb s.inode_bits 0 minus_one
  if eq_ℤ available minus_one
      then pure (neg enospc)
      else do ino ← index available; new_node path (bit_or mode s_ifdir) ino (pure (neg enoent))

unfoldable pub a1fs_create : (path : List ℕ) → (mode : ℕ) → Cmd ℤ
a1fs_create path mode = if not (is_reg mode) then stop else do
  s ← get
  let available = get_available_bit s.sb s.inode_bits 0 minus_one
  if eq_ℤ available minus_one
      then pure (neg enospc)
      else do ino ← index available; new_node path mode ino return_errno

-- What a1fs_rmdir and a1fs_unlink do once nothing stands in the way: the inode is reset, its bit
-- flipped, and its entry in the parent emptied.
unfoldable pub remove_node : (path : List ℕ) → (ino : ℕ) → (drop_dir : ℤ) → Cmd ℤ
remove_node path ino drop_dir = do
  curr_time ← clock_gettime
  inode ← load_inode ino
  store_inode ino (record inode {
    i_mtime = curr_time;
    links = 0;
    size = 0;
    last_used_extent = minus_one;
    last_used_indirect = minus_one;
    num_entries = 0;
  })
  s ← get
  if not (check_bit_usage s.inode_bits ino) then return_errno else do
    flipped ← set_inode_bit ino 0
    if is_neg flipped then return_errno else do
      parent ← get_inode_num path 1
      if is_neg parent then return_errno else do
        p ← index parent
        slot ← find_entry p (pos ino)
        elim slot [ some a ↦ do clear_entry p a drop_dir; pure (pos 0) | none ↦ return_errno ]

unfoldable pub a1fs_rmdir : (path : List ℕ) → Cmd ℤ
a1fs_rmdir path = do
  found ← get_inode_num path 0
  ino ← index found
  inode ← load_inode ino
  if ltb 0 inode.num_entries then pure (neg enotempty) else remove_node path ino (pos 1)

-- The loop over the extents `i`, `i + 1`, ... of a file: false where a bit is already clear.
unfoldable pub free_extents : Inode → (left i : ℕ) → Cmd Bool
free_extents inode zero i = pure true
free_extents inode (suc left) i = do
  k ← extent_index (pos i)
  s ← get
  let e = inode.i_extent k
  let rest = free_extents inode left (i + 1)
  if not (check_bit_usage s.block_bits e.start) then pure false else do
    flipped ← set_block_range e.start e.count 0
    if is_neg flipped then pure false else rest

unfoldable pub a1fs_unlink : (path : List ℕ) → Cmd ℤ
a1fs_unlink path = do
  found ← get_inode_num path 0
  ino ← index found
  inode ← load_inode ino
  freed ←
      if not (inode.size == 0) || not (eq_ℤ inode.last_used_extent minus_one)
      then free_extents inode (extents_used inode.last_used_extent) 0
      else pure true
  if not freed then return_errno else remove_node path ino (pos 0)

unfoldable pub a1fs_utimens : (path : List ℕ) → (mtime : Timespec) → Cmd ℤ
a1fs_utimens path mtime = do
  found ← get_inode_num path 0
  if is_neg found then return_errno else do
    ino ← index found
    inode ← load_inode ino
    store_inode ino (record inode { i_mtime = mtime })
    pure (pos 0)

pub record Statvfs : Type 0 where
  pub f_bsize : ℕ
  pub f_frsize : ℕ
  pub f_blocks : ℕ
  pub f_bfree : ℤ
  pub f_bavail : ℤ
  pub f_files : ℤ
  pub f_ffree : ℤ
  pub f_favail : ℤ
  pub f_namemax : ℕ

unfoldable pub a1fs_statfs : Cmd Statvfs
a1fs_statfs s =
    pure
      (record {
        f_bsize = a1fs_block_size;
        f_frsize = a1fs_block_size;
        f_blocks = s.sb.size / a1fs_block_size;
        f_bfree = s.sb.sb_free_blocks_count;
        f_bavail = s.sb.sb_free_blocks_count;
        f_files = s.sb.sb_inodes_count;
        f_ffree = s.sb.sb_free_inodes_count;
        f_favail = s.sb.sb_free_inodes_count;
        f_namemax = a1fs_name_max;
      })
      s

pub record Stat : Type 0 where
  pub st_mode : ℕ
  pub st_nlink : ℕ
  pub st_size : ℕ
  pub st_blocks : ℕ
  pub st_mtim : Timespec

-- `-errno`, or the attributes.
pub data Attr : Type 0 where
  errno : ℕ → Attr
  attr : Stat → Attr

abbrev pub is_absolute : List ℕ → Bool
is_absolute [] = false
is_absolute (c ∷ cs) = c == slash

unfoldable pub a1fs_getattr : (path : List ℕ) → Cmd Attr
a1fs_getattr path =
    if leb a1fs_path_max (length path)
    then pure (errno enametoolong)
    else if not (is_absolute path)
    then pure (errno enotdir)
    else do
      found ← get_inode_num path 0
      if is_neg found then pure (errno enoent) else do
        ino ← index found
        inode ← load_inode ino
        pure (
            attr (record {
              st_mode = inode.mode;
              st_nlink = inode.links;
              st_size = inode.size;
              st_blocks = inode.size / 512 + sizeof_inode;
              st_mtim = inode.i_mtime;
            }))

-- The names that `filler` is called with for the entries of a directory; a name is read up to its
-- first NUL, at the latest at the end of the image.
unfoldable pub fill_names : FsCtx → List (Option ℕ) → Cmd (List (List ℕ))
unfolding c_string
fill_names s [] = pure []
fill_names s (none ∷ r) = stop
fill_names s (some a ∷ r) = do
  rest ← fill_names s r
  let name = c_string (s.size - name_addr a) s.image (name_addr a)
  pure (if s.image (name_addr a) == 0 then rest else name ∷ rest)

pub record Listing : Type 0 where
  pub names : List (List ℕ)
  pub result : ℤ

abbrev pub dot : List ℕ
dot = b'.' ∷ []

abbrev pub dot_dot : List ℕ
dot_dot = b'.' ∷ b'.' ∷ []

unfoldable pub a1fs_readdir : (path : List ℕ) → Cmd Listing
a1fs_readdir path =
    if not (is_absolute path) then pure (record { names = []; result = neg enotdir }) else do
      found ← get_inode_num path 0
      s ← get
      if is_neg found then pure (record { names = []; result = neg s.errno }) else do
        ino ← index found
        inode ← load_inode ino
        names ← fill_names s (dentry_addrs s inode)
        pure (record { names = names ++ dot ∷ dot_dot ∷ []; result = pos 0 })
