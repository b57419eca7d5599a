-- ===== src/Entry.antt =====
-- add_dentry of a1b/a1fs_helper.c, and the clearing of an entry that a1fs_rmdir and a1fs_unlink of
-- a1b/a1fs.c share.
pub mod Fill
pub mod Add
pub mod Visible
pub mod Elsewhere
pub mod Clear
use extent_based_fs.Base.{
  ℕ, ◌+◌, ◌-◌, ◌%◌, ◌^◌, List, Option, none, some, ltb, length, if◌then◌else◌,
}
use extent_based_fs.Base.Int.{is_neg, ℤ, pos, minus_one, eq_ℤ, ◌+ℤ◌, ◌-ℤ◌}
use extent_based_fs.Types.{
  FsCtx, Inode, Cmd, pure, stop, get, load_inode, store_inode, index, clock_gettime, ◌>>=◌, ◌>>◌,
  put, put_sb,
}
use extent_based_fs.Image.{store8, store_str, set_dentry_ino, dentry_ino, name_addr}
use extent_based_fs.Dir.{dentry_addrs, find_slot, settle}
use extent_based_fs.Alloc.{make_dentry_block}

-- The first entry of a directory with inode number `ino`.
unfoldable pub find_entry : (directory_inode_num : ℕ) → (ino : ℤ) → Cmd (Option ℕ)
find_entry directory_inode_num ino = do
  inode ← load_inode directory_inode_num
  s ← get
  settle (find_slot (λ a. eq_ℤ (dentry_ino s.image a) ino) (dentry_addrs s inode))

-- An entry at offset `a` is filled in; a name that runs past the image is a fault.
unfoldable pub fill_entry :
    (directory_inode_num dentry_inode_num : ℕ) → (name : List ℕ) → (a : ℕ) → Cmd ℤ
fill_entry directory_inode_num dentry_inode_num name a = do
  s ← get
  if ltb s.size (name_addr a + length name + 1) then stop else do
    put (record s {
      image = set_dentry_ino (store_str s.image (name_addr a) name) a (pos dentry_inode_num);
    })
    inode ← load_inode directory_inode_num
    curr_time ← clock_gettime
    store_inode directory_inode_num (record inode {
      links = 2;
      size = (inode.size + 1) % 2 ^ 64;
      i_mtime = curr_time;
      num_entries = (inode.num_entries + 1) % 2 ^ 32;
    })
    t ← get
    put_sb (record t.sb { sb_used_dirs_count = t.sb.sb_used_dirs_count +ℤ pos 1 })
    pure (pos 0)

-- A directory block is added if the directory has none, and again if every entry is taken.
unfoldable pub add_dentry : (directory_inode_num dentry_inode_num : ℕ) → (name : List ℕ) → Cmd ℤ
add_dentry directory_inode_num dentry_inode_num name = do
  inode ← load_inode directory_inode_num
  made ←
      if eq_ℤ inode.last_used_extent minus_one
      then make_dentry_block directory_inode_num
      else pure (pos 0)
  if is_neg made then pure minus_one else do
    free ← find_entry directory_inode_num minus_one
    grown ← elim free [ some a ↦ pure (pos 0) | none ↦ make_dentry_block directory_inode_num ]
    if is_neg grown then pure minus_one else do
      slot ← find_entry directory_inode_num minus_one
      elim slot [
        | some a ↦ fill_entry directory_inode_num dentry_inode_num name a
        | none ↦ pure minus_one
      ]

-- The entry at offset `a` is emptied and its directory's counters go down. `drop_dir` is the one
-- line that only a1fs_rmdir has, `sb_used_dirs_count -= 1`.
unfoldable pub clear_entry : (parent_inode_num a : ℕ) → (drop_dir : ℤ) → Cmd (Unit {0})
clear_entry parent_inode_num a drop_dir = do
  s ← get
  put (record s { image = store8 (set_dentry_ino s.image a minus_one) (name_addr a) 0 })
  curr_time ← clock_gettime
  inode ← load_inode parent_inode_num
  store_inode parent_inode_num (record inode {
    i_mtime = curr_time;
    num_entries = (inode.num_entries + 2 ^ 32 - 1) % 2 ^ 32;
    links = (inode.links + 2 ^ 32 - 1) % 2 ^ 32;
  })
  t ← get
  put_sb (record t.sb {
    sb_used_dirs_count = t.sb.sb_used_dirs_count -ℤ drop_dir;
    sb_free_blocks_count = t.sb.sb_free_blocks_count +ℤ pos 1;
  })
