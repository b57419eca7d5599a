-- ===== src/Dir.antt =====
-- Directories: the loops over directory entries that a1b/a1fs_helper.c and a1b/a1fs.c share,
-- inode_lookup, and the path walk of get_inode_num.
pub mod Lookup
pub mod Entries
pub mod Resolve
use extent_based_fs.Base.{
  ℕ, zero, suc, ◌+◌, ◌-◌, ◌*◌, Bool, true, false, List, [], ◌∷◌, ◌++◌, Option, none, some, ltb,
  ◌==◌, if◌then◌else◌,
}
use extent_based_fs.Base.Int.{ℤ, pos, negsuc, minus_one, pos_part, eq_ℤ}
use extent_based_fs.Types.{
  FsCtx, Extent, Inode, Cmd, Run, pure, stop, get, load_inode, index, ◌>>=◌, ◌>>◌, a1fs_block_size,
  sizeof_dentry, inode_extents,
}
use extent_based_fs.Image.{str_eq, dentry_ino, name_addr}

-- The offset in the image of data block `j`.
abbrev pub block_addr : (first_data_block j : ℕ) → ℕ
block_addr first_data_block j = a1fs_block_size * j + a1fs_block_size * first_data_block

-- An entry at an offset, or `none` where it does not lie in the image of `size` bytes.
abbrev pub visit : (size a : ℕ) → Option ℕ
visit size a = if ltb size (a + sizeof_dentry) then none else some a

-- `for (k = 0; k < A1FS_BLOCK_SIZE; k += sizeof(a1fs_dentry))`: `left` entries from offset `a` on.
unfoldable pub block_entries : (size left a : ℕ) → List (Option ℕ)
block_entries size zero a = []
block_entries size (suc left) a = visit size a ∷ block_entries size left (a + sizeof_dentry)

abbrev pub entries_per_block : ℕ
entries_per_block = 16

-- `for (j = start; j < start + length; j++)`
unfoldable pub extent_entries : (size first_data_block left j : ℕ) → List (Option ℕ)
unfolding block_entries
extent_entries size first_data_block zero j = []
extent_entries size first_data_block (suc left) j =
    block_entries size entries_per_block (block_addr first_data_block j)
    ++ extent_entries size first_data_block left (j + 1)

-- `for (i = 0; i <= last_used_extent; i++)`; an extent beyond the array is a visit of `none`.
unfoldable pub inode_entries :
    (size first_data_block : ℕ) → (i_extent : ℕ → Extent) → (left i : ℕ) → List (Option ℕ)
unfolding extent_entries
inode_entries size first_data_block i_extent zero i = []
inode_entries size first_data_block i_extent (suc left) i =
    (if ltb i inode_extents
      then extent_entries size first_data_block (pos_part (i_extent i).count) (i_extent i).start
      else none ∷ [])
    ++ inode_entries size first_data_block i_extent left (i + 1)

-- The rounds of `i <= (int)last_used_extent` from 0 on.
abbrev pub extents_used : ℤ → ℕ
extents_used (pos n) = suc n
extents_used (negsuc n) = 0

-- The entries of a directory, in the order in which every loop visits them.
unfoldable pub dentry_addrs : FsCtx → Inode → List (Option ℕ)
unfolding inode_entries
dentry_addrs s inode =
    inode_entries s.size s.sb.sb_first_data_block inode.i_extent
      (extents_used inode.last_used_extent) 0

-- The loops return at the first entry that passes their test, and stray if they leave the image.
pub data Found : Type 0 where
  found : ℕ → Found
  missing stray : Found

unfoldable pub find_slot : (ℕ → Bool) → List (Option ℕ) → Found
find_slot test [] = missing
find_slot test (none ∷ r) = stray
find_slot test (some a ∷ r) = let rest = find_slot test r in if test a then found a else rest

abbrev pub settle : Found → Cmd (Option ℕ)
settle (found a) = pure (some a)
settle missing = pure none
settle stray = stop

unfoldable pub inode_lookup : (par_inode : ℤ) → (token : List ℕ) → Cmd ℤ
inode_lookup par_inode token = if eq_ℤ par_inode minus_one then pure minus_one else do
  i ← index par_inode
  inode ← load_inode i
  s ← get
  slot ← settle (find_slot (λ a. str_eq s.image (name_addr a) token) (dentry_addrs s inode))
  pure (elim slot [ some a ↦ dentry_ino s.image a | none ↦ minus_one ])

abbrev pub slash : ℕ
slash = b'/'

abbrev emit : List ℕ → List (List ℕ) → List (List ℕ)
emit [] r = r
emit (c ∷ cs) r = (c ∷ cs) ∷ r

-- The tokens that strtok(path, "/") yields one by one; `current` is the one being read.
unfoldable pub strtok_from : (current path : List ℕ) → List (List ℕ)
strtok_from current [] = emit current []
strtok_from current (c ∷ cs) = elim (c == slash) [
  | true ↦ emit current (strtok_from [] cs)
  | false ↦ strtok_from (current ++ c ∷ []) cs
]

unfoldable pub strtok : List ℕ → List (List ℕ)
unfolding strtok_from
strtok path = strtok_from [] path

-- `strrchr(path, '/') + 1`; `none` where there is no slash.
unfoldable pub last_name : List ℕ → Option (List ℕ)
last_name [] = none
last_name (c ∷ cs) = elim (last_name cs) [
  | some name ↦ some name
  | none ↦ if c == slash then some cs else none
]

pub record Walk : Type 0 where
  pub curr_inode : ℤ
  pub par_inode : ℤ

unfoldable pub walk : List (List ℕ) → (curr_inode par_inode : ℤ) → Cmd Walk
walk [] curr_inode par_inode = pure (record { curr_inode = curr_inode; par_inode = par_inode })
walk (token ∷ tokens) curr_inode par_inode =
    let par = if eq_ℤ curr_inode minus_one then par_inode else curr_inode in
    do next ← inode_lookup par token; walk tokens next par

unfoldable pub get_inode_num : (path : List ℕ) → (tog : ℕ) → Cmd ℤ
get_inode_num path tog = do
  w ← walk (strtok path) (pos 0) (pos 0)
  pure (if tog == 1 then w.par_inode else w.curr_inode)
