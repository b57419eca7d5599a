-- ===== src/Catalog.antt =====
-- A directory as a finite map from names to inode numbers: what the loops of a1b/a1fs_helper.c and
-- a1b/a1fs.c over directory entries are for.
pub mod Rows
pub mod Shows
pub mod Reads
pub mod Steps
pub mod Rooms
pub mod Script
pub mod Names
use extent_based_fs.Base.{
  ℕ, zero, suc, ◌+◌, ◌-◌, ◌<◌, ◌≡◌, ◌≢◌, Bool, true, false, ◌&&◌, List, [], ◌∷◌, Option, none, some,
  ◌==◌, if◌then◌else◌,
}
use extent_based_fs.Base.Int.{ℤ, pos, minus_one, is_neg}
use extent_based_fs.Types.{Cmd, pure, ◌>>=◌, ◌>>◌}
use extent_based_fs.Dir.{inode_lookup}
use extent_based_fs.Entry.{add_dentry, find_entry, clear_entry}

-- What an entry holds.
pub data Row : Type 0 where
  unused : Row
  used : (name : List ℕ) → (ino : ℕ) → Row

unfoldable pub same_name : List ℕ → List ℕ → Bool
same_name [] [] = true
same_name (c ∷ cs) (d ∷ ds) = (c == d) && same_name cs ds
same_name _ _ = false

abbrev pub row_has : List ℕ → Row → Bool
row_has name unused = false
row_has name (used other ino) = same_name other name

abbrev pub row_ino : Row → Option ℕ
row_ino unused = none
row_ino (used name ino) = some ino

-- The inode number of the first row with a name.
unfoldable pub find_row : List ℕ → List Row → Option ℕ
find_row name [] = none
find_row name (r ∷ rows) = if row_has name r then row_ino r else find_row name rows

-- The first unused row is used.
unfoldable pub bind_row : (name : List ℕ) → (ino : ℕ) → List Row → List Row
bind_row name ino [] = []
bind_row name ino (unused ∷ rows) = used name ino ∷ rows
bind_row name ino (used other i ∷ rows) = used other i ∷ bind_row name ino rows

-- The first row with an inode number is emptied.
unfoldable pub drop_row : (ino : ℕ) → List Row → List Row
drop_row ino [] = []
drop_row ino (unused ∷ rows) = unused ∷ drop_row ino rows
drop_row ino (used name i ∷ rows) =
    if i == ino then unused ∷ rows else used name i ∷ drop_row ino rows

unfoldable pub rooms : List Row → ℕ
rooms [] = 0
rooms (unused ∷ rows) = suc (rooms rows)
rooms (used name i ∷ rows) = rooms rows

-- The abstract directory, and its changes.
abbrev pub Names : Type 0
Names = List ℕ → Option ℕ

pub data Change : Type 0 where
  bind : (name : List ℕ) → (ino : ℕ) → Change
  unbind : (name : List ℕ) → (drop_dir : ℤ) → Change

abbrev pub assign : Names → List ℕ → Option ℕ → Names
assign m name v other = if same_name name other then v else m other

unfoldable pub apply : Names → Change → Names
apply m (bind name ino) = assign m name (some ino)
apply m (unbind name drop_dir) = assign m name none

abbrev pub room_after : ℕ → Change → ℕ
room_after room (bind name ino) = room - 1
room_after room (unbind name drop_dir) = room + 1

-- What the callbacks call on a parent directory `d`: add_dentry to make a file, and to remove one
-- the lookup of its name, the search for its entry and the emptying of that.
unfoldable pub perform : (d : ℕ) → Change → Cmd ℤ
perform d (bind name ino) = add_dentry d ino name
perform d (unbind name drop_dir) = do
  ino ← inode_lookup (pos d) name
  slot ← find_entry d ino
  elim slot [ some a ↦ do clear_entry d a drop_dir; pure (pos 0) | none ↦ pure minus_one ]

-- A script of changes; the first failure ends it.
unfoldable pub perform_all : (d : ℕ) → List Change → Cmd ℤ
perform_all d [] = pure (pos 0)
perform_all d (c ∷ cs) = do r ← perform d c; if is_neg r then pure r else perform_all d cs

unfoldable pub apply_all : Names → List Change → Names
apply_all m [] = m
apply_all m (c ∷ cs) = apply_all (apply m c) cs

unfoldable pub room_after_all : ℕ → List Change → ℕ
room_after_all room [] = room
room_after_all room (c ∷ cs) = room_after_all (room_after room c) cs
