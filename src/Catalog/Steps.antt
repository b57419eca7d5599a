-- ===== src/Catalog/Steps.antt =====
-- Adding and emptying an entry (a1b/a1fs_helper.c, a1b/a1fs.c) as changes of a finite map.
use extent_based_fs.Base.{
  ℕ, suc, ◌+◌, ◌-◌, ◌^◌, ◌<◌, ◌≡◌, ◌≢◌, refl, sym, ap, ◌∙◌, List, none, some, arith,
}
use extent_based_fs.Base.Int.{ℤ, pos, minus_one}
use extent_based_fs.Types.{FsCtx, ok}
use extent_based_fs.Dir.{inode_lookup}
use extent_based_fs.Dir.Lookup.{IsDir, first_with, inode_lookup-first_with}
use extent_based_fs.Dir.Entries.{AllSlots, IsSlot, entries-AllSlots, first_with-IsSlot}
use extent_based_fs.Entry.Add.{
  has_ino, find_entry-first_with, filled, filled-IsDir, add_dentry-filled,
}
use extent_based_fs.Entry.Clear.{cleared, clear_entry-cleared, cleared-IsDir}
use extent_based_fs.Catalog.{
  Row, find_row, bind_row, drop_row, rooms, Names, assign, Change, bind, unbind, apply, room_after,
  perform,
}
use extent_based_fs.Catalog.Rows.{
  IsTidy, find_row-none, unfound-Inoless, bind_row-IsTidy, rooms-bind_row, find_row-bind_row,
  drop_row-IsTidy, rooms-drop_row, find_row-drop_row,
}
use extent_based_fs.Catalog.Shows.{IsEntryName, Shows, AllDistinct, Shows-bind_row, Shows-drop_row}
use extent_based_fs.Catalog.Reads.{to_ino, ino_of-find_row, first_unused, first_ino}

-- Directory `d`, with its entries at `es`, holds the names `m` and has `room` unused entries: every
-- entry is unused, with inode number -1 and an empty name, or has a name and an inode number
-- that no other entry has.
pub record Represents (s : FsCtx) (d : ℕ) (es : List ℕ) (m : Names) (room : ℕ) : Type 0 where
  pub is : IsDir s d es
  pub distinct : AllDistinct es
  pub rows : List Row
  pub shows : Shows s.image es rows
  pub tidy : IsTidy rows
  pub names : (name : List ℕ) → find_row name rows ≡ m name
  pub left : rooms rows ≡ room

-- What a change needs: a name that fits, for a new entry a new name, a new inode number and room,
-- for an old one that it exists.
abbrev pub IsAllowed : Names → (room : ℕ) → Change → Type 0
IsAllowed m room (bind name ino) =
    IsEntryName name
    × (m name ≡ none)
    × ((other : List ℕ) → m other ≢ some ino)
    × (ino < 2 ^ 31)
    × (0 < room)
IsAllowed m room (unbind name drop_dir) = IsEntryName name × (ino : ℕ) × (m name ≡ some ino)

module _ {s : FsCtx} {d : ℕ} {es : List ℕ} {m : Names} {room : ℕ}
    (r : Represents s d es m room) where
  slots : AllSlots s.size es
  slots = entries-AllSlots s (s.itable d) es r.is.entries

  pub slot : (ino : ℤ) {a : ℕ} → first_with (has_ino s.image ino) es ≡ some a → IsSlot s.size a
  slot ino e = (first_with-IsSlot s.size (has_ino s.image ino) es e slots).0

  -- A lookup returns what the map says.
  pub inode_lookup-Represents :
      (name : List ℕ) → IsEntryName name → inode_lookup (pos d) name s ≡ ok (to_ino (m name)) s
  inode_lookup-Represents name is =
      inode_lookup-first_with name r.is
      ∙ ap (λ i. ok i s)
          (ino_of-find_row s.image name es r.rows is r.shows ∙ ap to_ino (r.names name))

  -- With room left there is an unused entry.
  pub unused_entry : 0 < room → (a : ℕ) × (first_with (has_ino s.image minus_one) es ≡ some a)
  unused_entry some_room = first_unused s.image es r.rows (room - 1) r.shows (omega (arith, r.left))

  -- A name leads to an inode number that an entry has.
  pub named_entry :
      (name : List ℕ) (ino : ℕ)
      → m name ≡ some ino
      → (a : ℕ) × (first_with (has_ino s.image (pos ino)) es ≡ some a)
  named_entry name ino led = first_ino s.image name ino es r.rows r.shows (r.names name ∙ led)

  pub Represents-filled :
      (name : List ℕ) (ino : ℕ) {a : ℕ}
      → IsAllowed m room (bind name ino)
      → first_with (has_ino s.image minus_one) es ≡ some a
      → Represents (filled s d ino name a) d es (assign m name (some ino)) (room - 1)
  Represents-filled name ino {a} (is, new, fresh, small, some_room) e =
      let full : rooms r.rows ≡ suc (room - 1) = omega (arith, r.left) in
      let nameless = find_row-none name r.rows (r.names name ∙ new) in
      record {
        is = filled-IsDir ino name a r.is;
        distinct = r.distinct;
        rows = bind_row name ino r.rows;
        shows =
            Shows-bind_row s.image a ino name is small (slot minus_one e).0 s.size es r.rows slots
              r.distinct e r.shows;
        tidy =
            bind_row-IsTidy name ino r.rows nameless
              (unfound-Inoless ino r.rows r.tidy (λ other q. fresh other (sym (r.names other) ∙ q)))
              r.tidy;
        names = λ other.
            find_row-bind_row name ino other r.rows (room - 1) full nameless
            ∙ rw (r.names other) refl;
        left = rooms-bind_row name ino r.rows (room - 1) full;
      }

  pub Represents-cleared :
      (name : List ℕ) (ino : ℕ) {a : ℕ} (drop_dir : ℤ)
      → m name ≡ some ino
      → first_with (has_ino s.image (pos ino)) es ≡ some a
      → Represents (cleared s d a drop_dir) d es (assign m name none) (room + 1)
  Represents-cleared name ino {a} drop_dir led e =
      let found = r.names name ∙ led in
      record {
        is = cleared-IsDir a drop_dir r.is;
        distinct = r.distinct;
        rows = drop_row ino r.rows;
        shows =
            Shows-drop_row s.image a ino (slot (pos ino) e).0 s.size es r.rows slots r.distinct e
              r.shows;
        tidy = drop_row-IsTidy ino r.rows r.tidy;
        names =
            λ other. find_row-drop_row ino name other r.rows r.tidy found ∙ rw (r.names other) refl;
        left = rooms-drop_row ino name r.rows found ∙ omega (arith, r.left);
      }

  -- An allowed change of a directory that holds the names of a map, each entry unused or with a
  -- name and an inode number of its own, succeeds, and the directory then is again of that
  -- kind, with the changed map's names and one unused entry less, or one more.
  pub perform-Represents :
      (c : Change)
      → IsAllowed m room c
      → (t : FsCtx) × (perform d c s ≡ ok (pos 0) t)
        × Represents t d es (apply m c) (room_after room c)
  unfolding perform apply
  perform-Represents (bind name ino) h =
      let (a, e) = unused_entry h.4 in
      (
        filled s d ino name a,
        add_dentry-filled ino name r.is e h.0.0.short,
        Represents-filled name ino h e,
      )
  perform-Represents (unbind name drop_dir) (is, ino, there) =
      let (a, e) = named_entry name ino there in
      (
        cleared s d a drop_dir,
        rw
            (
              inode_lookup-Represents name is,
              there,
              find_entry-first_with (pos ino) r.is,
              e,
              clear_entry-cleared s d a drop_dir r.is.in_table,
            )
            refl,
        Represents-cleared name ino drop_dir there e,
      )
