-- ===== src/Catalog/Script.antt =====
-- Scripts of changes of one directory (a1b/a1fs_helper.c, a1b/a1fs.c), against a finite map.
use extent_based_fs.Base.{ℕ, ◌≡◌, refl, List, [], ◌∷◌}
use extent_based_fs.Base.Int.{pos}
use extent_based_fs.Types.{FsCtx, ok}
use extent_based_fs.Dir.{inode_lookup}
use extent_based_fs.Catalog.{
  Names, Change, apply, room_after, perform_all, apply_all, room_after_all,
}
use extent_based_fs.Catalog.Shows.{IsEntryName}
use extent_based_fs.Catalog.Reads.{to_ino}
use extent_based_fs.Catalog.Steps.{
  Represents, IsAllowed, inode_lookup-Represents, perform-Represents,
}

-- Each change is allowed by the map that the changes before it lead to.
abbrev pub AllAllowed : Names → (room : ℕ) → List Change → Type 0
AllAllowed m room [] = Unit
AllAllowed m room (c ∷ cs) = IsAllowed m room c × AllAllowed (apply m c) (room_after room c) cs

script-Represents :
    (cs : List Change) {s : FsCtx} {d : ℕ} {es : List ℕ} {m : Names} {room : ℕ}
    → Represents s d es m room
    → AllAllowed m room cs
    → (t : FsCtx) × (perform_all d cs s ≡ ok (pos 0) t)
      × Represents t d es (apply_all m cs) (room_after_all room cs)
unfolding perform_all apply_all room_after_all
script-Represents [] {s} r h = (s, refl, r)
script-Represents (c ∷ cs) r h =
    let (u, e, ru) = perform-Represents r c h.0 in
    let (t, f, rt) = script-Represents cs ru h.1 in (t, rw e f, rt)

-- From a directory that holds the names of a map, each entry unused or with a name and an inode
-- number of its own, a script of changes, each allowed by the map that the ones before it lead
-- to, runs to its end with 0. Afterwards the lookup of every name that fits and is not empty
-- returns what the changed map says: its inode number, or -1.
pub perform_all-apply_all :
    {s : FsCtx} {d : ℕ} {es : List ℕ} {m : Names} {room : ℕ}
    → Represents s d es m room
    → (cs : List Change) → AllAllowed m room cs
    → (t : FsCtx) × (perform_all d cs s ≡ ok (pos 0) t)
      × ((name : List ℕ)
          → IsEntryName name
          → inode_lookup (pos d) name t ≡ ok (to_ino (apply_all m cs name)) t)
perform_all-apply_all r cs h =
    let (t, e, rt) = script-Represents cs r h in (t, e, inode_lookup-Represents rt)
