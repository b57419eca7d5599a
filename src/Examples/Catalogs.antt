-- ===== src/Examples/Catalogs.antt =====
-- The root directory of the sample image as a finite map.
use extent_based_fs.Base.{ℕ, ◌≡◌, ◌≢◌, refl, inl, inr, Bool-cases, List, [], ◌∷◌, none, some, arith}
use extent_based_fs.Base.Int.{pos}
use extent_based_fs.Types.{FsCtx, ok}
use extent_based_fs.Samples.{sample, name_d, root_entries}
use extent_based_fs.Image.{dentry_ino, load32}
use extent_based_fs.Dir.{inode_lookup}
use extent_based_fs.Alloc.DirBlock.{entry_offsets}
use extent_based_fs.Catalog.{
  Change, bind, unbind, apply, apply_all, perform_all, assign, same_name, rooms,
}
use extent_based_fs.Catalog.Reads.{to_ino}
use extent_based_fs.Catalog.Shows.{IsEntryName}
use extent_based_fs.Catalog.Steps.{Represents}
use extent_based_fs.Catalog.Script.{AllAllowed, perform_all-apply_all}
use extent_based_fs.Tree.{no_names}
use extent_based_fs.Tree.NewBlock.{
  new_rows, entry_offsets-AllDistinct, new_rows-IsTidy, find_row-new_rows,
}
use extent_based_fs.Examples.Dirs.{root-IsDir, name_d-IsName}

root-Represents : Represents sample 0 root_entries no_names 16
unfolding entry_offsets new_rows rooms dentry_ino load32
root-Represents = record {
  is = root-IsDir;
  distinct = entry_offsets-AllDistinct 16 16384;
  rows = new_rows 16;
  shows = (
    (refl, refl),
    (
      (refl, refl),
      (
        (refl, refl),
        (
          (refl, refl),
          (
            (refl, refl),
            (
              (refl, refl),
              (
                (refl, refl),
                (
                  (refl, refl),
                  (
                    (refl, refl),
                    (
                      (refl, refl),
                      (
                        (refl, refl),
                        (
                          (refl, refl),
                          ((refl, refl), ((refl, refl), ((refl, refl), ((refl, refl), tt)))),
                        ),
                      ),
                    ),
                  ),
                ),
              ),
            ),
          ),
        ),
      ),
    ),
  );
  tidy = new_rows-IsTidy 16;
  names = find_row-new_rows 16;
  left = refl;
}

name_d-IsEntryName : IsEntryName name_d
name_d-IsEntryName = (name_d-IsName, λ e. cc)

abbrev script : List Change
script = bind name_d 2 ∷ unbind name_d (pos 0) ∷ bind name_d 3 ∷ []

script-AllAllowed : AllAllowed no_names 16 script
unfolding apply same_name
script-AllAllowed = (
  (name_d-IsEntryName, refl, λ other e. cc, omega arith, omega arith),
  (
    (name_d-IsEntryName, 2, refl),
    ((name_d-IsEntryName, refl, not_three, omega arith, omega arith), tt),
  ),
)
  where
    not_three :
        (other : List ℕ) → assign (assign no_names name_d (some 2)) name_d none other ≢ some 3
    not_three other e = elim (Bool-cases (same_name name_d other)) [
      | inl h ↦ cc (rw h at e)
      | inr h ↦ cc (rw h at e)
    ]

perform_all-apply_all_example :
    (t : FsCtx) × (perform_all 0 script sample ≡ ok (pos 0) t)
    × ((name : List ℕ)
        → IsEntryName name
        → inode_lookup (pos 0) name t ≡ ok (to_ino (apply_all no_names script name)) t)
perform_all-apply_all_example = perform_all-apply_all root-Represents script script-AllAllowed
