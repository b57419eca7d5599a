-- ===== src/Catalog/Names.antt =====
-- a1fs_readdir of a1b/a1fs.c lists the names of the map that a directory holds.
use mathlib.Core.Logic.Or
use mathlib.Core.List.Pairwise
use mathlib.Core.List.{Mem, Nodup, Nodup-cons, mem-cons, not-mem-nil}
use extent_based_fs.Base.{
  ℕ, zero, suc, ◌+◌, ◌-◌, ◌<◌, ◌≡◌, ◌≢◌, refl, sym, ap, inl, inr, true, false, List, [], ◌∷◌, ◌++◌,
  map, none, some, arith, ◌==◌, Bool-cases, length, lt→ltb, ◌↔◌,
}
use extent_based_fs.Base.Int.{pos}
use extent_based_fs.Types.{FsCtx, ok}
use extent_based_fs.Image.{Bytes, str_eq, c_string, name_addr}
use extent_based_fs.Dir.{get_inode_num}
use extent_based_fs.Dir.Entries.{AllSlots, entries-AllSlots}
use extent_based_fs.Ops.{fill_names, a1fs_readdir, is_absolute, dot, dot_dot}
use extent_based_fs.Image.Names.{IsText}
use extent_based_fs.Catalog.{Row, unused, used, same_name, find_row, Names}
use extent_based_fs.Catalog.Rows.{IsTidy, same_name→eq, same_name_refl, Nameless-find_row}
use extent_based_fs.Catalog.Shows.{IsEntryName, Shows}
use extent_based_fs.Catalog.Steps.{Represents}

unfoldable pub row_names : List Row → List (List ℕ)
row_names [] = []
row_names (unused ∷ rows) = row_names rows
row_names (used name ino ∷ rows) = name ∷ row_names rows

-- A name is read whole where it and its NUL lie in the bytes that may be read.
c_string-str_eq :
    (n : ℕ) (img : Bytes) (a : ℕ) (name : List ℕ)
    → length name < n
    → IsText name
    → str_eq img a name ≡ true
    → c_string n img a ≡ name
unfolding c_string str_eq
c_string-str_eq zero img a name h text e = absurd (omega arith)
c_string-str_eq (suc n) img a [] h text e = ground arith
c_string-str_eq (suc n) img a (c ∷ cs) h text e =
    ground (arith, c_string-str_eq n img (a + 1) cs (omega arith) text.2, text.0)

nonempty_byte :
    (img : Bytes) (a : ℕ) (name : List ℕ)
    → IsEntryName name
    → str_eq img a name ≡ true
    → (img a == 0) ≡ false
unfolding str_eq
nonempty_byte img a [] is e = absurd (is.1 refl)
nonempty_byte img a (c ∷ cs) is e = ground (arith, is.0.text.0)

fill_names-row_names :
    (s : FsCtx) (es : List ℕ) (rows : List Row)
    → AllSlots s.size es
    → Shows s.image es rows
    → fill_names s (map some es) s ≡ ok (row_names rows) s
unfolding fill_names row_names
fill_names-row_names s [] [] slots h = refl
fill_names-row_names s [] (r ∷ rows) slots h = absurd h
fill_names-row_names s (a ∷ es) [] slots h = absurd h
fill_names-row_names s (a ∷ es) (unused ∷ rows) slots h =
    rw (fill_names-row_names s es rows slots.1 h.1, h.0.1) refl
fill_names-row_names s (a ∷ es) (used name ino ∷ rows) slots h =
    rw
      (
        fill_names-row_names s es rows slots.1 h.1,
        nonempty_byte s.image (name_addr a) name h.0.2 h.0.1,
        c_string-str_eq (s.size - name_addr a) s.image (name_addr a) name
            (omega (arith, slots.0.1, h.0.2.0.short)) h.0.2.0.text h.0.1,
      )
      refl

Mem-row_names :
    (name : List ℕ) (rows : List Row) → Mem name (row_names rows) ↔ (find_row name rows ≢ none)
unfolding row_names find_row
Mem-row_names name [] = (λ h. absurd (not-mem-nil h), λ h. absurd (h refl))
Mem-row_names name (unused ∷ rows) = Mem-row_names name rows
Mem-row_names name (used other ino ∷ rows) = (
  λ h e.
      Or.elim (hlevel) (mem-cons.0 h) (λ q. cc (same_name_refl name, ap (λ x. same_name x name) q))
        (λ q. elim (Bool-cases (same_name other name)) [
          | inl b ↦ cc (rw b at e)
          | inr b ↦ (Mem-row_names name rows).0 q (rw b at e)
        ]),
  λ h. elim (Bool-cases (same_name other name)) [
    | inl e ↦ mem-cons.1 (Or.inl (sym (same_name→eq other name e)))
    | inr e ↦ mem-cons.1 (Or.inr ((Mem-row_names name rows).1 (rw e at h)))
  ],
)

Nodup-row_names : (rows : List Row) → IsTidy rows → Nodup (row_names rows)
unfolding row_names
Nodup-row_names [] h = Pairwise.nil
Nodup-row_names (unused ∷ rows) h = Nodup-row_names rows h
Nodup-row_names (used name ino ∷ rows) h =
    Nodup-cons.1 (
      λ q. (Mem-row_names name rows).0 q (Nameless-find_row name rows h.0),
      Nodup-row_names rows h.2,
    )

-- Reading a directory that holds the names of a map, each entry unused or with a name and an inode
-- number of its own, by an absolute path that leads to it, returns 0 and changes nothing. What is
-- listed is a list of names without repetition, in which a name stands if and only if the map has
-- it, and after it `.` and `..`.
pub a1fs_readdir-Represents :
    {s : FsCtx} {d : ℕ} {es : List ℕ} {m : Names} {room : ℕ} (path : List ℕ)
    → Represents s d es m room
    → is_absolute path ≡ true
    → get_inode_num path 0 s ≡ ok (pos d) s
    → (listed : List (List ℕ)) × (a1fs_readdir path s
        ≡ ok (record { names = listed ++ dot ∷ dot_dot ∷ []; result = pos 0 }) s)
      × Nodup listed
      × ((name : List ℕ) → Mem name listed ↔ (m name ≢ none))
unfolding a1fs_readdir
a1fs_readdir-Represents {s} {d} {es} {m} path r absolute leads = (
  row_names r.rows,
  rw
      (
        absolute,
        leads,
        lt→ltb d _ r.is.in_table,
        r.is.entries,
        fill_names-row_names s es r.rows (entries-AllSlots s (s.itable d) es r.is.entries) r.shows,
      )
      refl,
  Nodup-row_names r.rows r.tidy,
  λ name. rw (← r.names name) (Mem-row_names name r.rows),
)
