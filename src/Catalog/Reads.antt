-- ===== src/Catalog/Reads.antt =====
-- What the loops over directory entries of a1b/a1fs_helper.c find, in terms of the rows.
use extent_based_fs.Base.{
  ℕ, suc, ◌≡◌, refl, ap, ◌∙◌, inl, inr, true, false, List, [], ◌∷◌, Option, none, some, arith, ◌==◌,
  ==→eq, eq→==, Bool-cases,
}
use extent_based_fs.Base.Int.{ℤ, pos, minus_one}
use extent_based_fs.Image.{Bytes, str_eq, name_addr}
use extent_based_fs.Dir.Lookup.{first_with, has_name, ino_of}
use extent_based_fs.Entry.Add.{has_ino}
use extent_based_fs.Entry.Clear.{str_eq_unique, OnlyAt}
use extent_based_fs.Catalog.{Row, unused, used, same_name, find_row, rooms}
use extent_based_fs.Catalog.Rows.{
  same_name→eq, ne→same_name, same_name_refl, Nameless, IsTidy, Inoless-find_row,
}
use extent_based_fs.Catalog.Shows.{IsEntryName, Holds, Shows}

abbrev pub to_ino : Option ℕ → ℤ
to_ino none = minus_one
to_ino (some i) = pos i

unused-has_name :
    (img : Bytes) (a : ℕ) (name : List ℕ)
    → IsEntryName name
    → img (name_addr a) ≡ 0
    → has_name img name a ≡ false
unfolding str_eq
unused-has_name img a [] is h = absurd (is.1 refl)
unused-has_name img a (c ∷ cs) is h = ground (arith, is.0.text.0)

used-has_name :
    (img : Bytes) (a ino : ℕ) (name other : List ℕ)
    → IsEntryName name
    → Holds img a (used other ino)
    → has_name img name a ≡ same_name other name
used-has_name img a ino name other is h = elim (Bool-cases (same_name other name)) [
  | inl e ↦ rw (e, ← same_name→eq other name e) h.1
  | inr e ↦ rw e (elim (Bool-cases (has_name img name a)) [
    | inl q ↦
        let same : other ≡ name =
          str_eq_unique img (name_addr a) other name h.2.0.text is.0.text h.1 q in
        cc (same_name_refl name, ap (λ x. same_name x name) same)
    | inr q ↦ q
  ])
]

-- A lookup finds what the rows say.
pub ino_of-find_row :
    (img : Bytes) (name : List ℕ) (es : List ℕ) (rows : List Row)
    → IsEntryName name
    → Shows img es rows
    → ino_of img (first_with (has_name img name) es) ≡ to_ino (find_row name rows)
unfolding first_with find_row
ino_of-find_row img name [] [] is h = refl
ino_of-find_row img name [] (r ∷ rows) is h = absurd h
ino_of-find_row img name (a ∷ es) [] is h = absurd h
ino_of-find_row img name (a ∷ es) (unused ∷ rows) is h =
    rw (unused-has_name img a name is h.0.1) (ino_of-find_row img name es rows is h.1)
ino_of-find_row img name (a ∷ es) (used other i ∷ rows) is h =
    rw (used-has_name img a i name other is h.0) (elim (Bool-cases (same_name other name)) [
      | inl e ↦ rw e h.0.0
      | inr e ↦ rw e (ino_of-find_row img name es rows is h.1)
    ])

-- With room left there is an unused entry, and without there is none.
pub first_unused :
    (img : Bytes) (es : List ℕ) (rows : List Row) (n : ℕ)
    → Shows img es rows
    → rooms rows ≡ suc n
    → (a : ℕ) × (first_with (has_ino img minus_one) es ≡ some a)
unfolding first_with rooms
first_unused img [] [] n h room = ground arith
first_unused img [] (r ∷ rows) n h room = absurd h
first_unused img (a ∷ es) [] n h room = absurd h
first_unused img (a ∷ es) (unused ∷ rows) n h room = (a, rw h.0.0 refl)
first_unused img (a ∷ es) (used x i ∷ rows) n h room =
    rw h.0.0 (first_unused img es rows n h.1 room)

-- An inode number that a name leads to has an entry.
pub first_ino :
    (img : Bytes) (name : List ℕ) (ino : ℕ) (es : List ℕ) (rows : List Row)
    → Shows img es rows
    → find_row name rows ≡ some ino
    → (a : ℕ) × (first_with (has_ino img (pos ino)) es ≡ some a)
unfolding first_with find_row
first_ino img name ino [] [] h e = cc
first_ino img name ino [] (r ∷ rows) h e = absurd h
first_ino img name ino (a ∷ es) [] h e = absurd h
first_ino img name ino (a ∷ es) (unused ∷ rows) h e =
    rw h.0.0 (first_ino img name ino es rows h.1 e)
first_ino img name ino (a ∷ es) (used x i ∷ rows) h e = elim (Bool-cases (i == ino)) [
  | inl q ↦ (a, rw (h.0.0, q) refl)
  | inr q ↦
      rw (h.0.0, q)
        (elim (Bool-cases (same_name x name)) [
          | inl r ↦ ground (arith, rw r at e)
          | inr r ↦ first_ino img name ino es rows h.1 (rw r at e)
        ])
]

Nameless-OnlyAt :
    (img : Bytes) (name : List ℕ) (a : ℕ) (es : List ℕ) (rows : List Row)
    → IsEntryName name
    → Shows img es rows
    → Nameless name rows
    → OnlyAt (has_name img name) a es
Nameless-OnlyAt img name a [] [] is h nl = tt
Nameless-OnlyAt img name a [] (r ∷ rows) is h nl = absurd h
Nameless-OnlyAt img name a (b ∷ es) [] is h nl = absurd h
Nameless-OnlyAt img name a (b ∷ es) (unused ∷ rows) is h nl =
    (λ ne. unused-has_name img b name is h.0.1, Nameless-OnlyAt img name a es rows is h.1 nl)
Nameless-OnlyAt img name a (b ∷ es) (used other i ∷ rows) is h nl = (
  λ ne. used-has_name img b i name other is h.0 ∙ ne→same_name other name nl.0,
  Nameless-OnlyAt img name a es rows is h.1 nl.1,
)

-- The entry with the inode number of a name is the only one with that name.
pub first_ino-OnlyAt :
    (img : Bytes) (name : List ℕ) (ino : ℕ) {a : ℕ} (es : List ℕ) (rows : List Row)
    → IsEntryName name
    → Shows img es rows
    → IsTidy rows
    → find_row name rows ≡ some ino
    → first_with (has_ino img (pos ino)) es ≡ some a
    → (has_name img name a ≡ true) × OnlyAt (has_name img name) a es
unfolding first_with find_row
first_ino-OnlyAt img name ino [] rows is h tidy led at = cc
first_ino-OnlyAt img name ino (b ∷ es) [] is h tidy led at = absurd h
first_ino-OnlyAt img name ino (b ∷ es) (unused ∷ rows) is h tidy led at =
    let rest = first_ino-OnlyAt img name ino es rows is h.1 tidy led (rw h.0.0 at at) in
    (rest.0, (λ ne. unused-has_name img b name is h.0.1, rest.1))
first_ino-OnlyAt img name ino {a} (b ∷ es) (used other i ∷ rows) is h tidy led at =
    elim (Bool-cases (same_name other name)) [
      | inl q ↦
          let number : some i ≡ some ino = rw q at led in
          let num : i ≡ ino = cc in
          let here : some b ≡ some a = rw (h.0.0, num, eq→== ino ino refl) at at in
          let same : b ≡ a = cc in
          let eq : other ≡ name = same_name→eq other name q in
          (
            rw (← same) (used-has_name img b i name other is h.0 ∙ q),
            (λ ne. absurd (ne same), Nameless-OnlyAt img name a es rows is h.1 (rw eq at tidy.0)),
          )
      | inr q ↦ elim (Bool-cases (i == ino)) [
        | inl z ↦
            absurd (Inoless-find_row ino name rows (rw (==→eq i ino z) at tidy.1) (rw q at led))
        | inr z ↦
            let rest =
              first_ino-OnlyAt img name ino es rows is h.1 tidy.2 (rw q at led)
                (rw (h.0.0, z) at at) in
            (rest.0, (λ ne. used-has_name img b i name other is h.0 ∙ q, rest.1))
      ]
    ]
