-- ===== src/Catalog/Rows.antt =====
-- The laws of a finite map, for the rows of a directory (the entries of a1b/a1fs_helper.c).
use extent_based_fs.Base.{
  ℕ, suc, ◌≡◌, ◌≢◌, refl, sym, ap, ◌∙◌, inl, inr, true, false, List, [], ◌∷◌, none, some, arith,
  ◌==◌, ==→eq, if◌then◌else◌, Bool-cases,
}
use extent_based_fs.Catalog.{Row, unused, used, same_name, find_row, bind_row, drop_row, rooms}

pub same_name→eq : (x y : List ℕ) → same_name x y ≡ true → x ≡ y
unfolding same_name
same_name→eq [] [] h = refl
same_name→eq (c ∷ cs) (d ∷ ds) h = ground (arith, same_name→eq cs ds)
same_name→eq [] (d ∷ ds) h = cc
same_name→eq (c ∷ cs) [] h = cc

pub same_name_refl : (x : List ℕ) → same_name x x ≡ true
unfolding same_name
same_name_refl [] = refl
same_name_refl (c ∷ cs) = ground (arith, same_name_refl cs)

pub ne→same_name : (x y : List ℕ) → x ≢ y → same_name x y ≡ false
ne→same_name x y h = elim (Bool-cases (same_name x y)) [
  | inl e ↦ absurd (h (same_name→eq x y e))
  | inr e ↦ e
]

-- No row has the name, or the inode number.
abbrev pub Nameless : List ℕ → List Row → Type 0
Nameless name [] = Unit
Nameless name (unused ∷ rows) = Nameless name rows
Nameless name (used other i ∷ rows) = (other ≢ name) × Nameless name rows

abbrev pub Inoless : ℕ → List Row → Type 0
Inoless ino [] = Unit
Inoless ino (unused ∷ rows) = Inoless ino rows
Inoless ino (used other i ∷ rows) = (i ≢ ino) × Inoless ino rows

-- No two rows share a name or an inode number.
abbrev pub IsTidy : List Row → Type 0
IsTidy [] = Unit
IsTidy (unused ∷ rows) = IsTidy rows
IsTidy (used name i ∷ rows) = Nameless name rows × Inoless i rows × IsTidy rows

pub find_row-none :
    (name : List ℕ) (rows : List Row) → find_row name rows ≡ none → Nameless name rows
unfolding find_row
find_row-none name [] h = tt
find_row-none name (unused ∷ rows) h = find_row-none name rows h
find_row-none name (used other i ∷ rows) h = elim (Bool-cases (same_name other name)) [
  | inl e ↦ cc (rw e at h)
  | inr e ↦ (λ q. cc (sym (rw q at e) ∙ same_name_refl name), find_row-none name rows (rw e at h))
]

pub Nameless-find_row :
    (name : List ℕ) (rows : List Row) → Nameless name rows → find_row name rows ≡ none
unfolding find_row
Nameless-find_row name [] h = refl
Nameless-find_row name (unused ∷ rows) h = Nameless-find_row name rows h
Nameless-find_row name (used other i ∷ rows) h =
    rw (ne→same_name other name h.0) (Nameless-find_row name rows h.1)

-- If no name leads to the inode number, no row has it.
pub unfound-Inoless :
    (ino : ℕ) (rows : List Row)
    → IsTidy rows
    → ((name : List ℕ) → find_row name rows ≢ some ino)
    → Inoless ino rows
unfolding find_row
unfound-Inoless ino [] tidy h = tt
unfound-Inoless ino (unused ∷ rows) tidy h = unfound-Inoless ino rows tidy h
unfound-Inoless ino (used other i ∷ rows) tidy h = (
  λ e. h other (rw (same_name_refl other, e) refl),
  unfound-Inoless ino rows tidy.2 (λ name q. elim (Bool-cases (same_name other name)) [
    | inl e ↦
        let gone : find_row name rows ≡ none =
          Nameless-find_row name rows (rw (same_name→eq other name e) at tidy.0) in
        cc
    | inr e ↦ h name (rw e q)
  ]),
)

module _ (name : List ℕ) (ino : ℕ) where
  bind_row-Nameless :
      (other : List ℕ) (rows : List Row)
      → name ≢ other
      → Nameless other rows
      → Nameless other (bind_row name ino rows)
  unfolding bind_row
  bind_row-Nameless other [] ne h = tt
  bind_row-Nameless other (unused ∷ rows) ne h = (ne, h)
  bind_row-Nameless other (used x i ∷ rows) ne h = (h.0, bind_row-Nameless other rows ne h.1)

  bind_row-Inoless :
      (i : ℕ) (rows : List Row) → ino ≢ i → Inoless i rows → Inoless i (bind_row name ino rows)
  unfolding bind_row
  bind_row-Inoless i [] ne h = tt
  bind_row-Inoless i (unused ∷ rows) ne h = (ne, h)
  bind_row-Inoless i (used x j ∷ rows) ne h = (h.0, bind_row-Inoless i rows ne h.1)

  pub bind_row-IsTidy :
      (rows : List Row)
      → Nameless name rows
      → Inoless ino rows
      → IsTidy rows
      → IsTidy (bind_row name ino rows)
  unfolding bind_row
  bind_row-IsTidy [] n i h = tt
  bind_row-IsTidy (unused ∷ rows) n i h = (n, i, h)
  bind_row-IsTidy (used x j ∷ rows) n i h = (
    bind_row-Nameless x rows (λ e. n.0 (sym e)) h.0,
    bind_row-Inoless j rows (λ e. i.0 (sym e)) h.1,
    bind_row-IsTidy rows n.1 i.1 h.2,
  )

  pub rooms-bind_row :
      (rows : List Row) (n : ℕ) → rooms rows ≡ suc n → rooms (bind_row name ino rows) ≡ n
  unfolding rooms bind_row
  rooms-bind_row [] n h = ground arith
  rooms-bind_row (unused ∷ rows) n h = omega arith
  rooms-bind_row (used x i ∷ rows) n h = rooms-bind_row rows n h

  pub find_row-bind_row :
      (other : List ℕ) (rows : List Row) (n : ℕ)
      → rooms rows ≡ suc n
      → Nameless name rows
      → find_row other (bind_row name ino rows)
        ≡ (if same_name name other then some ino else find_row other rows)
  unfolding rooms bind_row find_row
  find_row-bind_row other [] n h k = ground arith
  find_row-bind_row other (unused ∷ rows) n h k = refl
  find_row-bind_row other (used x i ∷ rows) n h k = elim (Bool-cases (same_name x other)) [
    | inl e ↦ rw (e, ne→same_name name other (λ q. k.0 (same_name→eq x other e ∙ sym q))) refl
    | inr e ↦ rw e (find_row-bind_row other rows n h k.1)
  ]

module _ (ino : ℕ) where
  drop_row-Nameless :
      (other : List ℕ) (rows : List Row) → Nameless other rows → Nameless other (drop_row ino rows)
  unfolding drop_row
  drop_row-Nameless other [] h = tt
  drop_row-Nameless other (unused ∷ rows) h = drop_row-Nameless other rows h
  drop_row-Nameless other (used x i ∷ rows) h = elim (Bool-cases (i == ino)) [
    | inl e ↦ rw e h.1
    | inr e ↦ rw e (h.0, drop_row-Nameless other rows h.1)
  ]

  drop_row-Inoless : (i : ℕ) (rows : List Row) → Inoless i rows → Inoless i (drop_row ino rows)
  unfolding drop_row
  drop_row-Inoless i [] h = tt
  drop_row-Inoless i (unused ∷ rows) h = drop_row-Inoless i rows h
  drop_row-Inoless i (used x j ∷ rows) h = elim (Bool-cases (j == ino)) [
    | inl e ↦ rw e h.1
    | inr e ↦ rw e (h.0, drop_row-Inoless i rows h.1)
  ]

  pub drop_row-IsTidy : (rows : List Row) → IsTidy rows → IsTidy (drop_row ino rows)
  unfolding drop_row
  drop_row-IsTidy [] h = tt
  drop_row-IsTidy (unused ∷ rows) h = drop_row-IsTidy rows h
  drop_row-IsTidy (used x j ∷ rows) h = elim (Bool-cases (j == ino)) [
    | inl e ↦ rw e h.2
    | inr e ↦
        rw e (drop_row-Nameless x rows h.0, drop_row-Inoless j rows h.1, drop_row-IsTidy rows h.2)
  ]

  pub Inoless-find_row :
      (name : List ℕ) (rows : List Row) → Inoless ino rows → find_row name rows ≢ some ino
  unfolding find_row
  Inoless-find_row name [] h e = cc
  Inoless-find_row name (unused ∷ rows) h e = Inoless-find_row name rows h e
  Inoless-find_row name (used x i ∷ rows) h e = elim (Bool-cases (same_name x name)) [
    | inl q ↦ h.0 (some_inj (rw q at e))
    | inr q ↦ Inoless-find_row name rows h.1 (rw q at e)
  ]
    where
      some_inj : {x y : ℕ} → some x ≡ some y → x ≡ y
      some_inj e = cc

  module _ (name : List ℕ) where
    pub rooms-drop_row :
        (rows : List Row)
        → find_row name rows ≡ some ino
        → rooms (drop_row ino rows) ≡ suc (rooms rows)
    unfolding rooms drop_row find_row
    rooms-drop_row [] h = cc
    rooms-drop_row (unused ∷ rows) h = ap suc (rooms-drop_row rows h)
    rooms-drop_row (used x i ∷ rows) h = elim (Bool-cases (i == ino)) [
      | inl e ↦ rw e refl
      | inr e ↦ rw e (elim (Bool-cases (same_name x name)) [
        | inl q ↦ ground (arith, rw q at h)
        | inr q ↦ rooms-drop_row rows (rw q at h)
      ])
    ]

    pub find_row-drop_row :
        (other : List ℕ) (rows : List Row)
        → IsTidy rows
        → find_row name rows ≡ some ino
        → find_row other (drop_row ino rows)
          ≡ (if same_name name other then none else find_row other rows)
    unfolding drop_row find_row
    find_row-drop_row other [] tidy h = cc
    find_row-drop_row other (unused ∷ rows) tidy h = find_row-drop_row other rows tidy h
    find_row-drop_row other (used x i ∷ rows) tidy h = elim (Bool-cases (i == ino)) [
      | inl e ↦ rw e (elim (Bool-cases (same_name x name)) [
        | inl q ↦ elim (Bool-cases (same_name name other)) [
          | inl r ↦
              let named : x ≡ other = same_name→eq x name q ∙ same_name→eq name other r in
              rw r (Nameless-find_row other rows (rw named at tidy.0))
          | inr r ↦ rw (r, same_name→eq x name q, r) refl
        ]
        | inr q ↦ absurd (Inoless-find_row name rows (rw (==→eq i ino e) at tidy.1) (rw q at h))
      ])
      | inr e ↦ rw e (elim (Bool-cases (same_name x name)) [
        | inl q ↦ ground (arith, rw q at h)
        | inr q ↦ elim (Bool-cases (same_name x other)) [
          | inl r ↦ rw (r, ne→same_name name other (apart x other q r)) refl
          | inr r ↦ rw r (find_row-drop_row other rows tidy.2 (rw q at h))
        ]
      ])
    ]
      where
        apart :
            (x other : List ℕ) → same_name x name ≡ false → same_name x other ≡ true → name ≢ other
        apart x other q r e =
            let same : x ≡ name = same_name→eq x other r ∙ sym e in
            cc (sym q ∙ ap (λ y. same_name y name) same ∙ same_name_refl name)
