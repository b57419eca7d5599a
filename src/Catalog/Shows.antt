-- ===== src/Catalog/Shows.antt =====
-- Which rows the entries of a directory hold, as add_dentry of a1b/a1fs_helper.c and the emptying
-- of an entry in a1b/a1fs.c read and write them.
use extent_based_fs.Base.{
  ℕ, ◌+◌, ◌%◌, ◌^◌, ◌≤◌, ◌<◌, ◌≡◌, ◌≢◌, refl, ap, ◌∙◌, ◌⊎◌, inl, inr, Bool, true, false, List, [],
  ◌∷◌, some, arith, ◌==◌, Bool-cases,
}
use extent_based_fs.Base.Int.{pos, minus_one}
use extent_based_fs.Image.{Bytes, store8, dentry_ino, set_dentry_ino, name_addr}
use extent_based_fs.Image.Words.{dentry_ino-set_self, dentry_ino_ext}
use extent_based_fs.Dir.Lookup.{first_with, has_name}
use extent_based_fs.Dir.Entries.{AllSlots, first_with-IsSlot}
use extent_based_fs.Entry.Fill.{
  IsName, entry_image, entry_image_byte, entry_image-ino, entry_image-name, dentry_ino_same,
  has_name_same,
}
use extent_based_fs.Entry.Add.{has_ino}
use extent_based_fs.Entry.Elsewhere.{Lacks}
use extent_based_fs.Entry.Clear.{clear_image, clear_byte}
use extent_based_fs.Catalog.{Row, unused, used, bind_row, drop_row}

-- A name that can be given to an entry.
abbrev pub IsEntryName : List ℕ → Type 0
IsEntryName name = IsName name × (name ≢ [])

abbrev pub Holds : Bytes → ℕ → Row → Type 0
Holds img a unused = (dentry_ino img a ≡ minus_one) × (img (name_addr a) ≡ 0)
Holds img a (used name ino) =
    (dentry_ino img a ≡ pos ino) × (has_name img name a ≡ true) × IsEntryName name

abbrev pub Shows : Bytes → List ℕ → List Row → Type 0
Shows img [] [] = Unit
Shows img (a ∷ es) (r ∷ rows) = Holds img a r × Shows img es rows
Shows img _ _ = ⊥

abbrev pub AllDistinct : List ℕ → Type 0
AllDistinct [] = Unit
AllDistinct (a ∷ es) = Lacks a es × AllDistinct es

-- Images that agree outside of an entry show the same rows elsewhere.
module _ (img img' : Bytes) (a : ℕ) (aligned : a % 256 ≡ 0)
    (same : (x : ℕ) → (x < a) ⊎ (a + 256 ≤ x) → img' x ≡ img x) where
  elsewhere : (b : ℕ) → b % 256 ≡ 0 → a ≢ b → (x : ℕ) → b ≤ x → x < b + 256 → img' x ≡ img x
  elsewhere b q ne x lo hi = same x (omega arith)

  pub Holds-elsewhere : (b : ℕ) (r : Row) → b % 256 ≡ 0 → a ≢ b → Holds img b r → Holds img' b r
  Holds-elsewhere b unused q ne h = (
    dentry_ino_same img' img b (elsewhere b q ne) ∙ h.0,
    elsewhere b q ne (name_addr b) (omega arith) (omega arith) ∙ h.1,
  )
  Holds-elsewhere b (used name ino) q ne h = (
    dentry_ino_same img' img b (elsewhere b q ne) ∙ h.0,
    has_name_same img' img b (elsewhere b q ne) name h.2.0.short ∙ h.1,
    h.2,
  )

  pub Shows-elsewhere :
      (size : ℕ) (es : List ℕ) (rows : List Row)
      → AllSlots size es
      → Lacks a es
      → Shows img es rows
      → Shows img' es rows
  Shows-elsewhere size [] [] slots out h = tt
  Shows-elsewhere size [] (r ∷ rows) slots out h = h
  Shows-elsewhere size (b ∷ es) [] slots out h = h
  Shows-elsewhere size (b ∷ es) (r ∷ rows) slots out h =
      (Holds-elsewhere b r slots.0.0 out.0 h.0, Shows-elsewhere size es rows slots.1 out.1 h.1)

some_inj : {x y : ℕ} → some x ≡ some y → x ≡ y
some_inj e = cc

-- An entry that passes a test is none that fails it.
apart :
    (size : ℕ) (test : ℕ → Bool) (es : List ℕ) {a b : ℕ}
    → first_with test es ≡ some a
    → AllSlots size es
    → test b ≡ false
    → a ≢ b
apart size test es hit slots fails e = cc (ap test e, (first_with-IsSlot size test es hit slots).1)

module _ (img : Bytes) (a ino : ℕ) (name : List ℕ) (is : IsEntryName name) (small : ino < 2 ^ 31)
    (aligned : a % 256 ≡ 0) where
  abbrev img_filled : Bytes
  img_filled = entry_image img a name (pos ino)

  pub Shows-bind_row :
      (size : ℕ) (es : List ℕ) (rows : List Row)
      → AllSlots size es
      → AllDistinct es
      → first_with (has_ino img minus_one) es ≡ some a
      → Shows img es rows
      → Shows img_filled es (bind_row name ino rows)
  unfolding first_with bind_row
  Shows-bind_row size [] rows slots apart' hit h = cc
  Shows-bind_row size (b ∷ es) [] slots apart' hit h = h
  Shows-bind_row size (b ∷ es) (unused ∷ rows) slots apart' hit h =
      let same : b ≡ a = some_inj (rw h.0.0 at hit) in
      rw same (
        (
          entry_image-ino img a name (pos ino) is.0 small,
          (entry_image-name img a name (pos ino) is.0 name is.0.text).1 refl,
          is,
        ),
        Shows-elsewhere img img_filled a aligned (entry_image_byte img a name (pos ino) is.0) size
            es rows slots.1 (rw same at apart'.0) h.1,
      )
  Shows-bind_row size (b ∷ es) (used x i ∷ rows) slots apart' hit h =
      let fails : has_ino img minus_one b ≡ false = rw h.0.0 refl in
      let later : first_with (has_ino img minus_one) es ≡ some a = rw fails at hit in
      (
        Holds-elsewhere img img_filled a aligned (entry_image_byte img a name (pos ino) is.0) b
            (used x i) slots.0.0 (apart size (has_ino img minus_one) es later slots.1 fails) h.0,
        Shows-bind_row size es rows slots.1 apart'.1 later h.1,
      )

module _ (img : Bytes) (a ino : ℕ) (aligned : a % 256 ≡ 0) where
  cleared-unused : Holds (clear_image img a) a unused
  unfolding store8
  cleared-unused = (
    dentry_ino_ext (clear_image img a) (set_dentry_ino img a minus_one) a (λ x p q. ground arith)
        ∙ dentry_ino-set_self img a minus_one (omega arith),
    ground arith,
  )

  pub Shows-drop_row :
      (size : ℕ) (es : List ℕ) (rows : List Row)
      → AllSlots size es
      → AllDistinct es
      → first_with (has_ino img (pos ino)) es ≡ some a
      → Shows img es rows
      → Shows (clear_image img a) es (drop_row ino rows)
  unfolding first_with drop_row
  Shows-drop_row size [] rows slots apart' hit h = cc
  Shows-drop_row size (b ∷ es) [] slots apart' hit h = h
  Shows-drop_row size (b ∷ es) (unused ∷ rows) slots apart' hit h =
      let fails : has_ino img (pos ino) b ≡ false = rw h.0.0 refl in
      let later : first_with (has_ino img (pos ino)) es ≡ some a = rw fails at hit in
      (
        Holds-elsewhere img (clear_image img a) a aligned (clear_byte img a aligned) b unused
            slots.0.0 (apart size (has_ino img (pos ino)) es later slots.1 fails) h.0,
        Shows-drop_row size es rows slots.1 apart'.1 later h.1,
      )
  Shows-drop_row size (b ∷ es) (used x i ∷ rows) slots apart' hit h = elim (Bool-cases (i == ino)) [
    | inl e ↦
        let same : b ≡ a = some_inj (rw (h.0.0, e) at hit) in
        rw (e, same)
          (
            cleared-unused,
            Shows-elsewhere img (clear_image img a) a aligned (clear_byte img a aligned) size es
                rows slots.1 (rw same at apart'.0) h.1,
          )
    | inr e ↦
        let fails : has_ino img (pos ino) b ≡ false = rw (h.0.0, e) refl in
        let later : first_with (has_ino img (pos ino)) es ≡ some a = rw fails at hit in
        rw e (
          Holds-elsewhere img (clear_image img a) a aligned (clear_byte img a aligned) b (used x i)
              slots.0.0 (apart size (has_ino img (pos ino)) es later slots.1 fails) h.0,
          Shows-drop_row size es rows slots.1 apart'.1 later h.1,
        )
  ]
