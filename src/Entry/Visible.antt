-- ===== src/Entry/Visible.antt =====
-- What lookups see after add_dentry of a1b/a1fs_helper.c has used an entry of the directory.
use extent_based_fs.Base.{
  ℕ, ◌+◌, ◌%◌, ◌^◌, ◌<◌, ◌≡◌, ◌≢◌, refl, sym, ap, ◌∙◌, inl, inr, Bool, true, false, List, [], ◌∷◌,
  Option, some, arith, ◌==◌, ==→eq, if◌then◌else◌, Bool-cases,
}
use extent_based_fs.Base.Int.{ℤ, pos, minus_one, eq_ℤ}
use extent_based_fs.Types.{FsCtx, ok, ok_value}
use extent_based_fs.Image.{Bytes, dentry_ino, name_addr, str_eq}
use extent_based_fs.Image.Words.{IsInt32}
use extent_based_fs.Dir.{inode_lookup}
use extent_based_fs.Dir.Lookup.{IsDir, first_with, has_name, ino_of, inode_lookup-first_with}
use extent_based_fs.Dir.Entries.{AllSlots, IsSlot, entries-AllSlots, first_with-IsSlot}
use extent_based_fs.Entry.{find_entry, add_dentry}
use extent_based_fs.Entry.Fill.{
  IsName, entry_image, entry_image-ino, entry_image-name, other-ino, other-name,
}
use extent_based_fs.Entry.Add.{
  has_ino, find_entry-first_with, filled, filled-IsDir, add_dentry-filled,
}

module _ (img : Bytes) (a ino : ℕ) (name : List ℕ) (is : IsName name) (aligned : a % 256 ≡ 0) where
  abbrev img' : Bytes
  img' = entry_image img a name (pos ino)

  seen_self :
      (size : ℕ) (es : List ℕ)
      → AllSlots size es
      → first_with (has_ino img minus_one) es ≡ some a
      → IsInt32 (pos ino)
      → ino_of img (first_with (has_name img name) es) ≡ minus_one
      → ino_of img' (first_with (has_name img' name) es) ≡ pos ino
  unfolding first_with
  seen_self size [] slots free small unseen = cc
  seen_self size (b ∷ es) slots free small unseen = elim (Bool-cases (has_ino img minus_one b)) [
    | inl unused ↦
        let same : b ≡ a = some_inj (rw unused at free) in
        rw (same, (entry_image-name img a name (pos ino) is name is.text).1 refl)
          (entry_image-ino img a name (pos ino) is small)
    | inr used ↦
        let later = rw used at free in
        let ne : a ≢ b = λ e. cc (
          ap (has_ino img minus_one) e,
          (first_with-IsSlot size (has_ino img minus_one) es later slots.1).1,
        ) in
        rw (other-name img a name (pos ino) is b name aligned slots.0.0 ne is.short)
          (elim (Bool-cases (has_name img name b)) [
            | inl named ↦ cc (ap (λ z. eq_ℤ z minus_one) (seen b _ named unseen))
            | inr unnamed ↦
                rw unnamed (seen_self size es slots.1 later small (rw unnamed at unseen))
          ])
  ]
    where
      seen :
          (b : ℕ) (r : Option ℕ) {test : Bool} {z : ℤ}
          → test ≡ true
          → ino_of img (if test then some b else r) ≡ z
          → dentry_ino img b ≡ z
      seen b r t e = rw t at e

      some_inj : {x y : ℕ} → some x ≡ some y → x ≡ y
      some_inj e = cc

  seen_other :
      (size : ℕ) (es other : List ℕ)
      → AllSlots size es
      → img (name_addr a) ≡ 0
      → IsName other
      → other ≢ name
      → other ≢ []
      → ino_of img' (first_with (has_name img' other) es)
        ≡ ino_of img (first_with (has_name img other) es)
  unfolding first_with
  seen_other size [] other slots clean ok' ne nonempty = refl
  seen_other size (b ∷ es) other slots clean ok' ne nonempty = elim (Bool-cases (a == b)) [
    | inl e ↦
        rw (← ==→eq a b e, hidden other ok' ne, unnamed other clean ok' nonempty)
          (seen_other size es other slots.1 clean ok' ne nonempty)
    | inr e ↦
        let apart : a ≢ b = ground arith in
        rw (other-name img a name (pos ino) is b other aligned slots.0.0 apart ok'.short)
          (elim (Bool-cases (has_name img other b)) [
            | inl named ↦ rw named (other-ino img a name (pos ino) is b aligned slots.0.0 apart)
            | inr unnamed' ↦ rw unnamed' (seen_other size es other slots.1 clean ok' ne nonempty)
          ])
  ]
    where
      hidden : (other : List ℕ) → IsName other → other ≢ name → has_name img' other a ≡ false
      hidden other ok' ne = elim (Bool-cases (has_name img' other a)) [
        | inl h ↦ absurd (ne (sym ((entry_image-name img a name (pos ino) is other ok'.text).0 h)))
        | inr h ↦ h
      ]

      unnamed :
          (other : List ℕ)
          → img (name_addr a) ≡ 0
          → IsName other
          → other ≢ []
          → has_name img other a ≡ false
      unnamed [] clean ok' ne = absurd (ne refl)
      unnamed (c ∷ cs) clean ok' ne = unfold str_eq in ground (arith, ok'.text.0)

module _ {s : FsCtx} {d : ℕ} {es : List ℕ} (a ino : ℕ) (name : List ℕ) (is : IsDir s d es)
    (unused : find_entry d minus_one s ≡ ok (some a) s) (ok_name : IsName name) where
  pub unused_first : first_with (has_ino s.image minus_one) es ≡ some a
  unused_first = ground (arith, find_entry-first_with minus_one is, unused)

  pub unused-IsSlot : IsSlot s.size a × (has_ino s.image minus_one a ≡ true)
  unused-IsSlot =
      first_with-IsSlot s.size (has_ino s.image minus_one) es unused_first
        (entries-AllSlots s (s.itable d) es is.entries)

  -- The new name leads to its inode number.
  pub lookup-filled :
      ino < 2 ^ 31
      → inode_lookup (pos d) name s ≡ ok minus_one s
      → inode_lookup (pos d) name (filled s d ino name a) ≡ ok (pos ino) (filled s d ino name a)
  lookup-filled small unseen =
      inode_lookup-first_with name (filled-IsDir ino name a is)
      ∙ ap (λ r. ok r (filled s d ino name a))
          (seen_self s.image a ino name ok_name unused-IsSlot.0.0 s.size es
            (entries-AllSlots s (s.itable d) es is.entries) unused_first small not_there)
    where
      not_there : ino_of s.image (first_with (has_name s.image name) es) ≡ minus_one
      not_there = ground (arith, inode_lookup-first_with name is, unseen)

  -- In a directory with an unused entry and without an entry of that name, adding a name that fits
  -- succeeds: afterwards a lookup of the name gives its inode number, the directory has the
  -- same entries' places and one entry more on its count, and no other inode and no bitmap has
  -- changed.
  pub add_dentry-lookup :
      ino < 2 ^ 31
      → inode_lookup (pos d) name s ≡ ok minus_one s
      → (t : FsCtx) × (add_dentry d ino name s ≡ ok (pos 0) t)
        × IsDir t d es
        × (inode_lookup (pos d) name t ≡ ok (pos ino) t)
        × ((t.itable d).num_entries ≡ ((s.itable d).num_entries + 1) % 2 ^ 32)
        × ((j : ℕ) → j ≢ d → t.itable j ≡ s.itable j)
        × (t.inode_bits ≡ s.inode_bits)
        × (t.block_bits ≡ s.block_bits)
  add_dentry-lookup small unseen = (
    filled s d ino name a,
    add_dentry-filled ino name is unused_first ok_name.short,
    filled-IsDir ino name a is,
    lookup-filled small unseen,
    ground arith,
    λ j ne. ground arith,
    refl,
    refl,
  )

  -- If the entry that is used had an empty name, adding a name that fits succeeds and the lookup
  -- of every other name that fits and is not empty returns what it did before.
  pub add_dentry-lookup_other :
      s.image (name_addr a) ≡ 0
      → (t : FsCtx) × (add_dentry d ino name s ≡ ok (pos 0) t)
        × ((other : List ℕ) (r : ℤ)
            → IsName other
            → other ≢ name
            → other ≢ []
            → inode_lookup (pos d) other s ≡ ok r s
            → inode_lookup (pos d) other t ≡ ok r t)
  add_dentry-lookup_other clean = (
    filled s d ino name a,
    add_dentry-filled ino name is unused_first ok_name.short,
    λ other r ok_other ne nonempty before.
        inode_lookup-first_with other (filled-IsDir ino name a is)
        ∙ ap (λ r. ok r (filled s d ino name a))
            (seen_other s.image a ino name ok_name unused-IsSlot.0.0 s.size es other
                (entries-AllSlots s (s.itable d) es is.entries) clean ok_other ne nonempty
              ∙ ok_value (sym (inode_lookup-first_with other is) ∙ before)),
  )
