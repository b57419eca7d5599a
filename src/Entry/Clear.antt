-- ===== src/Entry/Clear.antt =====
-- What lookups see after a1fs_rmdir or a1fs_unlink of a1b/a1fs.c has emptied an entry.
use extent_based_fs.Base.{
  ℕ, ◌+◌, ◌-◌, ◌%◌, ◌^◌, ◌≤◌, ◌<◌, ◌≡◌, ◌≢◌, refl, sym, ap, ◌∙◌, ◌⊎◌, inl, inr, Bool, true, false,
  List, [], ◌∷◌, arith, lt→ltb, ◌==◌, ==→eq, Bool-cases,
}
use extent_based_fs.Base.Int.{ℤ, pos, minus_one, ◌+ℤ◌, ◌-ℤ◌}
use extent_based_fs.Types.{FsCtx, ok, update, inode_capacity, ok_value}
use extent_based_fs.Image.{Bytes, store8, set_dentry_ino, name_addr, str_eq}
use extent_based_fs.Image.Words.{set_dentry_ino_byte}
use extent_based_fs.Image.Names.{IsText}
use extent_based_fs.Dir.{dentry_addrs, inode_lookup}
use extent_based_fs.Dir.Lookup.{IsDir, first_with, has_name, ino_of, inode_lookup-first_with}
use extent_based_fs.Dir.Entries.{AllSlots, entries-AllSlots}
use extent_based_fs.Entry.{clear_entry}
use extent_based_fs.Entry.Fill.{IsName, dentry_ino_same, has_name_same}

abbrev pub clear_image : Bytes → ℕ → Bytes
clear_image img a = store8 (set_dentry_ino img a minus_one) (name_addr a) 0

-- The state once the entry at offset `a` of directory `d` is emptied.
abbrev pub cleared : FsCtx → (d a : ℕ) → (drop_dir : ℤ) → FsCtx
cleared s d a drop_dir = record s {
  image = clear_image s.image a;
  itable = update s.itable d (record (s.itable d) {
    i_mtime = s.clock s.ticks;
    num_entries = ((s.itable d).num_entries + 2 ^ 32 - 1) % 2 ^ 32;
    links = ((s.itable d).links + 2 ^ 32 - 1) % 2 ^ 32;
  });
  ticks = s.ticks + 1;
  sb = record s.sb {
    sb_used_dirs_count = s.sb.sb_used_dirs_count -ℤ drop_dir;
    sb_free_blocks_count = s.sb.sb_free_blocks_count +ℤ pos 1;
  };
}

pub clear_entry-cleared :
    (s : FsCtx) (d a : ℕ) (drop_dir : ℤ)
    → d < inode_capacity s.sb
    → clear_entry d a drop_dir s ≡ ok tt (cleared s d a drop_dir)
unfolding clear_entry
clear_entry-cleared s d a drop_dir h = rw (lt→ltb d _ h, lt→ltb d _ h) refl

pub cleared-IsDir :
    {s : FsCtx} {d : ℕ} {es : List ℕ} (a : ℕ) (drop_dir : ℤ)
    → IsDir s d es
    → IsDir (cleared s d a drop_dir) d es
unfolding dentry_addrs
cleared-IsDir {s} {d} a drop_dir is = record {
  in_table = is.in_table;
  entries = ground (arith, is.entries);
}

-- A name field holds one text only.
pub str_eq_unique :
    (img : Bytes) (x : ℕ) (s t : List ℕ)
    → IsText s
    → IsText t
    → str_eq img x s ≡ true
    → str_eq img x t ≡ true
    → s ≡ t
unfolding str_eq
str_eq_unique img x [] [] p q h k = refl
str_eq_unique img x [] (d ∷ ds) p q h k = ground arith
str_eq_unique img x (c ∷ cs) [] p q h k = ground arith
str_eq_unique img x (c ∷ cs) (d ∷ ds) p q h k =
    ground (arith, str_eq_unique img (x + 1) cs ds p.2 q.2)

-- `a` is the only offset that passes the test.
abbrev pub OnlyAt : (ℕ → Bool) → ℕ → List ℕ → Type 0
OnlyAt test a [] = Unit
OnlyAt test a (b ∷ es) = (b ≢ a → test b ≡ false) × OnlyAt test a es

module _ (img : Bytes) (a : ℕ) (aligned : a % 256 ≡ 0) where
  pub clear_byte : (x : ℕ) → (x < a) ⊎ (a + 256 ≤ x) → clear_image img a x ≡ img x
  unfolding store8
  clear_byte x h = ground (arith, set_dentry_ino_byte img a minus_one x)

  outside :
      (b : ℕ) → b % 256 ≡ 0 → a ≢ b → (x : ℕ) → b ≤ x → x < b + 256 → clear_image img a x ≡ img x
  outside b q ne x lo hi = clear_byte x (omega arith)

  hidden :
      (token : List ℕ) → IsText token → token ≢ [] → has_name (clear_image img a) token a ≡ false
  unfolding str_eq store8
  hidden [] text ne = absurd (ne refl)
  hidden (c ∷ cs) text ne = ground (arith, text.0)

  gone :
      (size : ℕ) (es name : List ℕ)
      → AllSlots size es
      → IsName name
      → name ≢ []
      → OnlyAt (has_name img name) a es
      → ino_of (clear_image img a) (first_with (has_name (clear_image img a) name) es) ≡ minus_one
  unfolding first_with
  gone size [] name slots is ne only = refl
  gone size (b ∷ es) name slots is ne only = elim (Bool-cases (b == a)) [
    | inl e ↦ rw (==→eq b a e, hidden name is.text ne) (gone size es name slots.1 is ne only.1)
    | inr e ↦
        let apart : b ≢ a = ground arith in
        rw
          (
            has_name_same _ _ b (outside b slots.0.0 (λ q. apart (sym q))) name is.short,
            only.0 apart,
          )
          (gone size es name slots.1 is ne only.1)
  ]

  kept :
      (size : ℕ) (es name other : List ℕ)
      → AllSlots size es
      → IsName name
      → has_name img name a ≡ true
      → IsName other
      → other ≢ name
      → other ≢ []
      → ino_of (clear_image img a) (first_with (has_name (clear_image img a) other) es)
        ≡ ino_of img (first_with (has_name img other) es)
  unfolding first_with
  kept size [] name other slots is named ok' ne nonempty = refl
  kept size (b ∷ es) name other slots is named ok' ne nonempty = elim (Bool-cases (b == a)) [
    | inl e ↦
        rw (==→eq b a e, hidden other ok'.text nonempty, unnamed)
          (kept size es name other slots.1 is named ok' ne nonempty)
    | inr e ↦
        let apart : a ≢ b = ground arith in
        rw (has_name_same _ _ b (outside b slots.0.0 apart) other ok'.short)
          (elim (Bool-cases (has_name img other b)) [
            | inl h ↦ rw h (dentry_ino_same _ _ b (outside b slots.0.0 apart))
            | inr h ↦ rw h (kept size es name other slots.1 is named ok' ne nonempty)
          ])
  ]
    where
      unnamed : has_name img other a ≡ false
      unnamed = elim (Bool-cases (has_name img other a)) [
        | inl h ↦ absurd (ne (str_eq_unique img (name_addr a) other name ok'.text is.text h named))
        | inr h ↦ h
      ]

module _ {s : FsCtx} {d : ℕ} {es : List ℕ} (a : ℕ) (name : List ℕ) (drop_dir : ℤ)
    (is : IsDir s d es) (aligned : a % 256 ≡ 0) (ok_name : IsName name) where
  -- The name is gone.
  pub lookup-cleared :
      name ≢ []
      → OnlyAt (has_name s.image name) a es
      → inode_lookup (pos d) name (cleared s d a drop_dir) ≡ ok minus_one (cleared s d a drop_dir)
  lookup-cleared ne only =
      inode_lookup-first_with name (cleared-IsDir a drop_dir is)
      ∙ ap (λ r. ok r (cleared s d a drop_dir))
          (gone s.image a aligned s.size es name (entries-AllSlots s (s.itable d) es is.entries)
            ok_name ne only)

  -- Every other name leads where it did before.
  pub lookup-cleared_other :
      has_name s.image name a ≡ true
      → (other : List ℕ) (r : ℤ) → IsName other
      → other ≢ name
      → other ≢ []
      → inode_lookup (pos d) other s ≡ ok r s
      → inode_lookup (pos d) other (cleared s d a drop_dir) ≡ ok r (cleared s d a drop_dir)
  lookup-cleared_other named other r ok_other ne nonempty before =
      inode_lookup-first_with other (cleared-IsDir a drop_dir is)
      ∙ ap (λ r. ok r (cleared s d a drop_dir))
          (kept s.image a aligned s.size es name other
              (entries-AllSlots s (s.itable d) es is.entries) ok_name named ok_other ne nonempty
            ∙ ok_value (sym (inode_lookup-first_with other is) ∙ before))
