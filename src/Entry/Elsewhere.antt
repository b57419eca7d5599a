-- ===== src/Entry/Elsewhere.antt =====
-- Lookups in another directory than the one that add_dentry of a1b/a1fs_helper.c fills an entry of.
use extent_based_fs.Base.{
  ℕ, ◌%◌, ◌≤◌, ◌≡◌, ◌≢◌, refl, sym, ap, ◌∙◌, inl, inr, List, [], ◌∷◌, arith, length, Bool-cases,
}
use extent_based_fs.Base.Int.{ℤ, pos}
use extent_based_fs.Types.{FsCtx, ok, ok_value}
use extent_based_fs.Image.{Bytes}
use extent_based_fs.Dir.{dentry_addrs, inode_lookup}
use extent_based_fs.Dir.Lookup.{IsDir, first_with, has_name, ino_of, inode_lookup-first_with}
use extent_based_fs.Dir.Entries.{AllSlots, entries-AllSlots}
use extent_based_fs.Entry.Fill.{IsName, entry_image, other-ino, other-name}
use extent_based_fs.Entry.Add.{filled}

-- `a` is none of the offsets.
abbrev pub Lacks : ℕ → List ℕ → Type 0
Lacks a [] = Unit
Lacks a (b ∷ es) = (a ≢ b) × Lacks a es

elsewhere :
    (img : Bytes) (a : ℕ) (name : List ℕ) (ino : ℤ)
    → IsName name
    → a % 256 ≡ 0
    → (size : ℕ) (es token : List ℕ) → AllSlots size es
    → Lacks a es
    → length token ≤ 251
    → ino_of
        (entry_image img a name ino)
        (first_with (has_name (entry_image img a name ino) token) es)
      ≡ ino_of img (first_with (has_name img token) es)
unfolding first_with
elsewhere img a name ino is aligned size [] token slots lacks short = refl
elsewhere img a name ino is aligned size (b ∷ es) token slots lacks short =
    rw (other-name img a name ino is b token aligned slots.0.0 lacks.0 short)
      (elim (Bool-cases (has_name img token b)) [
        | inl named ↦ rw named (other-ino img a name ino is b aligned slots.0.0 lacks.0)
        | inr unnamed ↦
            rw unnamed (elsewhere img a name ino is aligned size es token slots.1 lacks.1 short)
      ])

module _ {s : FsCtx} {c : ℕ} {es : List ℕ} (d ino : ℕ) (name : List ℕ) (a : ℕ) where
  pub filled-IsDir_other : c ≢ d → IsDir s c es → IsDir (filled s d ino name a) c es
  unfolding dentry_addrs
  filled-IsDir_other ne is = record { in_table = is.in_table; entries = ground (arith, is.entries) }

  pub lookup-filled_elsewhere :
      (token : List ℕ) {r : ℤ}
      → c ≢ d
      → IsDir s c es
      → Lacks a es
      → a % 256 ≡ 0
      → IsName name
      → length token ≤ 251
      → inode_lookup (pos c) token s ≡ ok r s
      → inode_lookup (pos c) token (filled s d ino name a) ≡ ok r (filled s d ino name a)
  lookup-filled_elsewhere token ne is lacks aligned ok_name short before =
      inode_lookup-first_with token (filled-IsDir_other ne is)
      ∙ ap (λ r. ok r (filled s d ino name a))
          (elsewhere s.image a name (pos ino) ok_name aligned s.size es token
              (entries-AllSlots s (s.itable c) es is.entries) lacks short
            ∙ ok_value (sym (inode_lookup-first_with token is) ∙ before))
