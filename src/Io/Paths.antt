-- ===== src/Io/Paths.antt =====
-- Paths whose directories have all their entries outside of the bytes of the image that a write
-- changes lead where they did.
use extent_based_fs.Base.{
  ℕ, ◌+◌, ◌≤◌, ◌<◌, ◌≡◌, refl, sym, ap, ◌∙◌, ◌⊎◌, inl, inr, List, [], ◌∷◌, arith, length,
  Bool-cases,
}
use extent_based_fs.Base.Int.{ℤ, pos}
use extent_based_fs.Types.{FsCtx, ok, ok_value}
use extent_based_fs.Image.{Bytes}
use extent_based_fs.Dir.{dentry_addrs, inode_lookup}
use extent_based_fs.Dir.Lookup.{IsDir, first_with, has_name, ino_of, inode_lookup-first_with}
use extent_based_fs.Dir.Resolve.{Resolves, here, step}
use extent_based_fs.Entry.Fill.{dentry_ino_same, has_name_same}

-- None of the entries has a byte from `lo` on and before `hi`.
abbrev pub AllOutside : (lo hi : ℕ) → List ℕ → Type 0
AllOutside lo hi [] = Unit
AllOutside lo hi (b ∷ es) = ((b + 256 ≤ lo) ⊎ (hi ≤ b)) × AllOutside lo hi es

-- A lookup of `token` in such a directory.
pub record LooksOutside (s : FsCtx) (lo hi : ℕ) (curr : ℤ) (token : List ℕ) : Type 0 where
  pub dir : ℕ
  pub entries : List ℕ
  pub at : curr ≡ pos dir
  pub is_dir : IsDir s dir entries
  pub outside : AllOutside lo hi entries
  pub short : length token ≤ 251

abbrev pub WalksOutside :
    (lo hi : ℕ) {s : FsCtx} {par curr par' curr' : ℤ} {tokens : List (List ℕ)}
    → Resolves s par curr tokens par' curr'
    → Type 0
WalksOutside lo hi here = Unit
WalksOutside lo hi {s} (step {curr} {token} e ne r) =
    LooksOutside s lo hi curr token × WalksOutside lo hi r

-- `img` has the bytes of the image outside of the range.
abbrev pub SameOutside : (lo hi : ℕ) → FsCtx → Bytes → Type 0
SameOutside lo hi s img = (x : ℕ) → (x < lo) ⊎ (hi ≤ x) → img x ≡ s.image x

module _ (s : FsCtx) (lo hi : ℕ) (img : Bytes) (same : SameOutside lo hi s img) where
  same_lookup :
      (es token : List ℕ)
      → AllOutside lo hi es
      → length token ≤ 251
      → ino_of img (first_with (has_name img token) es)
        ≡ ino_of s.image (first_with (has_name s.image token) es)
  unfolding first_with
  same_lookup [] token out short = refl
  same_lookup (b ∷ es) token out short =
      rw (has_name_same img s.image b (λ x p q. same x (omega (arith, out.0))) token short)
        (elim (Bool-cases (has_name s.image token b)) [
          | inl h ↦ rw h (dentry_ino_same img s.image b (λ x p q. same x (omega (arith, out.0))))
          | inr h ↦ rw h (same_lookup es token out.1 short)
        ])

  same-IsDir : {c : ℕ} {es : List ℕ} → IsDir s c es → IsDir (record s { image = img }) c es
  unfolding dentry_addrs
  same-IsDir is = record { in_table = is.in_table; entries = is.entries }

  lookup_outside :
      {curr r : ℤ} {token : List ℕ}
      → LooksOutside s lo hi curr token
      → inode_lookup curr token s ≡ ok r s
      → inode_lookup curr token (record s { image = img }) ≡ ok r (record s { image = img })
  lookup_outside {token} l before = rw l.at (
      inode_lookup-first_with token (same-IsDir l.is_dir)
      ∙ ap (λ z. ok z (record s { image = img }))
          (same_lookup l.entries token l.outside l.short
            ∙ ok_value (sym (inode_lookup-first_with token l.is_dir) ∙ rw l.at at before)))

  pub Resolves-outside :
      {par curr par' curr' : ℤ} {tokens : List (List ℕ)} (r : Resolves s par curr tokens par' curr')
      → WalksOutside lo hi r
      → Resolves (record s { image = img }) par curr tokens par' curr'
  Resolves-outside here w = here
  Resolves-outside (step e ne r) w = step (lookup_outside w.0 e) ne (Resolves-outside r w.1)
