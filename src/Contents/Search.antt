-- ===== src/Contents/Search.antt =====
-- Which extent find_offset_extent of a1b/a1fs_helper.c finds for an offset in a file.
use extent_based_fs.Base.{
  ℕ, zero, suc, ◌+◌, ◌<◌, ◌≤◌, ◌≡◌, refl, ◌⊎◌, inl, inr, true, false, arith, ltb, lt→ltb, ◌==◌,
  ==→eq, Bool-cases,
}
use extent_based_fs.Base.Int.{ℤ, pos, eq_ℤ, ltb_ℤ, eq_ℤ→eq}
use extent_based_fs.Types.{FsCtx, Inode, Run, ok, fault, inode_capacity, inode_extents}
use extent_based_fs.Contents.{find_offset_from, find_offset_extent}

-- Extent `j` is the one to find: its recorded size is not below the offset, and that of every
-- extent before it is 0.
pub record Answers (inode : Inode) (offset j : ℕ) : Type 0 where
  pub in_array : j < inode_extents
  pub reaches : ltb_ℤ (inode.i_extent j).size (pos offset) ≡ false
  pub empty : (i : ℕ) → i < j → (inode.i_extent i).size ≡ pos 0

-- The outcome of a search: the extent to find, or a fault when there is none.
abbrev pub Search : Inode → (offset : ℕ) → FsCtx → Run ℤ → Type 0
Search inode offset s r =
    ((j : ℕ) × (r ≡ ok (pos j) s) × Answers inode offset j)
    ⊎ ((r ≡ fault) × ((j : ℕ) → ¬ Answers inode offset j))

module _ (inode : Inode) (offset : ℕ) (positive : 0 < offset) (s : FsCtx) where
  zero_below : (z : ℤ) → z ≡ pos 0 → ltb_ℤ z (pos offset) ≡ true
  zero_below z e = rw e (ground arith)

  -- The extents before `k` have size 0, so that none of them is to be found.
  from_on :
      (k j : ℕ)
      → ((i : ℕ) → i < k → (inode.i_extent i).size ≡ pos 0)
      → Answers inode offset j
      → k ≤ j
  from_on k j before a = elim (Bool-cases (ltb j k)) [
    | inl below ↦
        let contra = zero_below (inode.i_extent j).size (before j (ground arith)) in
        let reaches = a.reaches in absurd (cc)
    | inr above ↦ ground arith
  ]

  -- Nor is an extent behind one whose size is below the offset and not 0.
  passed :
      (j k : ℕ)
      → ((i : ℕ) → i < k → (inode.i_extent i).size ≡ pos 0)
      → ltb_ℤ (inode.i_extent k).size (pos offset) ≡ true
      → eq_ℤ (inode.i_extent k).size (pos 0) ≡ false
      → ¬ Answers inode offset j
  passed j k before small some a = elim (Bool-cases (j == k)) [
    | inl e ↦ let reaches = rw (==→eq j k e) at a.reaches in absurd cc
    | inr ne ↦
        let le = from_on k j before a in
        let e : (inode.i_extent k).size ≡ pos 0 = a.empty k (ground arith) in
        let none = rw e at some in absurd cc
  ]

  search :
      (left k : ℕ)
      → k + left ≡ inode_extents
      → ((i : ℕ) → i < k → (inode.i_extent i).size ≡ pos 0)
      → ((j : ℕ) × (find_offset_from inode left k (pos offset) s ≡ ok j s) × Answers inode offset j)
        ⊎ ((find_offset_from inode left k (pos offset) s ≡ fault)
            × ((j : ℕ) → ¬ Answers inode offset j))
  unfolding find_offset_from
  search zero k end before = inr (refl, λ j a. omega (arith, end, from_on k j before a, a.in_array))
  search (suc left) k end before = elim (Bool-cases (ltb_ℤ (inode.i_extent k).size (pos offset))) [
    | inr reaches ↦
        rw reaches
          (inl (k, refl, record { in_array = omega arith; reaches = reaches; empty = before }))
    | inl small ↦ elim (Bool-cases (eq_ℤ (inode.i_extent k).size (pos 0))) [
      | inl none ↦
          rw (small, none)
            (search left (k + 1) (omega arith) (λ i lt. elim (Bool-cases (i == k)) [
              | inl e ↦ rw (==→eq i k e) (eq_ℤ→eq (inode.i_extent k).size (pos 0) none)
              | inr ne ↦ before i (ground arith)
            ]))
      | inr some ↦ rw (small, some) (inr (refl, λ j a. passed j k before small some a))
    ]
  ]

-- For an inode of the table and an offset above 0, find_offset_extent finds an extent of the 12 whose
-- recorded size is not below the offset while that of every extent before it is 0, and changes
-- nothing; it strays exactly when there is no such extent.
pub find_offset_extent-Search :
    (s : FsCtx) (ino offset : ℕ)
    → ino < inode_capacity s.sb
    → 0 < offset
    → Search (s.itable ino) offset s (find_offset_extent ino (pos offset) s)
unfolding find_offset_extent
find_offset_extent-Search s ino offset in_table positive =
    elim (search (s.itable ino) offset positive s inode_extents 0 refl
      (λ i lt. absurd (omega (arith, lt)))) [
        | inl (j, e, a) ↦ inl (j, rw (not_zero, lt→ltb ino _ in_table, e) refl, a)
        | inr (e, none) ↦ inr (rw (not_zero, lt→ltb ino _ in_table, e) refl, none)
      ]
  where
    not_zero : (offset == 0) ≡ false
    not_zero = ground arith
