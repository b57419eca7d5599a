-- ===== src/Alloc/Extents.antt =====
-- What allocate_data_blks of a1b/a1fs_helper.c does for file data, on every branch.
use extent_based_fs.Base.{
  ℕ, ◌+◌, ◌≤◌, ◌<◌, ◌≡◌, refl, ap, ◌∙◌, fun_ext, inl, inr, true, false, arith, lt→ltb, eq→==,
  Bool-cases,
}
use extent_based_fs.Base.Int.{pos, minus_one, ◌+ℤ◌}
use extent_based_fs.Types.{FsCtx, Inode, ok, fault, update, inode_capacity, inode_extents}
use extent_based_fs.Alloc.{any_used, set_extent, set_db_extent, new_extent, allocate_data_blks}
use extent_based_fs.Alloc.Neighbours.{HasExtents, UsedIn, any_used_iff, block_after, attachable_lem}

-- The inode with `n` more blocks in its extent `k`.
abbrev pub widened : FsCtx → (i k n : ℕ) → Inode
widened s i k n = record (s.itable i) {
  i_extent =
      update (s.itable i).i_extent k
        (record ((s.itable i).i_extent k) { count = ((s.itable i).i_extent k).count +ℤ pos n });
  i_mtime = s.clock s.ticks;
}

-- The inode with a new last extent, number `k`, of the `n` blocks from `first` on.
abbrev pub extended : FsCtx → (i k first n : ℕ) → Inode
extended s i k first n = record (s.itable i) {
  last_used_extent = pos k;
  i_extent = update (s.itable i).i_extent k (record { start = first; count = pos n; size = pos 0 });
  i_mtime = s.clock s.ticks;
}

-- The state with inode `i` replaced, one reading of the clock later.
abbrev pub with_inode : FsCtx → (i : ℕ) → Inode → FsCtx
with_inode s i v = record s { itable = update s.itable i v; ticks = s.ticks + 1 }

update-update :
    {A : Type 0} (f : ℕ → A) (i : ℕ) (v w : A) → update (update f i v) i w ≡ update f i w
update-update f i v w = fun_ext λ j. ground arith

new_extent-extended :
    (s : FsCtx) (i k first n : ℕ)
    → i < inode_capacity s.sb
    → k < inode_extents
    → new_extent 0 i (pos k) first (pos n) s
      ≡ ok (pos first) (with_inode s i (extended s i k first n))
unfolding new_extent set_extent set_db_extent
new_extent-extended s i k first n p q =
    rw
      (
        lt→ltb i _ p,
        lt→ltb i _ p,
        lt→ltb k inode_extents q,
        lt→ltb i _ p,
        lt→ltb i _ p,
        eq→== i i refl,
      )
      (ap (λ t. ok (pos first) (record s { itable = t; ticks = s.ticks + 1 }))
        (update-update s.itable i _ _))

new_extent-fault :
    (s : FsCtx) (i k first n : ℕ)
    → inode_extents ≤ k
    → new_extent 0 i (pos k) first (pos n) s ≡ fault
unfolding new_extent
new_extent-fault s i k first n q = ground arith

set_extent-widened :
    (s : FsCtx) (i k start n : ℕ)
    → i < inode_capacity s.sb
    → set_extent 0 i k start (pos n) false s ≡ ok (pos start) (with_inode s i (widened s i k n))
unfolding set_extent set_db_extent
set_extent-widened s i k start n p = rw (lt→ltb i _ p, lt→ltb i _ p) refl

add_one : (k : ℕ) → pos k +ℤ pos 1 ≡ pos (k + 1)
unfolding ◌+ℤ◌
add_one k = ground arith

-- Which call the branches come to.
module _ (s : FsCtx) (i k first n : ℕ) (h : HasExtents s i k) where
  widens :
      any_used s.block_bits n (block_after s i k) ≡ true
      → allocate_data_blks i first (pos n) 0 s
        ≡ set_extent 0 i k (block_after s i k) (pos n) false s
  unfolding allocate_data_blks
  widens used =
      rw
        (lt→ltb i _ h.in_table, h.last, attachable_lem n h, used, lt→ltb k inode_extents h.in_array)
        refl

  extends :
      any_used s.block_bits n (block_after s i k) ≡ false
      → allocate_data_blks i first (pos n) 0 s ≡ new_extent 0 i (pos (k + 1)) first (pos n) s
  unfolding allocate_data_blks
  extends free = rw (lt→ltb i _ h.in_table, h.last, attachable_lem n h, free, add_one k) refl

  not_any :
      ¬ UsedIn s.block_bits (block_after s i k) n
      → any_used s.block_bits n (block_after s i k) ≡ false
  not_any free = elim (Bool-cases (any_used s.block_bits n (block_after s i k))) [
    | inl e ↦ absurd (free ((any_used_iff s.block_bits n (block_after s i k)).0 e))
    | inr e ↦ e
  ]

first_extent :
    (s : FsCtx) (i first n : ℕ)
    → i < inode_capacity s.sb
    → (s.itable i).last_used_extent ≡ minus_one
    → allocate_data_blks i first (pos n) 0 s ≡ new_extent 0 i (pos 0) first (pos n) s
unfolding allocate_data_blks
first_extent s i first n p none = rw (lt→ltb i _ p, none) refl

-- With an inode in the table and file data to place: an inode without extents gets extent 0 on
-- the given blocks. An inode with extents gets its last extent widened if one of the blocks behind
-- that is in use, and otherwise a further extent on the given blocks, or a fault when the array
-- is full.
pub allocate_data_blks-data :
    {s : FsCtx} (i first n : ℕ)
    → i < inode_capacity s.sb
    → ((s.itable i).last_used_extent ≡ minus_one
        → allocate_data_blks i first (pos n) 0 s
          ≡ ok (pos first) (with_inode s i (extended s i 0 first n)))
      × ((k : ℕ)
          → HasExtents s i k
          → (UsedIn s.block_bits (block_after s i k) n
              → allocate_data_blks i first (pos n) 0 s
                ≡ ok (pos (block_after s i k)) (with_inode s i (widened s i k n)))
            × ((¬ UsedIn s.block_bits (block_after s i k) n)
                → k + 1 < inode_extents
                → allocate_data_blks i first (pos n) 0 s
                  ≡ ok (pos first) (with_inode s i (extended s i (k + 1) first n)))
            × ((¬ UsedIn s.block_bits (block_after s i k) n)
                → k + 1 ≡ inode_extents
                → allocate_data_blks i first (pos n) 0 s ≡ fault))
allocate_data_blks-data {s} i first n p = (
  λ none. first_extent s i first n p none ∙ new_extent-extended s i 0 first n p (omega arith),
  λ k h. (
    λ used.
        widens s i k first n h ((any_used_iff s.block_bits n (block_after s i k)).1 used)
        ∙ set_extent-widened s i k (block_after s i k) n p,
    λ free room.
        extends s i k first n h (not_any s i k first n h free)
        ∙ new_extent-extended s i (k + 1) first n p room,
    λ free full.
        extends s i k first n h (not_any s i k first n h free)
        ∙ new_extent-fault s i (k + 1) first n (omega arith),
  ),
)
