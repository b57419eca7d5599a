-- ===== src/Bitmap/Blocks.antt =====
-- What get_available_bit of a1b/util.h finds for data blocks: first fit, and where it falls short.
use extent_based_fs.Base.{
  ℕ, ◌+◌, ◌-◌, ◌/◌, ◌≤◌, ◌<◌, ◌≡◌, ◌≢◌, true, false, refl, Bool-cases, arith, ◌⊎◌, ◌∙◌, inl, inr,
}
use extent_based_fs.Base.Int.{ℤ, pos, minus_one, ltb_ℤ}
use extent_based_fs.Types.{Superblock, Bitmap, a1fs_block_size}
use extent_based_fs.Bitmap.{
  check_bit_usage, block_scan, Scan, get_available_block, get_available_bit,
}
use extent_based_fs.Bitmap.FirstFit.{AllFree, AllUsed, NoRun, Searched, block_scan-Searched}

abbrev pub total_blocks : Superblock → ℕ
total_blocks sb = sb.size / a1fs_block_size

abbrev search_end : Superblock → Bitmap → ℕ → Scan
search_end sb b n =
    let first = sb.sb_first_empty_db in
    block_scan b (pos n) (total_blocks sb - 1 - first) first 0 first

-- `k` starts the first run of `n` free blocks that ends below the last block.
abbrev pub FirstRun : Superblock → Bitmap → (n k : ℕ) → Type 0
FirstRun sb b n k =
    (sb.sb_first_empty_db ≤ k)
    × (k + n < total_blocks sb - 1)
    × AllFree b k (k + n)
    × NoRun b n sb.sb_first_empty_db k

-- Each run of `n` blocks that ends below the last block has one that is in use.
abbrev pub NoRoom : Superblock → Bitmap → ℕ → Type 0
NoRoom sb b n =
    (s : ℕ)
    → sb.sb_first_empty_db ≤ s
    → s + n < total_blocks sb - 1
    → (u : ℕ) × (s ≤ u) × (u < s + n) × (check_bit_usage b u ≡ true)

-- What a search for `n` blocks may return: the start of the first run, or -1 with the reason. The
-- count of free blocks is a field of the superblock.
abbrev pub BlockChoice : Superblock → Bitmap → (n : ℕ) → ℤ → Type 0
BlockChoice sb b n r =
    ((ltb_ℤ sb.sb_free_blocks_count (pos n) ≡ false) × ((k : ℕ) × (r ≡ pos k) × FirstRun sb b n k))
    ⊎ ((r ≡ minus_one) × ((ltb_ℤ sb.sb_free_blocks_count (pos n) ≡ true) ⊎ NoRoom sb b n))

-- What a search for a single block may return: -1 only for a count of free blocks below 1; else the
-- first free block, or the last block if no block before it is free.
abbrev pub SingleChoice : Superblock → Bitmap → ℤ → Type 0
SingleChoice sb b r =
    ((ltb_ℤ sb.sb_free_blocks_count (pos 1) ≡ true) × (r ≡ minus_one))
    ⊎ ((ltb_ℤ sb.sb_free_blocks_count (pos 1) ≡ false)
        × ((k : ℕ) × (r ≡ pos k)
            × (sb.sb_first_empty_db ≤ k)
            × (k ≤ total_blocks sb - 1)
            × AllUsed b sb.sb_first_empty_db k
            × ((k < total_blocks sb - 1) → check_bit_usage b k ≡ false)))

module _ (sb : Superblock) (b : Bitmap) (inside : sb.sb_first_empty_db < total_blocks sb) where
  search_end-Searched :
      (n : ℕ)
      → let end = search_end sb b n in
        Searched b n sb.sb_first_empty_db end.i end.avail
        × ((end.i ≡ total_blocks sb - 1)
            ⊎ ((end.i < total_blocks sb - 1) × (end.i ≡ end.avail + n)))
  search_end-Searched n =
      block_scan-Searched b n (total_blocks sb - 1 - sb.sb_first_empty_db) sb.sb_first_empty_db 0
        sb.sb_first_empty_db sb.sb_first_empty_db (total_blocks sb - 1) (omega arith) (omega arith)
        (record {
          starts = omega arith;
          ordered = omega arith;
          short = omega arith;
          free = λ j p q. absurd (omega arith);
          earlier = λ s p q. absurd (omega arith);
        })

  -- The value that is returned, read off the end of the search.
  found_lem :
      (n k : ℕ)
      → n ≢ 1
      → get_available_block sb b (pos n) ≡ pos k
      → ((search_end sb b n).i ≢ total_blocks sb - 1) × ((search_end sb b n).avail ≡ k)
  unfolding get_available_block
  found_lem n k ne e = ground arith

  none_lem :
      (n : ℕ)
      → get_available_block sb b (pos n) ≡ minus_one
      → (search_end sb b n).i ≡ total_blocks sb - 1
  unfolding get_available_block
  none_lem n e = ground arith

  -- A search for `n ≠ 1` blocks that returns `k` has found the first run of `n` free blocks, and
  -- the run ends below `max_index`.
  pub get_available_block-first_fit :
      (n k : ℕ) → n ≢ 1 → get_available_block sb b (pos n) ≡ pos k → FirstRun sb b n k
  get_available_block-first_fit n k ne e =
      let (s, ends) = search_end-Searched n in
      elim ends [
        | inl top ↦ absurd ((found_lem n k ne e).0 top)
        | inr (below, full) ↦
            let at : (search_end sb b n).avail ≡ k = (found_lem n k ne e).1 in
            rw (← at) (s.starts, omega (arith), λ j p q. s.free j p (omega arith), s.earlier)
      ]

  -- A search for `n ≠ 1` blocks that returns -1 leaves no run of `n` free blocks below `max_index`.
  pub get_available_block-none :
      (n : ℕ) → n ≢ 1 → get_available_block sb b (pos n) ≡ minus_one → NoRoom sb b n
  get_available_block-none n ne e s p q =
      let end : Scan = search_end sb b n in
      let found = (search_end-Searched n).0 in
      found.earlier s p (omega (arith, none_lem n e, found.short))

  -- Behind the test of the count of free blocks.
  counted_search :
      (n : ℕ)
      → ltb_ℤ sb.sb_free_blocks_count (pos n) ≡ false
      → get_available_bit sb b 1 (pos n) ≡ get_available_block sb b (pos n)
  unfolding get_available_bit
  counted_search n enough = rw enough refl

  too_few :
      (n : ℕ)
      → ltb_ℤ sb.sb_free_blocks_count (pos n) ≡ true
      → get_available_bit sb b 1 (pos n) ≡ minus_one
  unfolding get_available_bit
  too_few n few = rw few refl

  used_before : AllUsed b sb.sb_first_empty_db (search_end sb b 1).avail
  used_before j p q =
      let (u, lo, hi, used) = (search_end-Searched 1).0.earlier j p q in
      let same : u ≡ j = omega arith in rw same at used

  -- Behind the test of the count, a search for a single block does not return -1.
  pub get_available_block_single :
      (k : ℕ) × (get_available_block sb b (pos 1) ≡ pos k)
      × (sb.sb_first_empty_db ≤ k)
      × (k ≤ total_blocks sb - 1)
      × AllUsed b sb.sb_first_empty_db k
      × ((k < total_blocks sb - 1) → check_bit_usage b k ≡ false)
  unfolding get_available_block
  get_available_block_single =
      let (s, ends) = search_end-Searched 1 in
      let end : Scan = search_end sb b 1 in
      (
        end.avail,
        ground arith,
        s.starts,
        ground (arith, s.ordered),
        λ j p q. used_before j p q,
        λ below. s.free end.avail (omega arith) (omega arith),
      )

  -- Where `sb_first_empty_db`, at which the search starts, is a block of the image, a search for a
  -- single block returns -1 exactly when fewer than 1 blocks are counted as free. Otherwise it
  -- returns the first free block before the last one, and the last block, in use or not, when
  -- there is none.
  pub get_available_bit-SingleChoice : SingleChoice sb b (get_available_bit sb b 1 (pos 1))
  get_available_bit-SingleChoice = elim (Bool-cases (ltb_ℤ sb.sb_free_blocks_count (pos 1))) [
    | inl few ↦ inl (few, too_few 1 few)
    | inr enough ↦
        let (k, e, lo, hi, used, free) = get_available_block_single in
        inr (enough, (k, counted_search 1 enough ∙ e, lo, hi, used, free))
  ]
