-- ===== src/Start/Mapped.antt =====
-- map_file of a1b/map.c for the block size of a1fs.
use extent_based_fs.Base.{
  ℕ, ◌≢◌, ◌⊎◌, inl, inr, Bool-cases, ==→eq, ◌%◌, ◌≡◌, refl, true, false, List, Option, none, some,
  arith, ◌==◌,
}
use extent_based_fs.Base.Int.{ℤ, is_neg}
use extent_based_fs.Types.{a1fs_block_size}
use extent_based_fs.Start.{Host, Mapping, null, mapped, map_file, map_size}
use extent_based_fs.Start.Align.{is_aligned-pow}

-- mmap returns the address of a page, and a page is 4096 bytes long.
abbrev pub PagesAligned : Host → Type 0
PagesAligned host = (fd : ℤ) (size addr : ℕ) → host.mmap fd size ≡ some addr → addr % 4096 ≡ 0

-- What the calls of `host` on the image make of the mapping.
pub data Maps (host : Host) (path : List ℕ) : Mapping → Type 0 where
  unopened : is_neg (host.open_file path) ≡ true → Maps host path null
  unsized :
      is_neg (host.open_file path) ≡ false
      → host.fstat (host.open_file path) ≡ none
      → Maps host path null
  unfit :
      (size : ℕ)
      → is_neg (host.open_file path) ≡ false
      → host.fstat (host.open_file path) ≡ some size
      → (size ≡ 0) ⊎ (size % 4096 ≢ 0)
      → Maps host path null
  unmapped :
      (size : ℕ)
      → is_neg (host.open_file path) ≡ false
      → host.fstat (host.open_file path) ≡ some size
      → size ≢ 0
      → size % 4096 ≡ 0
      → host.mmap (host.open_file path) size ≡ none
      → Maps host path null
  maps :
      (size addr : ℕ)
      → is_neg (host.open_file path) ≡ false
      → host.fstat (host.open_file path) ≡ some size
      → size ≢ 0
      → size % 4096 ≡ 0
      → host.mmap (host.open_file path) size ≡ some addr
      → Maps host path (mapped addr size)

Option-cases : {A : Type 0} (o : Option A) → (o ≡ none) ⊎ ((a : A) × (o ≡ some a))
Option-cases none = inl refl
Option-cases (some a) = inr (a, refl)

module _ (host : Host) (path : List ℕ) (pages : PagesAligned host) where
  map_size-Maps :
      (size : ℕ)
      → is_neg (host.open_file path) ≡ false
      → host.fstat (host.open_file path) ≡ some size
      → size ≢ 0
      → size % 4096 ≡ 0
      → Maps host path (map_size host (host.open_file path) 4096 size)
  map_size-Maps size opens sized some_bytes whole =
      elim (Option-cases (host.mmap (host.open_file path) size)) [
        | inl e ↦ rw (map_size, e) (unmapped size opens sized some_bytes whole e)
        | inr (addr, e) ↦
            rw
              (
                map_size,
                e,
                is_aligned-pow addr 12 (omega arith),
                pages (host.open_file path) size addr e,
              )
              (maps size addr opens sized some_bytes whole e)
      ]

  -- Whatever the system calls answer, an image that opens, whose size is a nonzero multiple of 4096
  -- and which is mapped gives its address and size, any other gives NULL, and the assert on the
  -- address does not fail, provided that mmap returns addresses of pages.
  pub map_file-Maps : Maps host path (map_file host path a1fs_block_size)
  unfolding map_file
  map_file-Maps = elim (Bool-cases (is_neg (host.open_file path))) [
    | inl fails ↦ rw fails (unopened fails)
    | inr opens ↦ elim (Option-cases (host.fstat (host.open_file path))) [
      | inl e ↦ rw (opens, e) (unsized opens e)
      | inr (size, sized) ↦ elim (Bool-cases (size == 0)) [
        | inl e ↦ rw (opens, sized, e) (unfit size opens sized (inl (==→eq size 0 e)))
        | inr ne ↦ elim (Bool-cases (size % 4096 == 0)) [
          | inl whole ↦
              rw (opens, sized, ne, whole)
                (map_size-Maps size opens sized (ground (arith, ne)) (==→eq (size % 4096) 0 whole))
          | inr ragged ↦
              rw (opens, sized, ne, ragged) (unfit size opens sized (inr (ground (arith, ragged))))
        ]
      ]
    ]
  ]
