-- ===== src/Alloc/Emptied.antt =====
-- make_dentry_block of a1b/a1fs_helper.c for a directory that has one block, when the block
-- behind it is in use: set_dirb_extent then clears the directory's first block.
use extent_based_fs.Base.{
  ℕ, zero, suc, ◌+◌, ◌*◌, ◌%◌, ◌≤◌, ◌≡◌, refl, sym, ap, ◌∙◌, inl, inr, true, false, List, [], ◌++◌,
  map, map-append, append-nil, Option, none, some, arith, length, lt→ltb, le→ltb, eq→==, Bool-cases,
}
use extent_based_fs.Base.Int.{pos, minus_one, ◌+ℤ◌, ◌-ℤ◌}
use extent_based_fs.Types.{FsCtx, ok, update, a1fs_block_size, ok_value}
use extent_based_fs.Image.{Bytes, set_dentry_ino, name_addr}
use extent_based_fs.Image.Words.{dentry_ino-set_self, dentry_ino_ext}
use extent_based_fs.Image.Names.{str_eq_ext}
use extent_based_fs.Bitmap.{check_bit_usage, flip_bit, set_bits, set_block_bits, get_available_bit}
use extent_based_fs.Bitmap.Toggle.{IsBytes, check-flip_bit}
use extent_based_fs.Dir.{
  dentry_addrs, block_addr, block_entries, extent_entries, inode_entries, inode_lookup,
}
use extent_based_fs.Dir.Lookup.{IsDir, first_with, has_name, ino_of, inode_lookup-first_with}
use extent_based_fs.Alloc.{
  any_used, make_dentry_block, allocate_data_blks, set_extent, set_dirb_extent, clear_inos,
}
use extent_based_fs.Alloc.Neighbours.{HasExtents, last_extent, block_after, attachable_lem}
use extent_based_fs.Alloc.DirBlock.{
  entry_offsets, block_entries-inside, clear_inos_outside, clear_inos_name,
}

-- The directory's entries: those of one block at `a`, then `rest`. An entry that a lookup found
-- has the inode number -1 once the block is cleared; `cur` shows the names that `img` shows.
found_empty :
    (left a b : ℕ) (img cur : Bytes) (name rest : List ℕ)
    → a % 256 ≡ 0
    → length name ≤ 251
    → ((x : ℕ) → 4 ≤ x % 256 → cur x ≡ img x)
    → first_with (has_name img name) (entry_offsets left a) ≡ some b
    → ino_of
        (clear_inos left a cur)
        (first_with (has_name (clear_inos left a cur) name) (entry_offsets left a ++ rest))
      ≡ minus_one
unfolding first_with entry_offsets clear_inos
found_empty zero a b img cur name rest aligned short names hit = cc
found_empty (suc left) a b img cur name rest aligned short names hit =
    rw same (elim (Bool-cases (has_name img name a)) [
      | inl here ↦ rw here (
          dentry_ino_ext cleared next a
            (λ x p q. clear_inos_outside left (a + 256) next x (inl (omega arith)))
          ∙ dentry_ino-set_self cur a minus_one (omega arith))
      | inr other ↦ rw other (
          found_empty left (a + 256) b img next name rest (omega arith) short next_names
            (rw other at hit))
    ])
  where
    next : Bytes
    next = set_dentry_ino cur a minus_one

    cleared : Bytes
    cleared = clear_inos left (a + 256) next

    next_names : (x : ℕ) → 4 ≤ x % 256 → next x ≡ img x
    next_names x h = clear_inos_name 1 a cur x aligned h ∙ names x h

    same : has_name cleared name a ≡ has_name img name a
    same = str_eq_ext cleared img (name_addr a) name (λ x p q.
        clear_inos_name left (a + 256) next x (omega arith) (omega arith)
        ∙ next_names x (omega arith))

found_some :
    (img : Bytes) (r : Option ℕ) (ino : ℕ) → ino_of img r ≡ pos ino → (b : ℕ) × (r ≡ some b)
found_some img none ino e = cc
found_some img (some b) ino e = (b, refl)

joined :
    (size left a b : ℕ)
    → a + 256 * left ≤ size
    → b + 256 * left ≤ size
    → block_entries size left a ++ (block_entries size left b ++ []) ++ []
      ≡ map some (entry_offsets left a ++ entry_offsets left b)
joined size left a b h k =
    rw
      (
        block_entries-inside size left a h,
        block_entries-inside size left b k,
        map-append some (entry_offsets left a) (entry_offsets left b),
        append-nil (map some (entry_offsets left b)),
        append-nil (map some (entry_offsets left a) ++ map some (entry_offsets left b)),
      )
      refl

module _ (s : FsCtx) (d : ℕ) (h : HasExtents s d 0) (one : (last_extent s d 0).count ≡ pos 1) where
  abbrev block : ℕ
  block = (last_extent s d 0).start

  abbrev at_block : ℕ
  at_block = block_addr s.sb.sb_first_data_block block

  abbrev at_next : ℕ
  at_next = block_addr s.sb.sb_first_data_block (block + 1)

  -- The state once the last extent is widened by a block, without a new free count and bitmap.
  abbrev emptied : FsCtx
  emptied = record s {
    image = clear_inos 16 at_block s.image;
    itable = update s.itable d (record (s.itable d) {
      i_extent = update (s.itable d).i_extent 0 (record (last_extent s d 0) { count = pos 2 });
      i_mtime = s.clock s.ticks;
    });
    ticks = s.ticks + 1;
    sb = record s.sb { sb_free_blocks_count = s.sb.sb_free_blocks_count -ℤ pos 1 };
    block_bits = flip_bit s.block_bits (block + 1);
  }

  behind : block_after s d 0 ≡ block + 1
  behind = rw one refl

  make_dentry_block-emptied :
      (k : ℕ)
      → at_next + a1fs_block_size ≤ s.size
      → get_available_bit s.sb s.block_bits 1 (pos 1) ≡ pos k
      → check_bit_usage s.block_bits (block + 1) ≡ true
      → make_dentry_block d s ≡ ok (pos 0) emptied
  unfolding make_dentry_block allocate_data_blks set_extent set_dirb_extent set_bits set_block_bits
      any_used ◌+ℤ◌
  make_dentry_block-emptied k inside found used =
      rw
        (
          found,
          lt→ltb d _ h.in_table,
          h.last,
          attachable_lem 1 h,
          behind,
          used,
          lt→ltb d _ h.in_table,
          one,
          le→ltb s.size (at_block + a1fs_block_size) (omega arith),
          lt→ltb d _ h.in_table,
          h.last,
        )
        refl

  abbrev first_entries : List ℕ
  first_entries = entry_offsets 16 at_block

  entries_before : at_block + a1fs_block_size ≤ s.size → IsDir s d first_entries
  unfolding dentry_addrs inode_entries extent_entries
  entries_before inside = record {
    in_table = h.in_table;
    entries = rw (h.last, one, block_entries-inside s.size 16 at_block (omega arith)) refl;
  }

  entries_after :
      at_next + a1fs_block_size ≤ s.size
      → IsDir emptied d (first_entries ++ entry_offsets 16 at_next)
  unfolding dentry_addrs inode_entries extent_entries
  entries_after inside = record {
    in_table = h.in_table;
    entries =
        rw (eq→== d d refl, h.last) (joined s.size 16 at_block at_next (omega arith) (omega arith));
  }

  -- For a directory with one block, where the block behind it is in use and there is another free
  -- block: make_dentry_block returns 0, takes a block off the free count, marks the block behind
  -- as free, and a name that led to an inode before is not found any more.
  pub make_dentry_block-empties :
      (k ino : ℕ) (name : List ℕ)
      → IsBytes s.block_bits
      → at_next + a1fs_block_size ≤ s.size
      → get_available_bit s.sb s.block_bits 1 (pos 1) ≡ pos k
      → check_bit_usage s.block_bits (block + 1) ≡ true
      → length name ≤ 251
      → inode_lookup (pos d) name s ≡ ok (pos ino) s
      → (u : FsCtx) × (make_dentry_block d s ≡ ok (pos 0) u)
        × (inode_lookup (pos d) name u ≡ ok minus_one u)
        × (check_bit_usage u.block_bits (block + 1) ≡ false)
        × (u.sb ≡ record s.sb { sb_free_blocks_count = s.sb.sb_free_blocks_count -ℤ pos 1 })
  make_dentry_block-empties k ino name bytes inside found used short there = (
    emptied,
    make_dentry_block-emptied k inside found used,
    inode_lookup-first_with name (entries_after inside) ∙ ap (λ r. ok r emptied) lost,
    check-flip_bit (block + 1) (block + 1) bytes
        ∙ rw (eq→== (block + 1) (block + 1) refl, used) refl,
    refl,
  )
    where
      seen : ino_of s.image (first_with (has_name s.image name) first_entries) ≡ pos ino
      seen = ok_value (sym (inode_lookup-first_with name (entries_before (omega arith))) ∙ there)

      hit : (b : ℕ) × (first_with (has_name s.image name) first_entries ≡ some b)
      hit = found_some s.image (first_with (has_name s.image name) first_entries) ino seen

      lost :
          ino_of emptied.image
            (first_with (has_name emptied.image name) (first_entries ++ entry_offsets 16 at_next))
          ≡ minus_one
      lost =
          found_empty 16 at_block hit.0 s.image s.image name (entry_offsets 16 at_next)
            (omega arith) short (λ x p. refl) hit.1
