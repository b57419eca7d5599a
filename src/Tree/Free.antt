-- ===== src/Tree/Free.antt =====
-- The block of a file in a tree is given back, as in a1fs_truncate and a1fs_unlink of a1b/a1fs.c.
use extent_based_fs.Base.{
  ℕ, suc, ◌+◌, ◌-◌, ◌*◌, ◌%◌, ◌≤◌, ◌<◌, ◌≡◌, ◌≢◌, refl, sym, ap, ◌∙◌, ◌⊎◌, inl, inr, true, List, [],
  ◌∷◌, arith, ◌==◌, ==→eq, ne→==, Bool-cases,
}
use extent_based_fs.Base.Int.{pos, ◌+ℤ◌}
use extent_based_fs.Types.{FsCtx, Inode, update, a1fs_block_size}
use extent_based_fs.Image.{Bytes}
use extent_based_fs.Bitmap.{check_bit_usage, flip_bit}
use extent_based_fs.Bitmap.Toggle.{check-flip_bit, flip_bit-IsBytes}
use extent_based_fs.Bitmap.Count.{count_clear-clears}
use extent_based_fs.Dir.{block_addr}
use extent_based_fs.Dir.Entries.{AllSlots}
use extent_based_fs.Tree.{Node, Nodes, stored}
use extent_based_fs.Tree.Shape.{
  HasNodes, Stands, IsClean, LacksAll, InUse, InRegion, Each, block_of,
}
use extent_based_fs.Tree.Frames.{AllSame-refl}
use extent_based_fs.Tree.Inode.{LacksAll-nil}
use extent_based_fs.Tree.Change.{HasNodes-Becomes}
use extent_based_fs.Tree.Stored.{
  holds, file_addr, file_below, block_used, block_below, slot_outside,
}

-- The state with one more free block, and other inodes.
abbrev pub freed : FsCtx → (block : ℕ) → (ℕ → Inode) → FsCtx
freed s block itable = record s {
  sb = record s.sb { sb_free_blocks_count = s.sb.sb_free_blocks_count +ℤ pos 1 };
  block_bits = flip_bit s.block_bits block;
  itable = itable;
}

one_more : (n : ℕ) → pos n +ℤ pos 1 ≡ pos (n + 1)
one_more n = unfold ◌+ℤ◌ in ground arith

module _ {s : FsCtx} {total : ℕ} {T : Nodes} {spare : ℕ} (has : HasNodes s total T spare)
    {i size : ℕ} {content : Bytes} (file : T i ≡ stored size content)
    (zeros : (x : ℕ) → x < 4096 → content x ≡ 0) where
  abbrev block : ℕ
  block = (holds has file).block

  still_used :
      (es : List ℕ)
      → AllSlots s.size es
      → LacksAll es (has.places i)
      → InRegion s es
      → InUse s es
      → Each (λ a. check_bit_usage (flip_bit s.block_bits block) (block_of s a) ≡ true) es
  still_used [] slots lacks region set = tt
  still_used (b ∷ es) slots lacks region set = (
    check-flip_bit block (block_of s b) has.blocks.bytes
        ∙ rw
            (ne→== (block_of s b) block
              (elsewhere b block slots.0.0 (slot_outside has file b slots.0.0 lacks.0) region.0))
            set.0,
    still_used es slots.1 lacks.1 region.1 set.1,
  )
    where
      elsewhere :
          (b k : ℕ)
          → b % 256 ≡ 0
          → (b < block_addr s.sb.sb_first_data_block k)
            ⊎ (block_addr s.sb.sb_first_data_block k + 4096 ≤ b)
          → s.sb.sb_first_data_block * a1fs_block_size ≤ b
          → block_of s b ≢ k
      elsewhere b k aligned out lo e = omega (arith, e)

  freed-IsClean :
      IsClean s.image (flip_bit s.block_bits block) s.sb.sb_first_data_block has.blocks.limit
  freed-IsClean k x lt unset lo hi = elim (Bool-cases (k == block)) [
    | inl e ↦
        let h = holds has file in
        let same : k ≡ block = ==→eq k block e in
        let lower : file_addr has file ≤ x = rw (← same) lo in
        let upper : x < file_addr has file + 4096 = rw (← same) hi in
        let there : file_addr has file + (x - file_addr has file) ≡ x = omega (arith, lower) in
        ap s.image (sym there)
        ∙ h.bytes (x - file_addr has file) (omega (arith, lower, upper))
        ∙ zeros (x - file_addr has file) (omega (arith, lower, upper))
    | inr e ↦
        has.blocks.clean k x lt (rw e at (sym (check-flip_bit block k has.blocks.bytes) ∙ unset)) lo
          hi
  ]

  pub HasNodes-freed :
      (itable : ℕ → Inode) (v : Node)
      → ((j : ℕ) → j ≢ i → itable j ≡ s.itable j)
      → Stands (freed s block itable) [] i v
      → HasNodes (freed s block itable) total (update T i v) (suc spare)
  HasNodes-freed itable v same stands = HasNodes-Becomes has (record {
    below = file_below has file;
    counts = record {
      inodes = has.counts.inodes;
      in_table = has.counts.in_table;
      small = has.counts.small;
      bytes = has.counts.bytes;
      free_inodes = has.counts.free_inodes;
    };
    blocks = record {
      first = has.blocks.first;
      bytes = flip_bit-IsBytes block has.blocks.bytes;
      limit = has.blocks.limit;
      below = has.blocks.below;
      inside = has.blocks.inside;
      whole = has.blocks.whole;
      spare_blocks = omega (
        arith,
        has.blocks.spare_blocks,
        count_clear-clears block has.blocks.bytes has.blocks.limit (block_below has file)
            (block_used has file),
      );
      free_blocks = has.blocks.free_blocks + 1;
      counted = rw has.blocks.counted (one_more has.blocks.free_blocks);
      enough = omega (arith, has.blocks.enough);
      clean = freed-IsClean;
    };
    stands = stands;
    others = λ j ne. record {
      size = refl;
      region = refl;
      table = refl;
      inode = same j ne;
      bit = refl;
      image = AllSame-refl s.image (has.places j);
    };
    apart = λ j ne. (tt, LacksAll-nil (has.places j));
    in_use = tt;
    others_in_use = λ j ne.
        still_used (has.places j) (has.slots j) (has.apart j i ne) (has.region j) (has.in_use j);
    size = refl;
    slots = tt;
    data_start = refl;
    region = tt;
  })
