-- ===== src/Tree/Grow.antt =====
-- A directory of a tree gets its first block: make_dentry_block of a1b/a1fs_helper.c.
use extent_based_fs.Base.{
  ℕ, suc, ◌+◌, ◌-◌, ◌*◌, ◌%◌, ◌≤◌, ◌<◌, ◌≡◌, ◌≢◌, refl, sym, ap, ◌∙◌, ◌⊎◌, inl, inr, true, false,
  List, [], ◌∷◌, arith, ltb, ◌==◌, ==→eq, ne→==, eq→==, Bool-cases,
}
use extent_based_fs.Base.Int.{pos, ◌-ℤ◌}
use extent_based_fs.Types.{FsCtx, update, a1fs_block_size}
use extent_based_fs.Bitmap.{check_bit_usage, flip_bit}
use extent_based_fs.Bitmap.Toggle.{check-flip_bit, flip_bit-IsBytes}
use extent_based_fs.Bitmap.Count.{count_clear-sets}
use extent_based_fs.Dir.{block_addr}
use extent_based_fs.Dir.Entries.{AllSlots}
use extent_based_fs.Alloc.{clear_inos}
use extent_based_fs.Alloc.DirBlock.{entry_offsets, grown, clear_inos_outside, grown-entries}
use extent_based_fs.Entry.Elsewhere.{Lacks}
use extent_based_fs.Catalog.{rooms}
use extent_based_fs.Catalog.Steps.{Represents}
use extent_based_fs.Tree.{bare, folder, Nodes, no_names}
use extent_based_fs.Tree.Shape.{HasNodes, Each, LacksAll, InUse, InRegion, IsClean, block_of}
use extent_based_fs.Tree.Frames.{AllSame}
use extent_based_fs.Tree.Walk.{used_below, node-Stands}
use extent_based_fs.Tree.Change.{HasNodes-Becomes}
use extent_based_fs.Tree.NewBlock.{
  new_rows, entry_offsets-Each, entry_offsets-Lacks, entry_offsets-AllDistinct,
  entry_offsets-AllSlots, new_rows-IsTidy, find_row-new_rows, Shows-new_rows,
}

module _ {s : FsCtx} {total : ℕ} {T : Nodes} {spare : ℕ} (has : HasNodes s total T (suc spare))
    (d k : ℕ) (below : k < has.blocks.limit) (clear : check_bit_usage s.block_bits k ≡ false) where
  abbrev pub block : ℕ
  block = block_addr s.sb.sb_first_data_block k

  -- An entry in use is in another block.
  pub outside_block :
      (b : ℕ)
      → check_bit_usage s.block_bits (block_of s b) ≡ true
      → (b < block) ⊎ (block + 4096 ≤ b)
  outside_block b set = elim (Bool-cases (ltb b block)) [
    | inl q ↦ inl (ground arith)
    | inr q ↦ elim (Bool-cases (ltb b (block + 4096))) [
      | inl r ↦
          let there : block_of s b ≡ k = in_block b (ge b q) (lt b r) in
          cc (set, clear, ap (check_bit_usage s.block_bits) there)
      | inr r ↦ inr (ground arith)
    ]
  ]
    where
      ge : (b : ℕ) → ltb b block ≡ false → block ≤ b
      ge b q = ground arith

      lt : (b : ℕ) → ltb b (block + 4096) ≡ true → b < block + 4096
      lt b q = ground arith

      in_block : (b : ℕ) → block ≤ b → b < block + 4096 → block_of s b ≡ k
      in_block b p q = omega arith

  places_same :
      (es : List ℕ)
      → AllSlots s.size es
      → InUse s es
      → AllSame s.image (clear_inos 16 block s.image) es
  places_same [] slots set = tt
  places_same (b ∷ es) slots set = (
    λ x p q. clear_inos_outside 16 block s.image x (far b x slots.0.0 (outside_block b set.0) p q),
    places_same es slots.1 set.1,
  )
    where
      far :
          (b x : ℕ)
          → b % 256 ≡ 0
          → (b < block) ⊎ (block + 4096 ≤ b)
          → b ≤ x
          → x < b + 256
          → (x < block) ⊎ (block + 256 * 16 ≤ x)
      far b x aligned out p q = omega arith

  pub Lacks-new : (es : List ℕ) → InUse s es → LacksAll es (entry_offsets 16 block)
  Lacks-new [] set = tt
  Lacks-new (b ∷ es) set =
      (entry_offsets-Lacks b 16 block (outside_block b set.0), Lacks-new es set.1)

  pub new-Lacks : (es : List ℕ) → InUse s es → LacksAll (entry_offsets 16 block) es
  new-Lacks es set = entry_offsets-Each (λ a. Lacks a es) 16 block (λ x p q r. one x p q es set)
    where
      one :
          (x : ℕ) → block ≤ x → x + 256 ≤ block + 256 * 16 → (es : List ℕ) → InUse s es → Lacks x es
      one x p q [] set = tt
      one x p q (b ∷ es) set = (apart b (outside_block b set.0), one x p q es set.1)
        where
          apart : (b : ℕ) → (b < block) ⊎ (block + 4096 ≤ b) → x ≢ b
          apart b out e = omega arith

  pub still_used :
      (es : List ℕ)
      → InUse s es
      → Each (λ a. check_bit_usage (flip_bit s.block_bits k) (block_of s a) ≡ true) es
  still_used [] set = tt
  still_used (b ∷ es) set = (
    check-flip_bit k (block_of s b) has.blocks.bytes
        ∙ rw (ne→== (block_of s b) k (λ e. cc (clear, set.0, ap (check_bit_usage s.block_bits) e)))
            set.0,
    still_used es set.1,
  )

  pub new_region : InRegion s (entry_offsets 16 block)
  new_region =
      entry_offsets-Each (λ a. s.sb.sb_first_data_block * a1fs_block_size ≤ a) 16 block
        (λ x p q r. omega arith)

  pub new_used :
      Each
        (λ a. check_bit_usage (flip_bit s.block_bits k) (block_of s a) ≡ true)
        (entry_offsets 16 block)
  new_used =
      entry_offsets-Each (λ a. check_bit_usage (flip_bit s.block_bits k) (block_of s a) ≡ true) 16
        block
        (λ x p q r.
          let there : block_of s x ≡ k = in_block x p q in
          rw there (check-flip_bit k k has.blocks.bytes ∙ rw (eq→== k k refl, clear) refl))
    where
      in_block : (x : ℕ) → block ≤ x → x + 256 ≤ block + 256 * 16 → block_of s x ≡ k
      in_block x p q = omega arith

  new-IsClean :
      IsClean
        (clear_inos 16 block s.image)
        (flip_bit s.block_bits k)
        s.sb.sb_first_data_block
        has.blocks.limit
  new-IsClean j x lt unset lo hi = elim (Bool-cases (j == k)) [
    | inl e ↦
        let set : check_bit_usage (flip_bit s.block_bits k) k ≡ true =
          check-flip_bit k k has.blocks.bytes ∙ rw (eq→== k k refl, clear) refl in
        absurd (cc (set, unset, ap (check_bit_usage (flip_bit s.block_bits k)) (==→eq j k e)))
    | inr e ↦
        clear_inos_outside 16 block s.image x (outside j x (differ e) lo hi)
        ∙ has.blocks.clean j x lt (rw e at (sym (check-flip_bit k j has.blocks.bytes) ∙ unset)) lo
            hi
  ]
    where
      differ : (j == k) ≡ false → j ≢ k
      differ e = ground arith

      outside :
          (j x : ℕ)
          → j ≢ k
          → block_addr s.sb.sb_first_data_block j ≤ x
          → x < block_addr s.sb.sb_first_data_block j + a1fs_block_size
          → (x < block) ⊎ (block + 256 * 16 ≤ x)
      outside j x ne lo hi = omega arith

  pub inside : block + a1fs_block_size ≤ s.size
  inside = omega (arith, below, has.blocks.inside)

  holds_none : T d ≡ bare → Represents (grown s d k) d (entry_offsets 16 block) no_names 16
  holds_none dir = record {
    is = record {
      in_table = omega (arith, used_below has d (λ e. cc), has.counts.in_table);
      entries = grown-entries s d k inside;
    };
    distinct = entry_offsets-AllDistinct 16 block;
    rows = new_rows 16;
    shows =
        Shows-new_rows 16 block s.image (omega arith)
          (λ x lo hi. has.blocks.clean k x below clear lo (omega arith));
    tidy = new_rows-IsTidy 16;
    names = find_row-new_rows 16;
    left = unfold rooms new_rows in refl;
  }

  -- The directory has 16 unused entries, and there is one free block less.
  pub HasNodes-grown :
      T d ≡ bare → HasNodes (grown s d k) total (update T d (folder no_names 16)) spare
  HasNodes-grown dir =
      let old = node-Stands has d dir (λ e. cc) in
      HasNodes-Becomes has (record {
        below = used_below has d (λ e. cc);
        counts = record {
          inodes = has.counts.inodes;
          in_table = has.counts.in_table;
          small = has.counts.small;
          bytes = has.counts.bytes;
          free_inodes = has.counts.free_inodes;
        };
        blocks = record {
          first = has.blocks.first;
          bytes = flip_bit-IsBytes k has.blocks.bytes;
          limit = has.blocks.limit;
          below = has.blocks.below;
          inside = has.blocks.inside;
          whole = has.blocks.whole;
          spare_blocks = omega (
            arith,
            has.blocks.spare_blocks,
            count_clear-sets k has.blocks.bytes has.blocks.limit below clear,
          );
          free_blocks = has.blocks.free_blocks - 1;
          counted = rw has.blocks.counted (one_less has.blocks.free_blocks some_left);
          enough = omega (arith, has.blocks.enough);
          clean = new-IsClean;
        };
        stands = (
          old.0,
          holds_none dir,
          unfold entry_offsets in omega arith,
          rw (eq→== d d refl) (unfold entry_offsets in old.3),
        );
        others = λ j ne. record {
          size = refl;
          region = refl;
          table = refl;
          inode = rw (ne→== j d ne) refl;
          bit = refl;
          image = places_same (has.places j) (has.slots j) (has.in_use j);
        };
        apart = λ j ne.
            (new-Lacks (has.places j) (has.in_use j), Lacks-new (has.places j) (has.in_use j));
        in_use = new_used;
        others_in_use = λ j ne. still_used (has.places j) (has.in_use j);
        size = refl;
        slots = entry_offsets-AllSlots s.size 16 block (omega arith) (omega (arith, inside));
        data_start = refl;
        region = new_region;
      })
    where
      some_left : 0 < has.blocks.free_blocks
      some_left = omega (arith, has.blocks.enough)

      one_less : (n : ℕ) → 0 < n → pos n -ℤ pos 1 ≡ pos (n - 1)
      one_less n h = unfold ◌-ℤ◌ in ground arith
