-- ===== src/Tree/Fill.antt =====
-- a1fs_truncate of a1b/a1fs.c on a tree: a file without blocks gets one, of zeros.
use extent_based_fs.Base.{
  ℕ, suc, ◌+◌, ◌-◌, ◌%◌, ◌≤◌, ◌<◌, ◌≡◌, refl, sym, ap, ◌∙◌, inl, inr, true, false, List, arith, ltb,
  ◌==◌, ==→eq, ne→==, eq→==, Bool-cases, fun_ext,
}
use extent_based_fs.Base.Int.{pos, pos_part, ◌-ℤ◌, ◌+ℤ◌}
use extent_based_fs.Types.{FsCtx, ok, update, inode_capacity}
use extent_based_fs.Bitmap.{check_bit_usage, flip_bit, get_available_bit, set_bits, set_block_bits}
use extent_based_fs.Bitmap.Toggle.{check-flip_bit, flip_bit-IsBytes}
use extent_based_fs.Bitmap.Count.{count_clear-sets}
use extent_based_fs.Dir.{block_addr, strtok}
use extent_based_fs.Contents.{zero_range, zero_extents}
use extent_based_fs.Io.{a1fs_truncate}
use extent_based_fs.Io.Shrink.{ceil_blocks}
use extent_based_fs.Io.Zeroed.{resized, cleared_range, last_block}
use extent_based_fs.Io.ZeroedExtent.{from_first, zero_extents-first}
use extent_based_fs.Io.Grow.{grown, touched, Growable, truncate-finished}
use extent_based_fs.Tree.{Nodes, blank, stored, Leads}
use extent_based_fs.Tree.Links.{child, links_kept}
use extent_based_fs.Tree.Shape.{HasNodes, IsTree, IsClean, HasSpare}
use extent_based_fs.Tree.Walk.{used_below, node-Stands, get_inode_num-Leads}
use extent_based_fs.Tree.Change.{HasNodes-Becomes}
use extent_based_fs.Tree.NewBlock.{block_chosen, entry_offsets-AllSlots}
use extent_based_fs.Tree.Grow.{new-Lacks, Lacks-new, new_region, new_used, still_used}
use extent_based_fs.Tree.Frames.{AllSame-refl}

-- The file's block is zeroed, and its size recorded twice.
abbrev zeroed : FsCtx → (i k size : ℕ) → FsCtx
zeroed s i k size =
    resized (resized (cleared_range s (block_addr s.sb.sb_first_data_block k) size) i 0 (pos size))
      i 0 (pos size)

zero_extents-zeroed :
    (i k size : ℕ) (s : FsCtx)
    → i < inode_capacity s.sb
    → ((s.itable i).i_extent 0).count ≡ pos 1
    → block_addr s.sb.sb_first_data_block k + size ≤ s.size
    → 0 < size
    → zero_extents i (from_first k) 1 0 (pos 1) (pos size) s ≡ ok tt (zeroed s i k size)
zero_extents-zeroed i k size s in_table count inside positive =
    zero_extents-first i k 0 size s _ in_table in_table count
      (last_block i 0 size k s in_table inside (ne→== size 0 (omega arith)))

-- The state once file `i` has been given `n` blocks from `k` on and the size.
abbrev filled : FsCtx → (i k size n : ℕ) → FsCtx
filled s i k size n =
    let t = touched (zeroed (touched (grown s i k n) i) i k size) i in
    record t { itable = update t.itable i (record (t.itable i) { size = size }) }

-- The same state where the block holds zeros before.
abbrev kept : FsCtx → (i k size : ℕ) → FsCtx
kept s i k size = record (filled s i k size 1) {
  image = s.image;
  block_bits = flip_bit s.block_bits k;
}

one_block : (size : ℕ) → 0 < size → size < 4096 → ceil_blocks size ≡ 1
one_block size positive small = omega arith

one_less : (n : ℕ) → 0 < n → pos n -ℤ pos 1 ≡ pos (n - 1)
one_less n h = unfold ◌-ℤ◌ in ground arith

twice : (n : ℕ) → pos 0 +ℤ pos n +ℤ pos n ≡ pos (n + n)
twice n = unfold ◌+ℤ◌ in ground arith

rest_of : (size : ℕ) → size < 4096 → size % 4096 ≡ size
rest_of size small = omega arith

module _ {s : FsCtx} {total : ℕ} {T : Nodes} {left : ℕ} (has : HasNodes s total T (suc left))
    {i size : ℕ} (file : T i ≡ blank) (positive : 0 < size) (small : size < 4096) (k : ℕ)
    (below : k < has.blocks.limit) (clear : check_bit_usage s.block_bits k ≡ false) where
  abbrev addr : ℕ
  addr = block_addr s.sb.sb_first_data_block k

  in_table : i < inode_capacity s.sb
  in_table = omega (arith, used_below has i (λ e. cc), has.counts.in_table)

  zeros_already : (x : ℕ) → addr ≤ x → x < addr + 4096 → s.image x ≡ 0
  zeros_already x lo hi = has.blocks.clean k x below clear lo hi

  -- The block holds zeros already.
  zero_range-clean : zero_range s.image addr size ≡ s.image
  zero_range-clean = fun_ext same
    where
      same : (x : ℕ) → zero_range s.image addr size x ≡ s.image x
      same x = elim (Bool-cases (ltb x addr)) [
        | inl e ↦ rw e refl
        | inr e ↦ elim (Bool-cases (ltb x (addr + size))) [
          | inl q ↦ rw (e, q) (sym (zeros_already x (ground arith) (ground arith)))
          | inr q ↦ rw (e, q) refl
        ]
      ]

  filled-kept : filled s i k size 1 ≡ kept s i k size
  unfolding set_bits set_block_bits
  filled-kept = ap (λ img. record (kept s i k size) { image = img }) zero_range-clean

  truncate-filled :
      (fuel : ℕ) (path : List ℕ)
      → Leads T 0 (strtok path) i
      → get_available_bit s.sb s.block_bits 1 (pos 1) ≡ pos k
      → a1fs_truncate (suc fuel) path size s ≡ ok (pos 0) (kept s i k size)
  truncate-filled fuel path leads found =
      let stands = node-Stands has i file (λ q. cc) in
      let one = one_block size positive small in
      let h : Growable s path i k size = record {
        leads = get_inode_num-Leads has path leads;
        in_table = in_table;
        differs = rw stands.3 (λ e. omega (arith, ap pos_part e));
        empty = stands.2;
        found = rw one found;
        inside = rw one (omega (arith, below, has.blocks.inside));
        positive = positive;
      } in
      truncate-finished fuel h has.blocks.bytes
        (zeroed (touched (grown s i k (ceil_blocks size)) i) i k size) refl
        (rw (one, rest_of size small)
          (zero_extents-zeroed i k size (touched (grown s i k 1) i) in_table
            (rw (eq→== i i refl) refl) (omega (arith, below, has.blocks.inside)) positive))
      ∙ ap (λ n. ok (pos 0) (filled s i k size n)) one
      ∙ ap (ok (pos 0)) filled-kept

  still-IsClean :
      IsClean s.image (flip_bit s.block_bits k) s.sb.sb_first_data_block has.blocks.limit
  still-IsClean j x lt unset lo hi = elim (Bool-cases (j == k)) [
    | inl e ↦
        let set : check_bit_usage (flip_bit s.block_bits k) k ≡ true =
          check-flip_bit k k has.blocks.bytes ∙ rw (eq→== k k refl, clear) refl in
        absurd (cc (set, unset, ap (check_bit_usage (flip_bit s.block_bits k)) (==→eq j k e)))
    | inr e ↦
        has.blocks.clean j x lt (rw e at (sym (check-flip_bit k j has.blocks.bytes) ∙ unset)) lo hi
  ]

  HasSpare-filled : HasSpare (kept s i k size) left
  HasSpare-filled = record {
    first = has.blocks.first;
    bytes = (flip_bit-IsBytes k has.blocks.bytes);
    limit = has.blocks.limit;
    below = has.blocks.below;
    inside = has.blocks.inside;
    whole = has.blocks.whole;
    spare_blocks = omega (
      arith,
      has.blocks.spare_blocks,
      count_clear-sets k has.blocks.bytes has.blocks.limit below clear,
    );
    free_blocks = has.blocks.free_blocks - 1;
    counted =
        rw has.blocks.counted (one_less has.blocks.free_blocks (omega (arith, has.blocks.enough)));
    enough = omega (arith, has.blocks.enough);
    clean = still-IsClean;
  }

  HasNodes-filled-file : HasNodes (kept s i k size) total (update T i (stored size (λ x. 0))) left
  HasNodes-filled-file =
      let old = node-Stands has i file (λ q. cc) in
      HasNodes-Becomes has (record {
        below = used_below has i (λ e. cc);
        counts = record {
          inodes = has.counts.inodes;
          in_table = has.counts.in_table;
          small = has.counts.small;
          bytes = has.counts.bytes;
          free_inodes = has.counts.free_inodes;
        };
        blocks = HasSpare-filled;
        stands = (
          old.0,
          record {
            block = k;
            pieces = refl;
            last = rw (eq→== i i refl) refl;
            start = rw (eq→== i i refl) refl;
            count = rw (eq→== i i refl) refl;
            reach = size + size;
            recorded = rw (eq→== i i refl) (twice size);
            covers = omega arith;
            length = rw (eq→== i i refl) refl;
            positive = positive;
            small = small;
            bytes = λ x lt. zeros_already (addr + x) (omega arith) (omega arith);
          },
        );
        others = λ j ne. record {
          size = refl;
          region = refl;
          table = refl;
          inode = rw (ne→== j i ne) refl;
          bit = refl;
          image = AllSame-refl s.image (has.places j);
        };
        apart = λ j ne. (
          new-Lacks has i k below clear (has.places j) (has.in_use j),
          Lacks-new has i k below clear (has.places j) (has.in_use j),
        );
        in_use = new_used has i k below clear;
        others_in_use = λ j ne. still_used has i k below clear (has.places j) (has.in_use j);
        size = refl;
        slots =
            entry_offsets-AllSlots s.size 16 addr (omega arith)
              (omega (arith, below, has.blocks.inside));
        data_start = refl;
        region = new_region has i k below clear;
      })

-- A file without blocks gets one, and the size.
pub truncate-IsTree :
    {s : FsCtx} {total : ℕ} {T : Nodes} {left i size : ℕ}
    → IsTree s total T (suc left)
    → (fuel : ℕ) (path : List ℕ) → Leads T 0 (strtok path) i
    → T i ≡ blank
    → 0 < size
    → size < 4096
    → (t : FsCtx) × (a1fs_truncate (suc fuel) path size s ≡ ok (pos 0) t)
      × IsTree t total (update T i (stored size (λ x. 0))) left
truncate-IsTree {s} {i} {size} tree fuel path leads file positive small =
    let (k, found, below, clear) = block_chosen tree.has.blocks in
    (
      kept s i k size,
      truncate-filled tree.has file positive small k below clear fuel path leads found,
      record {
        has = HasNodes-filled-file tree.has file positive small k below clear;
        links =
            links_kept tree.links i (stored size (λ x. 0)) (λ name. unfold child in rw file refl)
              (λ name. unfold child in refl) (λ e. cc);
      },
    )
