-- ===== src/Tree/Cut.antt =====
-- a1fs_truncate of a1b/a1fs.c on a tree: a file of one block gets another size.
use extent_based_fs.Base.{
  ℕ, suc, ◌+◌, ◌-◌, ◌<◌, ◌≡◌, refl, sym, ap, ◌∙◌, true, List, none, arith, ne→==, eq→==, lt→ltb,
}
use extent_based_fs.Base.Int.{◌-ℤ◌, pos, eq_ℤ}
use extent_based_fs.Types.{FsCtx, Inode, ok, update}
use extent_based_fs.Image.{Bytes}
use extent_based_fs.Bitmap.{set_bits, set_block_bits}
use extent_based_fs.Bitmap.Range.{in_range}
use extent_based_fs.Dir.{strtok}
use extent_based_fs.Io.{a1fs_truncate, unlink_extents, unlink_blocks}
use extent_based_fs.Io.RoundTrip.{to_int_small}
use extent_based_fs.Io.Shrink.{
  ceil_blocks, Shrinkable, shrunk, given_back, truncate_shrink-shrunk, truncate-shrunk,
}
use extent_based_fs.Tree.{Nodes, blank, stored, Leads}
use extent_based_fs.Tree.Links.{child, links_kept}
use extent_based_fs.Tree.Shape.{HasNodes, IsTree}
use extent_based_fs.Tree.Frames.{AllSame-refl}
use extent_based_fs.Tree.Walk.{get_inode_num-Leads}
use extent_based_fs.Tree.Change.{HasNodes-Becomes}
use extent_based_fs.Tree.Free.{HasNodes-freed}
use extent_based_fs.Tree.Stored.{holds, bit_set, file_below, file_in_table, block_used}

unlink_extents-none : (v : Inode) (s : FsCtx) → unlink_extents v 1 (pos 0) s ≡ ok tt s
unfolding unlink_extents
unlink_extents-none v s = refl

unlink_extents-one :
    (v : Inode) (s : FsCtx)
    → (v.i_extent 0).count ≡ pos 1
    → unlink_extents v 1 (pos 1) s ≡ ok tt (given_back s (v.i_extent 0).start)
unfolding unlink_extents unlink_blocks set_bits set_block_bits ◌-ℤ◌
unlink_extents-one v s count =
    let k = (v.i_extent 0).start in
    let last : k + 0 ≡ k = omega arith in rw count (ap (λ j. ok tt (given_back s j)) last)

in_one : (k j : ℕ) → in_range k 1 j ≡ true → j ≡ k
in_one k j e = ground arith

module _ {s : FsCtx} {total : ℕ} {T : Nodes} {spare : ℕ} (has : HasNodes s total T spare)
    {i old : ℕ} {content : Bytes} (file : T i ≡ stored old content) (path : List ℕ)
    (leads : Leads T 0 (strtok path) i) where
  shrinkable : (size : ℕ) → size < old → Shrinkable s path i size
  shrinkable size less =
      let h = holds has file in
      let one : ceil_blocks (s.itable i).size ≡ 1 =
        rw h.length (omega (arith, h.small, h.positive)) in
      record {
        leads = get_inode_num-Leads has path leads;
        in_table = file_in_table has file;
        small = rw h.length (omega (arith, h.small));
        last = h.last;
        count = rw one h.count;
        shrinks = rw h.length less;
        used = rw (one, h.start) (λ j e. rw (in_one h.block j e) (block_used has file));
      }

  truncate-cut :
      (fuel size : ℕ)
      → 0 < size
      → size < old
      → a1fs_truncate fuel path size s ≡ ok (pos 0) (shrunk s i size)
  truncate-cut fuel size positive less =
      let h = holds has file in
      let none : ceil_blocks (s.itable i).size - ceil_blocks size ≡ 0 =
        rw h.length (omega (arith, h.small)) in
      let sh = shrinkable size less in
      truncate-shrunk sh fuel (
        truncate_shrink-shrunk sh s.sb.sb_free_blocks_count s.block_bits
          (rw none (unlink_extents-none (s.itable i) s)))

  truncate-emptied :
      (fuel : ℕ)
      → a1fs_truncate fuel path 0 s ≡ ok (pos 0) (shrunk (given_back s (holds has file).block) i 0)
  truncate-emptied fuel =
      let h = holds has file in
      let one : ceil_blocks (s.itable i).size - ceil_blocks 0 ≡ 1 =
        rw h.length (omega (arith, h.small, h.positive)) in
      let sh = shrinkable 0 h.positive in
      let u = given_back s h.block in
      truncate-shrunk sh fuel (
        truncate_shrink-shrunk sh u.sb.sb_free_blocks_count u.block_bits (
          rw one
            (unlink_extents-one (s.itable i) s h.count ∙ ap (λ k. ok tt (given_back s k)) h.start)))

  truncate-same : (fuel : ℕ) → a1fs_truncate fuel path old s ≡ ok (pos 0) s
  unfolding a1fs_truncate
  truncate-same fuel =
      let h = holds has file in
      rw
        (
          get_inode_num-Leads has path leads,
          lt→ltb i _ (file_in_table has file),
          h.length,
          to_int_small old (omega (arith, h.small)),
          same old,
        )
        refl
    where
      same : (n : ℕ) → eq_ℤ (pos n) (pos n) ≡ true
      same n = ground arith

  HasNodes-cut :
      (size : ℕ)
      → 0 < size
      → size < old
      → HasNodes (shrunk s i size) total (update T i (stored size content)) spare
  HasNodes-cut size positive less =
      let h = holds has file in
      let some_bytes = ne→== size 0 (omega arith) in
      HasNodes-Becomes has (record {
        below = file_below has file;
        counts = record {
          inodes = has.counts.inodes;
          in_table = has.counts.in_table;
          small = has.counts.small;
          bytes = has.counts.bytes;
          free_inodes = has.counts.free_inodes;
        };
        blocks = record {
          first = has.blocks.first;
          bytes = has.blocks.bytes;
          limit = has.blocks.limit;
          below = has.blocks.below;
          inside = has.blocks.inside;
          whole = has.blocks.whole;
          spare_blocks = has.blocks.spare_blocks;
          free_blocks = has.blocks.free_blocks;
          counted = has.blocks.counted;
          enough = has.blocks.enough;
          clean = has.blocks.clean;
        };
        stands = (
          bit_set has file,
          record {
            block = h.block;
            pieces = h.pieces;
            last = rw (eq→== i i refl, some_bytes) h.last;
            start = rw (eq→== i i refl) h.start;
            count = rw (eq→== i i refl) h.count;
            reach = h.reach;
            recorded = rw (eq→== i i refl) h.recorded;
            covers = omega (arith, h.covers);
            length = rw (eq→== i i refl) refl;
            positive = positive;
            small = omega (arith, h.small);
            bytes = h.bytes;
          },
        );
        others = λ j ne. record {
          size = refl;
          region = refl;
          table = refl;
          inode = rw (ne→== j i ne) refl;
          bit = refl;
          image = AllSame-refl s.image (has.places j);
        };
        apart = λ j ne. (has.apart i j (λ e. ne (sym e)), has.apart j i ne);
        in_use = has.in_use i;
        others_in_use = λ j ne. has.in_use j;
        size = refl;
        slots = has.slots i;
        data_start = refl;
        region = has.region i;
      })

  HasNodes-emptied :
      ((x : ℕ) → x < 4096 → content x ≡ 0)
      → HasNodes
          (shrunk (given_back s (holds has file).block) i 0)
          total
          (update T i blank)
          (suc spare)
  HasNodes-emptied zeros =
      HasNodes-freed has file zeros (shrunk s i 0).itable blank (λ j ne. rw (ne→== j i ne) refl)
        (bit_set has file, refl, rw (eq→== i i refl) refl, rw (eq→== i i refl) refl)

module _ {s : FsCtx} {total : ℕ} {T : Nodes} {spare : ℕ} (tree : IsTree s total T spare) {i old : ℕ}
    {content : Bytes} (file : T i ≡ stored old content) (path : List ℕ)
    (leads : Leads T 0 (strtok path) i) (fuel : ℕ) where
  no_names : (name : List ℕ) → child (T i) name ≡ none
  no_names name = unfold child in rw file refl

  pub cut-IsTree :
      (size : ℕ)
      → 0 < size
      → size < old
      → (t : FsCtx) × (a1fs_truncate fuel path size s ≡ ok (pos 0) t)
        × IsTree t total (update T i (stored size content)) spare
  cut-IsTree size positive less = (
    shrunk s i size,
    truncate-cut tree.has file path leads fuel size positive less,
    record {
      has = HasNodes-cut tree.has file path leads size positive less;
      links =
          links_kept tree.links i (stored size content) no_names (λ name. unfold child in refl)
            (λ e. cc);
    },
  )

  pub emptied-IsTree :
      ((x : ℕ) → x < 4096 → content x ≡ 0)
      → (t : FsCtx) × (a1fs_truncate fuel path 0 s ≡ ok (pos 0) t)
        × IsTree t total (update T i blank) (suc spare)
  emptied-IsTree zeros = (
    shrunk (given_back s (holds tree.has file).block) i 0,
    truncate-emptied tree.has file path leads fuel,
    record {
      has = HasNodes-emptied tree.has file path leads zeros;
      links = links_kept tree.links i blank no_names (λ name. unfold child in refl) (λ e. cc);
    },
  )

  pub same-truncate : a1fs_truncate fuel path old s ≡ ok (pos 0) s
  same-truncate = truncate-same tree.has file path leads fuel
