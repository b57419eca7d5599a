-- ===== src/Tree/Link.antt =====
-- An entry of a directory in a tree is filled in or emptied (a1b/a1fs_helper.c, a1b/a1fs.c).
use extent_based_fs.Base.{
  ℕ, suc, ◌+◌, ◌-◌, ◌%◌, ◌≤◌, ◌<◌, ◌≡◌, ◌≢◌, refl, sym, ◌⊎◌, true, Bool, List, none, some, arith,
  ne→==, eq→==,
}
use extent_based_fs.Base.Int.{ℤ, pos, minus_one, ◌+ℤ◌}
use extent_based_fs.Types.{FsCtx, update}
use extent_based_fs.Image.{Bytes}
use extent_based_fs.Bitmap.{check_bit_usage}
use extent_based_fs.Dir.Lookup.{first_with}
use extent_based_fs.Dir.Entries.{first_with-IsSlot}
use extent_based_fs.Entry.Elsewhere.{Lacks}
use extent_based_fs.Entry.Fill.{entry_image, entry_image_byte}
use extent_based_fs.Entry.Add.{has_ino, filled}
use extent_based_fs.Entry.Clear.{cleared, clear_image, clear_byte}
use extent_based_fs.Catalog.{Names, assign, bind}
use extent_based_fs.Catalog.Steps.{IsAllowed, Represents-filled, Represents-cleared}
use extent_based_fs.Catalog.Rooms.{room-le, room-some}
use extent_based_fs.Tree.{folder, Nodes}
use extent_based_fs.Tree.Shape.{HasNodes, IsClean, block_of}
use extent_based_fs.Tree.Frames.{AllSame, AllSame-Lacks, first_with-Each, IsClean-entry}
use extent_based_fs.Tree.Walk.{used_below, node-Stands}
use extent_based_fs.Tree.Change.{HasNodes-Becomes}

module _ {s : FsCtx} {total : ℕ} {T : Nodes} {spare : ℕ} (has : HasNodes s total T spare) (p : ℕ)
    {m : Names} where
  module _ {room a : ℕ} (parent : T p ≡ folder m room) (test : ℕ → Bool) (img' : Bytes)
      (at : first_with test (has.places p) ≡ some a)
      (same : (x : ℕ) → (x < a) ⊎ (a + 256 ≤ x) → img' x ≡ s.image x) where
    aligned : a % 256 ≡ 0
    aligned = (first_with-IsSlot s.size test (has.places p) at (has.slots p)).0.0

    folder_below : p < total
    folder_below = used_below has p (λ e. cc)

    others_same : (j : ℕ) → j ≢ p → AllSame s.image img' (has.places j)
    others_same j ne =
        AllSame-Lacks s.image img' s.size a (has.places j) aligned same (has.slots j) (
          first_with-Each test (λ b. Lacks b (has.places j)) (has.places p) at
            (has.apart p j (λ e. ne (sym e))))

    still-IsClean :
        {limit : ℕ}
        → IsClean s.image s.block_bits s.sb.sb_first_data_block limit
        → IsClean img' s.block_bits s.sb.sb_first_data_block limit
    still-IsClean {limit} =
        IsClean-entry s img' a limit aligned
          (first_with-Each test (λ b. check_bit_usage s.block_bits (block_of s b) ≡ true)
            (has.places p) at (has.in_use p))
          same

  -- An unused entry gets a new name, for an inode number that the directory does not hold.
  pub HasNodes-filled :
      {room a : ℕ} (name : List ℕ) (ino : ℕ)
      → T p ≡ folder m (suc room)
      → IsAllowed m (suc room) (bind name ino)
      → first_with (has_ino s.image minus_one) (has.places p) ≡ some a
      → HasNodes
          (filled s p ino name a)
          total
          (update T p (folder (assign m name (some ino)) room))
          spare
  HasNodes-filled {room} {a} name ino parent allowed at =
      let test = has_ino s.image minus_one in
      let img' = entry_image s.image a name (pos ino) in
      let same = entry_image_byte s.image a name (pos ino) allowed.0.0 in
      let old = node-Stands has p parent (λ e. cc) in
      let less : suc room - 1 ≡ room = omega arith in
      HasNodes-Becomes has (record {
        below = folder_below parent test img' at same;
        counts = record {
          inodes = has.counts.inodes;
          in_table = has.counts.in_table;
          small = has.counts.small;
          bytes = has.counts.bytes;
          free_inodes = has.counts.free_inodes;
        };
        blocks = record {
          first = has.blocks.first;
          bytes = has.blocks.bytes;
          limit = has.blocks.limit;
          below = has.blocks.below;
          inside = has.blocks.inside;
          whole = has.blocks.whole;
          spare_blocks = has.blocks.spare_blocks;
          free_blocks = has.blocks.free_blocks;
          counted = has.blocks.counted;
          enough = has.blocks.enough;
          clean = still-IsClean parent test img' at same has.blocks.clean;
        };
        stands = (
          old.0,
          rw less at (Represents-filled old.1 name ino allowed at),
          old.2,
          rw (eq→== p p refl) (omega (arith, room-le old.1, old.2, old.3)),
        );
        others = λ j ne. record {
          size = refl;
          region = refl;
          table = refl;
          inode = rw (ne→== j p ne) refl;
          bit = refl;
          image = others_same parent test img' at same j ne;
        };
        apart = λ j ne. (has.apart p j (λ e. ne (sym e)), has.apart j p ne);
        in_use = has.in_use p;
        others_in_use = λ j ne. has.in_use j;
        size = refl;
        slots = has.slots p;
        data_start = refl;
        region = has.region p;
      })

  -- The entry of a name is emptied.
  pub HasNodes-cleared :
      {room a : ℕ} (name : List ℕ) (ino : ℕ) (drop_dir : ℤ)
      → T p ≡ folder m room
      → m name ≡ some ino
      → first_with (has_ino s.image (pos ino)) (has.places p) ≡ some a
      → HasNodes
          (cleared s p a drop_dir)
          total
          (update T p (folder (assign m name none) (room + 1)))
          spare
  HasNodes-cleared {room} {a} name ino drop_dir parent led at =
      let test = has_ino s.image (pos ino) in
      let img' = clear_image s.image a in
      let slot = (first_with-IsSlot s.size test (has.places p) at (has.slots p)).0.0 in
      let same = clear_byte s.image a slot in
      let old = node-Stands has p parent (λ e. cc) in
      HasNodes-Becomes has (record {
        below = folder_below parent test img' at same;
        counts = record {
          inodes = has.counts.inodes;
          in_table = has.counts.in_table;
          small = has.counts.small;
          bytes = has.counts.bytes;
          free_inodes = has.counts.free_inodes;
        };
        blocks = record {
          first = has.blocks.first;
          bytes = has.blocks.bytes;
          limit = has.blocks.limit;
          below = has.blocks.below;
          inside = has.blocks.inside;
          whole = has.blocks.whole;
          spare_blocks = has.blocks.spare_blocks;
          free_blocks = has.blocks.free_blocks + 1;
          counted = rw has.blocks.counted (one_more has.blocks.free_blocks);
          enough = omega (arith, has.blocks.enough);
          clean = still-IsClean parent test img' at same has.blocks.clean;
        };
        stands = (
          old.0,
          Represents-cleared old.1 name ino drop_dir led at,
          old.2,
          rw (eq→== p p refl) (omega (arith, room-some old.1 name led, old.2, old.3)),
        );
        others = λ j ne. record {
          size = refl;
          region = refl;
          table = refl;
          inode = rw (ne→== j p ne) refl;
          bit = refl;
          image = others_same parent test img' at same j ne;
        };
        apart = λ j ne. (has.apart p j (λ e. ne (sym e)), has.apart j p ne);
        in_use = has.in_use p;
        others_in_use = λ j ne. has.in_use j;
        size = refl;
        slots = has.slots p;
        data_start = refl;
        region = has.region p;
      })
    where
      one_more : (n : ℕ) → pos n +ℤ pos 1 ≡ pos (n + 1)
      one_more n = unfold ◌+ℤ◌ in ground arith
