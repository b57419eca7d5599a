-- ===== src/Tree/Inode.antt =====
-- An inode of a tree is taken or given back, as in a1fs_mkdir and a1fs_rmdir of a1b/a1fs.c.
use extent_based_fs.Base.{
  ℕ, suc, ◌<◌, ◌≡◌, ◌≢◌, refl, ◌∙◌, true, false, List, [], ◌∷◌, none, arith, ne→==, eq→==,
}
use extent_based_fs.Base.Int.{pos, minus_one, ◌+ℤ◌, ◌-ℤ◌}
use extent_based_fs.Types.{FsCtx, update}
use extent_based_fs.Bitmap.{check_bit_usage, flip_bit}
use extent_based_fs.Bitmap.Toggle.{check-flip_bit, flip_bit-IsBytes}
use extent_based_fs.Bitmap.Count.{count_clear, count_clear-sets, count_clear-clears}
use extent_based_fs.Ops.Make.{made}
use extent_based_fs.Ops.Remove.{released}
use extent_based_fs.Tree.{Node, vacant, bare, blank, Nodes}
use extent_based_fs.Tree.Links.{child}
use extent_based_fs.Tree.Shape.{Stands, HasNodes, HasInodes, LacksAll}
use extent_based_fs.Tree.Frames.{AllSame-refl}
use extent_based_fs.Tree.Walk.{used_below, Stands-used}
use extent_based_fs.Tree.Change.{HasNodes-Becomes}

-- What a fresh inode stands for.
pub record IsFresh (v : Node) : Type 0 where
  pub stands : v ≢ vacant
  pub empty : (name : List ℕ) → child v name ≡ none
  pub made_so :
      (t : FsCtx) (j : ℕ)
      → check_bit_usage t.inode_bits j ≡ true
      → (t.itable j).last_used_extent ≡ minus_one
      → (t.itable j).num_entries ≡ 0
      → (t.itable j).size ≡ 0
      → Stands t [] j v

pub bare-IsFresh : IsFresh bare
unfolding child
bare-IsFresh = record {
  stands = λ e. cc;
  empty = λ name. refl;
  made_so = λ t j bit last num size. (bit, refl, last, num);
}

pub blank-IsFresh : IsFresh blank
unfolding child
blank-IsFresh = record {
  stands = λ e. cc;
  empty = λ name. refl;
  made_so = λ t j bit last num size. (bit, refl, last, size);
}

pub LacksAll-nil : (es : List ℕ) → LacksAll es []
LacksAll-nil [] = tt
LacksAll-nil (a ∷ es) = (tt, LacksAll-nil es)

module _ {s : FsCtx} {total : ℕ} {T : Nodes} {spare : ℕ} (has : HasNodes s total T spare)
    (ino : ℕ) where
  HasInodes-taken :
      (mode : ℕ)
      → ino < total
      → check_bit_usage s.inode_bits ino ≡ false
      → HasInodes (made s ino mode) total
  HasInodes-taken mode below clear = record {
    inodes = has.counts.inodes;
    in_table = has.counts.in_table;
    small = has.counts.small;
    bytes = flip_bit-IsBytes ino has.counts.bytes;
    free_inodes =
        rw (has.counts.free_inodes, count_clear-sets ino has.counts.bytes total below clear)
          (one_less (count_clear (flip_bit s.inode_bits ino) total));
  }
    where
      one_less : (n : ℕ) → pos (suc n) -ℤ pos 1 ≡ pos n
      one_less n = unfold ◌-ℤ◌ in ground arith

  HasInodes-released :
      ino < total → check_bit_usage s.inode_bits ino ≡ true → HasInodes (released s ino) total
  HasInodes-released below set = record {
    inodes = has.counts.inodes;
    in_table = has.counts.in_table;
    small = has.counts.small;
    bytes = flip_bit-IsBytes ino has.counts.bytes;
    free_inodes =
        rw (has.counts.free_inodes, count_clear-clears ino has.counts.bytes total below set)
          (one_more (count_clear s.inode_bits total));
  }
    where
      one_more : (n : ℕ) → pos n +ℤ pos 1 ≡ pos (suc n)
      one_more n = unfold ◌+ℤ◌ in ground arith

  pub HasNodes-made :
      (mode : ℕ) (v : Node)
      → T ino ≡ vacant
      → ino < total
      → IsFresh v
      → HasNodes (made s ino mode) total (update T ino v) spare
  HasNodes-made mode v was below fresh =
      let clear : check_bit_usage s.inode_bits ino ≡ false = (rw was at (has.stands ino below)).0 in
      HasNodes-Becomes has (record {
        below = below;
        counts = HasInodes-taken mode below clear;
        blocks = record {
          first = has.blocks.first;
          bytes = has.blocks.bytes;
          limit = has.blocks.limit;
          below = has.blocks.below;
          inside = has.blocks.inside;
          whole = has.blocks.whole;
          spare_blocks = has.blocks.spare_blocks;
          free_blocks = has.blocks.free_blocks;
          counted = has.blocks.counted;
          enough = has.blocks.enough;
          clean = has.blocks.clean;
        };
        stands =
            fresh.made_so (made s ino mode) ino
              (check-flip_bit ino ino has.counts.bytes ∙ rw (eq→== ino ino refl, clear) refl)
              (rw (eq→== ino ino refl) refl) (rw (eq→== ino ino refl) refl)
              (rw (eq→== ino ino refl) refl);
        others = λ j ne. record {
          size = refl;
          region = refl;
          table = refl;
          inode = rw (ne→== j ino ne) refl;
          bit = check-flip_bit ino j has.counts.bytes ∙ rw (ne→== j ino ne) refl;
          image = AllSame-refl s.image (has.places j);
        };
        apart = λ j ne. (tt, LacksAll-nil (has.places j));
        in_use = tt;
        others_in_use = λ j ne. has.in_use j;
        size = refl;
        slots = tt;
        data_start = refl;
        region = tt;
      })

  pub HasNodes-released :
      T ino ≢ vacant → HasNodes (released s ino) total (update T ino vacant) spare
  HasNodes-released was =
      let below = used_below has ino was in
      let set = Stands-used s (has.places ino) ino (T ino) was (has.stands ino below) in
      HasNodes-Becomes has (record {
        below = below;
        counts = HasInodes-released below set;
        blocks = record {
          first = has.blocks.first;
          bytes = has.blocks.bytes;
          limit = has.blocks.limit;
          below = has.blocks.below;
          inside = has.blocks.inside;
          whole = has.blocks.whole;
          spare_blocks = has.blocks.spare_blocks;
          free_blocks = has.blocks.free_blocks;
          counted = has.blocks.counted;
          enough = has.blocks.enough;
          clean = has.blocks.clean;
        };
        stands =
            (check-flip_bit ino ino has.counts.bytes ∙ rw (eq→== ino ino refl, set) refl, refl);
        others = λ j ne. record {
          size = refl;
          region = refl;
          table = refl;
          inode = rw (ne→== j ino ne) refl;
          bit = check-flip_bit ino j has.counts.bytes ∙ rw (ne→== j ino ne) refl;
          image = AllSame-refl s.image (has.places j);
        };
        apart = λ j ne. (tt, LacksAll-nil (has.places j));
        in_use = tt;
        others_in_use = λ j ne. has.in_use j;
        size = refl;
        slots = tt;
        data_start = refl;
        region = tt;
      })
