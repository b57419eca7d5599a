-- ===== src/Tree/Touch.antt =====
-- a1fs_utimens of a1b/a1fs.c on a tree: a time of modification is no part of it.
use extent_based_fs.Base.{
  ℕ, ◌<◌, ◌≡◌, ◌≢◌, refl, inl, inr, List, arith, ◌==◌, ==→eq, Bool-cases, lt→ltb, if◌then◌else◌,
}
use extent_based_fs.Base.Int.{pos}
use extent_based_fs.Types.{FsCtx, Timespec, ok, update, inode_capacity}
use extent_based_fs.Dir.{strtok, dentry_addrs}
use extent_based_fs.Ops.{a1fs_utimens}
use extent_based_fs.Catalog.{Names}
use extent_based_fs.Catalog.Steps.{Represents}
use extent_based_fs.Dir.Lookup.{IsDir}
use extent_based_fs.Tree.{Node, vacant, bare, folder, blank, stored, dropped, Nodes, Leads}
use extent_based_fs.Tree.Shape.{Stands, HasNodes, IsTree}
use extent_based_fs.Tree.Walk.{used_below, get_inode_num-Leads}

module _ (s : FsCtx) (i : ℕ) (mtime : Timespec) where
  abbrev touched : FsCtx
  touched = record s { itable = update s.itable i (record (s.itable i) { i_mtime = mtime }) }

  abbrev time_of : ℕ → Timespec
  time_of j = if j == i then mtime else (s.itable j).i_mtime

  touched_inode : (j : ℕ) → touched.itable j ≡ record (s.itable j) { i_mtime = time_of j }
  touched_inode j = elim (Bool-cases (j == i)) [
    | inl e ↦ rw (e, ==→eq j i e) refl
    | inr e ↦ rw e refl
  ]

  IsDir-touched : {j : ℕ} {es : List ℕ} → IsDir s j es → IsDir touched j es
  unfolding dentry_addrs
  IsDir-touched {j} is = record {
    in_table = is.in_table;
    entries = rw (touched_inode j) is.entries;
  }

  Represents-touched :
      {j : ℕ} {es : List ℕ} {m : Names} {room : ℕ}
      → Represents s j es m room
      → Represents touched j es m room
  Represents-touched r = record {
    is = IsDir-touched r.is;
    distinct = r.distinct;
    rows = r.rows;
    shows = r.shows;
    tidy = r.tidy;
    names = r.names;
    left = r.left;
  }

  Stands-touched : (es : List ℕ) (j : ℕ) (v : Node) → Stands s es j v → Stands touched es j v
  Stands-touched es j vacant h = h
  Stands-touched es j bare h = (h.0, h.1, rw (touched_inode j) h.2, rw (touched_inode j) h.3)
  Stands-touched es j (folder m room) h =
      (h.0, Represents-touched h.1, h.2, rw (touched_inode j) h.3)
  Stands-touched es j blank h = (h.0, h.1, rw (touched_inode j) h.2, rw (touched_inode j) h.3)
  Stands-touched es j dropped h = h
  Stands-touched es j (stored size content) (set, h) = (
    set,
    record {
      block = h.block;
      pieces = h.pieces;
      last = rw (touched_inode j) h.last;
      start = rw (touched_inode j) h.start;
      count = rw (touched_inode j) h.count;
      reach = h.reach;
      recorded = rw (touched_inode j) h.recorded;
      covers = h.covers;
      length = rw (touched_inode j) h.length;
      positive = h.positive;
      small = h.small;
      bytes = h.bytes;
    },
  )

  HasNodes-touched :
      {total : ℕ} {T : Nodes} {spare : ℕ}
      → HasNodes s total T spare
      → HasNodes touched total T spare
  HasNodes-touched {T} has = record {
    counts = record {
      inodes = has.counts.inodes;
      in_table = has.counts.in_table;
      small = has.counts.small;
      bytes = has.counts.bytes;
      free_inodes = has.counts.free_inodes;
    };
    blocks = record {
      first = has.blocks.first;
      bytes = has.blocks.bytes;
      limit = has.blocks.limit;
      below = has.blocks.below;
      inside = has.blocks.inside;
      whole = has.blocks.whole;
      spare_blocks = has.blocks.spare_blocks;
      free_blocks = has.blocks.free_blocks;
      counted = has.blocks.counted;
      enough = has.blocks.enough;
      clean = has.blocks.clean;
    };
    places = has.places;
    stands = λ j below. Stands-touched (has.places j) j (T j) (has.stands j below);
    beyond = has.beyond;
    apart = has.apart;
    in_use = has.in_use;
    slots = has.slots;
    region = has.region;
  }

pub utimens-IsTree :
    {s : FsCtx} {total : ℕ} {T : Nodes} {spare i : ℕ}
    → IsTree s total T spare
    → (path : List ℕ) (mtime : Timespec) → Leads T 0 (strtok path) i
    → T i ≢ vacant
    → (t : FsCtx) × (a1fs_utimens path mtime s ≡ ok (pos 0) t) × IsTree t total T spare
unfolding a1fs_utimens
utimens-IsTree {s} {i} tree path mtime leads stands =
    let in_table : i < inode_capacity s.sb =
      omega (arith, used_below tree.has i stands, tree.has.counts.in_table) in
    (
      touched s i mtime,
      rw (get_inode_num-Leads tree.has path leads, lt→ltb i (inode_capacity s.sb) in_table)
          (rw (lt→ltb i (inode_capacity s.sb) in_table) refl),
      record { has = HasNodes-touched s i mtime tree.has; links = tree.links },
    )
