-- ===== src/Tree/Read.antt =====
-- a1fs_readdir of a1b/a1fs.c on a tree.
use mathlib.Core.List.{Mem, Nodup}
use extent_based_fs.Base.{
  ℕ, ◌<◌, ◌≡◌, ◌≢◌, ◌↔◌, refl, true, List, [], ◌∷◌, ◌++◌, none, arith, lt→ltb,
}
use extent_based_fs.Base.Int.{pos, minus_one}
use extent_based_fs.Types.{FsCtx, ok, inode_capacity}
use extent_based_fs.Dir.{strtok, dentry_addrs, inode_entries}
use extent_based_fs.Dir.Lookup.{IsDir}
use extent_based_fs.Ops.{a1fs_readdir, fill_names, is_absolute, dot, dot_dot}
use extent_based_fs.Catalog.{Names}
use extent_based_fs.Catalog.Names.{a1fs_readdir-Represents}
use extent_based_fs.Tree.{bare, folder, Nodes, Leads}
use extent_based_fs.Tree.Shape.{IsTree}
use extent_based_fs.Tree.Walk.{used_below, node-Stands, folder-Represents, get_inode_num-Leads}

-- A directory without a block has no entries.
pub no_block-IsDir :
    {s : FsCtx} (d : ℕ)
    → d < inode_capacity s.sb
    → (s.itable d).last_used_extent ≡ minus_one
    → IsDir s d []
unfolding dentry_addrs inode_entries
no_block-IsDir d below e = record { in_table = below; entries = rw e refl }

-- Reading a directory of a tree by an absolute path along its names returns 0 and changes nothing.
-- Of a directory with names are listed, without repetition, exactly these, and after them `.` and
-- `..`; of a directory without a block, `.` and `..` alone.
pub a1fs_readdir-IsTree :
    {s : FsCtx} {total : ℕ} {T : Nodes} {spare d : ℕ} (path : List ℕ)
    → IsTree s total T spare
    → is_absolute path ≡ true
    → Leads T 0 (strtok path) d
    → ((m : Names) (room : ℕ)
        → T d ≡ folder m room
        → (listed : List (List ℕ)) × (a1fs_readdir path s
            ≡ ok (record { names = listed ++ dot ∷ dot_dot ∷ []; result = pos 0 }) s)
          × Nodup listed
          × ((name : List ℕ) → Mem name listed ↔ (m name ≢ none)))
      × (T d ≡ bare
          → a1fs_readdir path s ≡ ok (record { names = dot ∷ dot_dot ∷ []; result = pos 0 }) s)
unfolding a1fs_readdir fill_names
a1fs_readdir-IsTree {s} {d} path tree absolute leads =
    let led = get_inode_num-Leads tree.has path leads in
    (
      λ m room dir. a1fs_readdir-Represents path (folder-Represents tree.has d dir) absolute led,
      λ dir.
          let stands = node-Stands tree.has d dir (λ e. cc) in
          let in_table : d < inode_capacity s.sb =
            omega (arith, used_below tree.has d (λ e. cc), tree.has.counts.in_table) in
          rw
            (
              absolute,
              led,
              lt→ltb d _ in_table,
              (no_block-IsDir {s = s} d in_table stands.2).entries,
            )
            refl,
    )
