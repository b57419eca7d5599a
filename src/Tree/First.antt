-- ===== src/Tree/First.antt =====
-- a1fs_mkdir and a1fs_create of a1b/a1fs.c in a directory that has no block yet.
use Prim.Native.Nat.{bit_or}
use mathlib.Core.Path.{subst}
use extent_based_fs.Base.{
  ℕ, suc, ◌<◌, ◌≡◌, ◌≢◌, refl, ap, true, List, some, arith, ne→==, eq→==, ◌==◌, fun_ext, Bool,
  false, if◌then◌else◌,
}
use extent_based_fs.Base.Int.{ℤ, pos, minus_one, neg}
use extent_based_fs.Types.{FsCtx, Cmd, ok, pure, update, inode_capacity}
use extent_based_fs.Dir.Lookup.{first_with, inode_lookup-first_with}
use extent_based_fs.Alloc.DirBlock.{grown, make_dentry_block-grown}
use extent_based_fs.Entry.Add.{filled, add_dentry-grown}
use extent_based_fs.Ops.Make.{Located, made, new_node_steps}
use extent_based_fs.Ops.{new_node, a1fs_mkdir, a1fs_create, s_ifdir, is_reg, enoent, return_errno}
use extent_based_fs.Catalog.{assign}
use extent_based_fs.Catalog.Steps.{unused_entry}
use extent_based_fs.Tree.{
  Node, bare, folder, blank, Nodes, no_names, Place, IsFirstVacant, with_name,
}
use extent_based_fs.Tree.Links.{child, links_name}
use extent_based_fs.Tree.Shape.{HasNodes, IsTree}
use extent_based_fs.Tree.Walk.{used_below, node-Stands, folder-Represents, Leads-Resolves}
use extent_based_fs.Tree.Choice.{chosen}
use extent_based_fs.Tree.Link.{HasNodes-filled}
use extent_based_fs.Tree.Inode.{IsFresh, bare-IsFresh, blank-IsFresh, HasNodes-made}
use extent_based_fs.Tree.Read.{no_block-IsDir}
use extent_based_fs.Tree.NewBlock.{block_chosen}
use extent_based_fs.Tree.Grow.{inside, HasNodes-grown}

pub update-twice :
    (x y : Node) (nodes : Nodes) (p : ℕ) → update (update nodes p x) p y ≡ update nodes p y
update-twice x y nodes p = fun_ext (λ j. twice (nodes j) (j == p))
  where
    twice : (z : Node) (b : Bool) → (if b then y else if b then x else z) ≡ (if b then y else z)
    twice z true = refl
    twice z false = refl

module _ {s : FsCtx} {total : ℕ} {T : Nodes} {left : ℕ} (tree : IsTree s total T (suc left))
    {path name : List ℕ} {p ino : ℕ} (mode : ℕ) (place : Place T path name p) (dir : T p ≡ bare)
    (v : IsFirstVacant T total ino) where
  apart : p ≢ ino
  apart e = cc (dir, v.is_vacant, ap T e)

  below : p < inode_capacity s.sb
  below = omega (arith, used_below tree.has p (λ e. cc), tree.has.counts.in_table)

  no_block : (s.itable p).last_used_extent ≡ minus_one
  no_block = (node-Stands tree.has p dir (λ e. cc)).2

  located : Located s path name p ino
  located =
      let (above, r, avoids) = Leads-Resolves tree.has (pos 0) place.leads in
      record {
        dirs = place.dirs;
        above = above;
        tokens = place.tokens;
        last = place.last;
        resolves = r;
        avoids = avoids ino (λ other. unfold child in rw v.is_vacant refl);
        apart = apart;
        new = unfold first_with in inode_lookup-first_with name (no_block-IsDir p below no_block);
        in_table = omega (arith, v.below, tree.has.counts.in_table);
      }

  new_node-after :
      (node_mode : ℕ) (w : Node) (no_parent : Cmd ℤ)
      → IsFresh w
      → (t : FsCtx) × (new_node path node_mode ino no_parent s ≡ ok (pos 0) t)
        × IsTree t total (with_name T p (assign no_names name (some ino)) 15 ino w) left
  new_node-after node_mode w no_parent fresh =
      let has' = HasNodes-made tree.has ino node_mode w v.is_vacant v.below fresh in
      let dir' : update T ino w p ≡ bare = rw (ne→== p ino apart) dir in
      let (k, found, lt, clear) = block_chosen has'.blocks in
      let has'' = HasNodes-grown has' p k lt clear dir' in
      let parent' : update (update T ino w) p (folder no_names 16) p ≡ folder no_names 16 =
        rw (eq→== p p refl) refl in
      let holds = folder-Represents has'' p parent' in
      let (a, e) = unused_entry holds (omega arith) in
      let grows =
        make_dentry_block-grown (made s ino node_mode) p k below (rw (ne→== p ino apart) no_block)
          (inside has' p k lt clear) found in
      (
        filled (grown (made s ino node_mode) p k) p ino name a,
        new_node_steps node_mode located no_parent _ (
            add_dentry-grown (made s ino node_mode) ino name below (rw (ne→== p ino apart) no_block)
              grows holds.is e place.ok_name.0.short),
        record {
          has =
              subst
                (λ nodes.
                  HasNodes (filled (grown (made s ino node_mode) p k) p ino name a) total nodes
                    left)
                (update-twice (folder no_names 16) (folder (assign no_names name (some ino)) 15)
                  (update T ino w) p)
                (HasNodes-filled has'' p name ino parent'
                  (
                    place.ok_name,
                    refl,
                    λ other q. cc,
                    omega (arith, v.below, tree.has.counts.small),
                    omega arith,
                  )
                  e);
          links =
              links_name tree.links p no_names 15 ino name (λ other. unfold child in rw dir refl) w
                fresh.stands fresh.empty v.is_vacant (λ q. cc);
        },
      )

  pub mkdir-first :
      (t : FsCtx) × (a1fs_mkdir path mode s ≡ ok (pos 0) t)
      × IsTree t total (with_name T p (assign no_names name (some ino)) 15 ino bare) left
  unfolding a1fs_mkdir
  mkdir-first =
      let (t, run, after) =
        new_node-after (bit_or mode s_ifdir) bare (pure (neg enoent)) bare-IsFresh in
      (t, rw (chosen tree.has v) run, after)

  pub create-first :
      is_reg mode ≡ true
      → (t : FsCtx) × (a1fs_create path mode s ≡ ok (pos 0) t)
        × IsTree t total (with_name T p (assign no_names name (some ino)) 15 ino blank) left
  unfolding a1fs_create
  create-first reg =
      let (t, run, after) = new_node-after mode blank return_errno blank-IsFresh in
      (t, rw (reg, chosen tree.has v) run, after)
