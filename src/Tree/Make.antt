-- ===== src/Tree/Make.antt =====
-- a1fs_mkdir and a1fs_create of a1b/a1fs.c on a tree: the first vacant inode gets a name.
use Prim.Native.Nat.{bit_or}
use extent_based_fs.Base.{ℕ, suc, ◌≡◌, ◌≢◌, refl, ap, ◌∙◌, true, List, none, some, arith, ne→==}
use extent_based_fs.Base.Int.{ℤ, pos, minus_one, neg}
use extent_based_fs.Types.{FsCtx, Cmd, ok, pure, update}
use extent_based_fs.Dir.Lookup.{first_with}
use extent_based_fs.Entry.Add.{has_ino, find_entry-first_with, filled, add_dentry-filled}
use extent_based_fs.Ops.Make.{Placeable, made, IsDir-made, unused-made, new_node-Placeable}
use extent_based_fs.Ops.{new_node, a1fs_mkdir, a1fs_create, s_ifdir, is_reg, enoent, return_errno}
use extent_based_fs.Catalog.{Names, assign}
use extent_based_fs.Catalog.Steps.{unused_entry}
use extent_based_fs.Tree.{Node, bare, folder, blank, Nodes, Place, IsFirstVacant, with_name}
use extent_based_fs.Tree.Links.{child, links_name}
use extent_based_fs.Tree.Shape.{IsTree}
use extent_based_fs.Tree.Walk.{folder-Represents, lookup-folder, Leads-Resolves}
use extent_based_fs.Tree.Choice.{chosen}
use extent_based_fs.Tree.Link.{HasNodes-filled}
use extent_based_fs.Tree.Inode.{IsFresh, bare-IsFresh, blank-IsFresh, HasNodes-made}

module _ {s : FsCtx} {total : ℕ} {T : Nodes} {spare : ℕ} (tree : IsTree s total T spare)
    {path name : List ℕ} {p ino room : ℕ} {m : Names} (mode : ℕ) (place : Place T path name p)
    (parent : T p ≡ folder m (suc room)) (new : m name ≡ none) (v : IsFirstVacant T total ino) where
  vacant_child : (other : List ℕ) → child (T ino) other ≡ none
  unfolding child
  vacant_child other = rw v.is_vacant refl

  apart : p ≢ ino
  apart e = cc (parent, v.is_vacant, ap T e)

  module _ {a : ℕ} (e : first_with (has_ino s.image minus_one) (tree.has.places p) ≡ some a) where
    placeable : Placeable s path name p ino a (tree.has.places p)
    placeable =
        let (above, r, avoids) = Leads-Resolves tree.has (pos 0) place.leads in
        let holds = folder-Represents tree.has p parent in
        record {
          dirs = place.dirs;
          above = above;
          tokens = place.tokens;
          last = place.last;
          resolves = r;
          avoids = avoids ino vacant_child;
          apart = apart;
          parent = holds.is;
          unused = find_entry-first_with minus_one holds.is ∙ rw e refl;
          ok_name = place.ok_name.0;
          new = lookup-folder tree.has p name parent place.ok_name ∙ rw new refl;
          chosen = chosen tree.has v;
          in_table = omega (arith, v.below, tree.has.counts.in_table);
          small = omega (arith, v.below, tree.has.counts.small);
        }

    unlinked : (other : List ℕ) → m other ≢ some ino
    unlinked other q = tree.links.linked p other ino (unfold child in rw parent q) v.is_vacant

    new_node-after :
        (node_mode : ℕ) (w : Node) (no_parent : Cmd ℤ)
        → IsFresh w
        → (new_node path node_mode ino no_parent s
            ≡ ok (pos 0) (filled (made s ino node_mode) p ino name a))
          × IsTree
              (filled (made s ino node_mode) p ino name a)
              total
              (with_name T p (assign m name (some ino)) room ino w)
              spare
    new_node-after node_mode w no_parent fresh =
        let has' = HasNodes-made tree.has ino node_mode w v.is_vacant v.below fresh in
        let parent' : update T ino w p ≡ folder m (suc room) = rw (ne→== p ino apart) parent in
        let is' = IsDir-made node_mode placeable in
        let holds' = folder-Represents has' p parent' in
        let free' = unused-made node_mode placeable in
        (
          new_node-Placeable node_mode placeable no_parent _ (
              add_dentry-filled ino name holds'.is
                (ground (arith, find_entry-first_with minus_one holds'.is, free'))
                place.ok_name.0.short),
          record {
            has =
                HasNodes-filled has' p name ino parent'
                  (
                    place.ok_name,
                    new,
                    unlinked,
                    omega (arith, v.below, tree.has.counts.small),
                    omega arith,
                  )
                  (ground (arith, find_entry-first_with minus_one holds'.is, free'));
            links =
                links_name tree.links p m room ino name (λ other. unfold child in rw parent refl) w
                  fresh.stands fresh.empty v.is_vacant (λ q. cc);
          },
        )

  pub mkdir-IsTree :
      (t : FsCtx) × (a1fs_mkdir path mode s ≡ ok (pos 0) t)
      × IsTree t total (with_name T p (assign m name (some ino)) room ino bare) spare
  unfolding a1fs_mkdir
  mkdir-IsTree =
      let (a, e) = unused_entry (folder-Represents tree.has p parent) (omega arith) in
      let (run, after) =
        new_node-after e (bit_or mode s_ifdir) bare (pure (neg enoent)) bare-IsFresh in
      (_, rw (chosen tree.has v) run, after)

  pub create-IsTree :
      is_reg mode ≡ true
      → (t : FsCtx) × (a1fs_create path mode s ≡ ok (pos 0) t)
        × IsTree t total (with_name T p (assign m name (some ino)) room ino blank) spare
  unfolding a1fs_create
  create-IsTree reg =
      let (a, e) = unused_entry (folder-Represents tree.has p parent) (omega arith) in
      let (run, after) = new_node-after e mode blank return_errno blank-IsFresh in
      (_, rw (reg, chosen tree.has v) run, after)
