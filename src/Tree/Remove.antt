-- ===== src/Tree/Remove.antt =====
-- a1fs_rmdir and a1fs_unlink of a1b/a1fs.c on a tree: a name and its inode are taken away.
use extent_based_fs.Base.{
  ℕ, ◌+◌, ◌<◌, ◌≡◌, ◌≢◌, refl, ◌∙◌, List, [], ◌∷◌, ◌++◌, none, some, arith, ne→==, lt→ltb,
}
use extent_based_fs.Base.Int.{ℤ, pos, neg, ◌+ℤ◌}
use extent_based_fs.Types.{FsCtx, ok, update, inode_capacity}
use extent_based_fs.Bitmap.{flip_bit}
use extent_based_fs.Dir.{get_inode_num}
use extent_based_fs.Dir.Lookup.{first_with}
use extent_based_fs.Entry.Add.{has_ino, find_entry-first_with}
use extent_based_fs.Entry.Clear.{cleared}
use extent_based_fs.Ops.Changed.{find_entry-changed}
use extent_based_fs.Ops.Remove.{Removable, reset, released, remove_node-cleared}
use extent_based_fs.Ops.{remove_node, a1fs_rmdir, a1fs_unlink, enotempty}
use extent_based_fs.Catalog.{Names, assign}
use extent_based_fs.Catalog.Reads.{first_ino-OnlyAt}
use extent_based_fs.Catalog.Rooms.{room-all, room-some}
use extent_based_fs.Catalog.Steps.{named_entry}
use extent_based_fs.Tree.{
  Node, vacant, bare, folder, blank, stored, dropped, Nodes, Leads, Place, IsEmptyDir, with_name,
}
use extent_based_fs.Tree.Links.{child, unlinks_name}
use extent_based_fs.Tree.Shape.{IsTree}
use extent_based_fs.Tree.Walk.{
  Stands-used, used_below, node-Stands, folder-Represents, lookup-folder, Leads-Resolves,
  get_inode_num-Leads,
}
use extent_based_fs.Tree.Link.{HasNodes-cleared}
use extent_based_fs.Tree.Inode.{HasNodes-released}

IsEmptyDir-child : (v : Node) → IsEmptyDir v → (name : List ℕ) → child v name ≡ none
unfolding child
IsEmptyDir-child vacant h name = refl
IsEmptyDir-child bare h name = refl
IsEmptyDir-child (folder m room) h name = h name
IsEmptyDir-child blank h name = refl
IsEmptyDir-child (stored size content) h name = refl
IsEmptyDir-child dropped h name = refl

module _ {s : FsCtx} {total : ℕ} {T : Nodes} {spare : ℕ} (tree : IsTree s total T spare)
    {path name : List ℕ} {p ino room : ℕ} {m : Names} (place : Place T path name p)
    (parent : T p ≡ folder m room) (led : m name ≡ some ino) where
  ino_used : T ino ≢ vacant
  ino_used = tree.links.linked p name ino (unfold child in rw parent led)

  pub in_table : ino < inode_capacity s.sb
  in_table = omega (arith, used_below tree.has ino ino_used, tree.has.counts.in_table)

  pub leads : get_inode_num path 0 s ≡ ok (pos ino) s
  leads = get_inode_num-Leads tree.has path (rw place.tokens (snoc place.leads))
    where
      snoc : {c : ℕ} {dirs : List (List ℕ)} → Leads T c dirs p → Leads T c (dirs ++ name ∷ []) ino
      snoc Leads.here = Leads.down parent place.ok_name led Leads.here
      snoc (Leads.down e is l r) = Leads.down e is l (snoc r)

  module _ (empty : (other : List ℕ) → child (T ino) other ≡ none) where
    apart : p ≢ ino
    apart e = let gone = rw (← e) at (empty name) in unfold child in cc (rw parent at gone)

    module _ {a : ℕ} (e : first_with (has_ino s.image (pos ino)) (tree.has.places p) ≡ some a) where
      removable : Removable s path name p ino a (tree.has.places p)
      removable =
          let (above, r, avoids) = Leads-Resolves tree.has (pos 0) place.leads in
          let holds = folder-Represents tree.has p parent in
          let (named, only) =
            first_ino-OnlyAt s.image name ino (tree.has.places p) holds.rows place.ok_name
              holds.shows holds.tidy (holds.names name ∙ led) e in
          record {
            dirs = place.dirs;
            above = above;
            tokens = place.tokens;
            resolves = r;
            avoids = avoids ino empty;
            apart = apart;
            parent = holds.is;
            leads = lookup-folder tree.has p name parent place.ok_name ∙ rw led refl;
            entry = find_entry-first_with (pos ino) holds.is ∙ rw e refl;
            named = named;
            only = only;
            ok_name = place.ok_name.0;
            nonempty = place.ok_name.1;
            in_table = in_table;
            used =
                Stands-used s (tree.has.places ino) ino (T ino) ino_used
                  (tree.has.stands ino (used_below tree.has ino ino_used));
          }

      IsTree-cleared :
          (drop_dir : ℤ)
          → IsTree
              (cleared (released s ino) p a drop_dir)
              total
              (with_name T p (assign m name none) (room + 1) ino vacant)
              spare
      IsTree-cleared drop_dir =
          let has' = HasNodes-released tree.has ino ino_used in
          let parent' : update T ino vacant p ≡ folder m room = rw (ne→== p ino apart) parent in
          let holds' = folder-Represents has' p parent' in
          let found' =
            find_entry-changed (reset s ino) (s.sb.sb_free_inodes_count +ℤ pos 1)
              (flip_bit s.inode_bits ino) (s.ticks + 1) s ino p (pos ino) apart removable.entry in
          record {
            has =
                HasNodes-cleared has' p name ino drop_dir parent' led
                  (ground (arith, find_entry-first_with (pos ino) holds'.is, found'));
            links =
                unlinks_name tree.links p m (room + 1) ino name
                  (λ other. unfold child in rw parent refl) led;
          }

    pub remove-IsTree :
        (drop_dir : ℤ)
        → (t : FsCtx) × (remove_node path ino drop_dir s ≡ ok (pos 0) t)
          × IsTree t total (with_name T p (assign m name none) (room + 1) ino vacant) spare
    remove-IsTree drop_dir =
        let (a, e) = named_entry (folder-Represents tree.has p parent) name ino led in
        (_, remove_node-cleared (removable e) drop_dir, IsTree-cleared e drop_dir)

  no_entries : IsEmptyDir (T ino) → (s.itable ino).num_entries ≡ 0
  no_entries empty = count (T ino) refl empty
    where
      count : (v : Node) → T ino ≡ v → IsEmptyDir v → (s.itable ino).num_entries ≡ 0
      count vacant e h = absurd h
      count blank e h = absurd h
      count (stored size content) e h = absurd h
      count dropped e h = absurd h
      count bare e h = (node-Stands tree.has ino e (λ q. cc)).3
      count (folder m' room') e h =
          let stands = node-Stands tree.has ino e (λ q. cc) in
          omega (arith, stands.3, room-all stands.1 h)

  pub rmdir-IsTree :
      IsEmptyDir (T ino)
      → (t : FsCtx) × (a1fs_rmdir path s ≡ ok (pos 0) t)
        × IsTree t total (with_name T p (assign m name none) (room + 1) ino vacant) spare
  unfolding a1fs_rmdir
  rmdir-IsTree empty =
      let (t, run, after) = remove-IsTree (IsEmptyDir-child (T ino) empty) (pos 1) in
      (t, rw (leads, lt→ltb ino _ in_table, no_entries empty) run, after)

  pub unlink-IsTree :
      T ino ≡ blank
      → (t : FsCtx) × (a1fs_unlink path s ≡ ok (pos 0) t)
        × IsTree t total (with_name T p (assign m name none) (room + 1) ino vacant) spare
  unfolding a1fs_unlink
  unlink-IsTree file =
      let stands = node-Stands tree.has ino file (λ q. cc) in
      let (t, run, after) = remove-IsTree (λ other. unfold child in rw file refl) (pos 0) in
      (t, rw (leads, lt→ltb ino _ in_table, stands.2, stands.3) run, after)

  pub rmdir-keeps :
      {m' : Names} {room' i : ℕ} (other : List ℕ)
      → T ino ≡ folder m' room'
      → m' other ≡ some i
      → a1fs_rmdir path s ≡ ok (neg enotempty) s
  unfolding a1fs_rmdir
  rmdir-keeps other dir named =
      let stands = node-Stands tree.has ino dir (λ q. cc) in
      let some_entries : 0 < (s.itable ino).num_entries =
        omega (arith, stands.3, room-some stands.1 other named) in
      rw (leads, lt→ltb ino _ in_table, lt→ltb 0 _ some_entries) refl
