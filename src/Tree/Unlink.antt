-- ===== src/Tree/Unlink.antt =====
-- a1fs_unlink of a1b/a1fs.c on a tree, for a file with a block.
use mathlib.Core.Path.{subst}
use extent_based_fs.Base.{
  ℕ, suc, ◌+◌, ◌<◌, ◌≡◌, refl, ap, ◌∙◌, true, List, none, some, arith, ne→==, eq→==, lt→ltb,
}
use extent_based_fs.Base.Int.{pos}
use extent_based_fs.Types.{FsCtx, ok, update}
use extent_based_fs.Image.{Bytes}
use extent_based_fs.Bitmap.{set_bits, set_block_bits}
use extent_based_fs.Ops.{a1fs_unlink, free_extents}
use extent_based_fs.Dir.{extents_used}
use extent_based_fs.Ops.Unlink.{freed_run}
use extent_based_fs.Ops.FreeExtents.{one_freed, free_step}
use extent_based_fs.Catalog.{Names, assign}
use extent_based_fs.Tree.{Nodes, Node, vacant, folder, stored, dropped, Leads, Place, with_name}
use extent_based_fs.Tree.Links.{child, links_kept}
use extent_based_fs.Tree.Shape.{IsTree}
use extent_based_fs.Tree.First.{update-twice}
use extent_based_fs.Tree.Free.{freed, HasNodes-freed}
use extent_based_fs.Tree.Remove.{leads, in_table, remove-IsTree}
use extent_based_fs.Tree.Stored.{holds, bit_set, block_used}

module _ (T : Nodes) (i : ℕ) {size : ℕ} {content : Bytes} (file : T i ≡ stored size content)
    (v : Node) where
  folder_kept : {c room : ℕ} {m : Names} → T c ≡ folder m room → update T i v c ≡ folder m room
  folder_kept {c} e = rw (ne→== c i (λ q. cc (e, file, ap T q))) e

  Leads-update :
      {c c' : ℕ} {tokens : List (List ℕ)} → Leads T c tokens c' → Leads (update T i v) c tokens c'
  Leads-update Leads.here = Leads.here
  Leads-update (Leads.down e is led rest) = Leads.down (folder_kept e) is led (Leads-update rest)

  Place-update :
      {path name : List ℕ} {p : ℕ} → Place T path name p → Place (update T i v) path name p
  Place-update place = record {
    dirs = place.dirs;
    tokens = place.tokens;
    last = place.last;
    leads = Leads-update place.leads;
    ok_name = place.ok_name;
  }

module _ {s : FsCtx} {total : ℕ} {T : Nodes} {spare : ℕ} (tree : IsTree s total T spare)
    {path name : List ℕ} {p ino room size : ℕ} {m : Names} {content : Bytes}
    (place : Place T path name p) (parent : T p ≡ folder m room) (led : m name ≡ some ino)
    (file : T ino ≡ stored size content) (zeros : (x : ℕ) → x < 4096 → content x ≡ 0) where
  -- The state once the block is given back.
  abbrev given : FsCtx
  given = freed s (holds tree.has file).block s.itable

  free_extents-given : free_extents (s.itable ino) 1 0 s ≡ ok true given
  unfolding free_extents set_bits set_block_bits
  free_extents-given =
      let h = holds tree.has file in
      free_step (s.itable ino) 0 0 0 s (one_freed s (s.itable ino) 0 1) (omega arith) h.count
        (rw h.start (block_used tree.has file)) tree.has.blocks.bytes refl
      ∙ ap (λ k. ok true (freed s k s.itable)) h.start

  given-IsTree : IsTree given total (update T ino dropped) (suc spare)
  given-IsTree = record {
    has =
        HasNodes-freed tree.has file zeros s.itable dropped (λ j ne. refl)
          (bit_set tree.has file, refl);
    links =
        links_kept tree.links ino dropped (λ other. unfold child in rw file refl)
          (λ other. unfold child in refl) (λ e. cc);
  }

  pub unlink_stored-IsTree :
      (t : FsCtx) × (a1fs_unlink path s ≡ ok (pos 0) t)
      × IsTree t total (with_name T p (assign m name none) (room + 1) ino vacant) (suc spare)
  unfolding a1fs_unlink
  unlink_stored-IsTree =
      let h = holds tree.has file in
      let (t, run, after) =
        remove-IsTree given-IsTree (Place-update T ino file dropped place)
          (folder_kept T ino file dropped parent) led
          (λ other. unfold child in rw (eq→== ino ino refl) refl) (pos 0) in
      (
        t,
        rw
            (
              leads tree place parent led,
              lt→ltb ino _ (in_table tree place parent led),
              freed_run s (s.itable ino) (
                  ap (λ z. free_extents (s.itable ino) (extents_used z) 0 s) h.last
                  ∙ free_extents-given),
            )
            run,
        subst
            (λ nodes.
              IsTree t total (update nodes p (folder (assign m name none) (room + 1))) (suc spare))
            (update-twice dropped vacant T ino) after,
      )
