-- ===== src/Session/Nodes.antt =====
-- What the callbacks of a1b/a1fs.c that make and remove nodes leave alone: the layout of the image.
use extent_based_fs.Base.{arith, ℕ, zero, suc, ◌+◌, refl, List, not, ◌||◌, ltb, length, ◌==◌}
use extent_based_fs.Base.Int.{ℤ, pos, minus_one, is_neg, eq_ℤ}
use extent_based_fs.Types.{FsCtx, Extent, Inode, Timespec, Cmd}
use Prim.Native.Nat.{bit_or}
use extent_based_fs.Bitmap.{
  check_bit_usage, get_available_bit, set_bits, count_flip, flip_bit, Flip,
}
use extent_based_fs.Image.{name_addr, set_dentry_ino, store_str, store8}
use extent_based_fs.Dir.{extents_used}
use extent_based_fs.Entry.{find_entry, fill_entry, add_dentry, clear_entry}
use extent_based_fs.Ops.{
  new_node, a1fs_mkdir, a1fs_create, remove_node, a1fs_rmdir, free_extents, a1fs_unlink,
  a1fs_utimens, is_reg, s_ifdir, new_name, return_errno,
}
use extent_based_fs.Session.Frame.{
  Frames, whole, returns, faults, then-Frames, then_reads, if-Frames, option-Frames, moved,
}
use extent_based_fs.Session.Reads.{
  index_reads, load_inode_reads, extent_index_reads, settle_reads, get_inode_num_reads,
}
use extent_based_fs.Session.Layout.{
  layout, load_inode_keeps, get_inode_num_keeps, store_inode_keeps, layout-set_block_range,
  make_dentry_block_keeps, create_inode_keeps,
}

find_entry_reads : (d : ℕ) (ino : ℤ) → Frames whole (find_entry d ino)
unfolding find_entry
find_entry_reads d ino s = then-Frames whole s (load_inode_reads d s) λ inode u. settle_reads _ u

fill_entry_keeps : (d ino : ℕ) (name : List ℕ) (a : ℕ) → Frames layout (fill_entry d ino name a)
unfolding fill_entry
fill_entry_keeps d ino name a s =
    if-Frames layout s (ltb s.size (name_addr a + length name + 1)) _ _ (faults layout s) (
      then-Frames layout s (load_inode_keeps d filled)
        λ inode u. then-Frames layout u (store_inode_keeps d _ _) λ x t. returns layout t refl)
  where
    filled : FsCtx
    filled = record s { image = set_dentry_ino (store_str s.image (name_addr a) name) a (pos ino) }

add_dentry_keeps : (d ino : ℕ) (name : List ℕ) → Frames layout (add_dentry d ino name)
unfolding add_dentry
add_dentry_keeps d ino name s = then_reads layout s _ (load_inode_reads d s) λ inode.
    then-Frames layout s
      (if-Frames layout s (eq_ℤ inode.last_used_extent minus_one) _ _ (make_dentry_block_keeps d s)
        (returns layout s refl))
      λ made t. if-Frames layout t (is_neg made) _ _ (returns layout t refl) (
        then_reads layout t _ (find_entry_reads d minus_one t) λ free.
          then-Frames layout t
            (option-Frames layout t free _ _ (make_dentry_block_keeps d t)
              λ a. returns layout t refl)
            λ r u. if-Frames layout u (is_neg r) _ _ (returns layout u refl) (
              then_reads layout u _ (find_entry_reads d minus_one u) λ slot.
                option-Frames layout u slot _ _ (returns layout u refl)
                  λ a. fill_entry_keeps d ino name a u))

clear_entry_keeps : (d a : ℕ) (drop_dir : ℤ) → Frames layout (clear_entry d a drop_dir)
unfolding clear_entry
clear_entry_keeps d a drop_dir s =
    then-Frames layout s (load_inode_keeps d emptied)
      λ inode u. then-Frames layout u (store_inode_keeps d _ _) λ x t. returns layout t refl
  where
    emptied : FsCtx
    emptied = record s {
      image = store8 (set_dentry_ino s.image a minus_one) (name_addr a) 0;
      ticks = s.ticks + 1;
    }

new_name_reads : (path : List ℕ) → Frames whole (new_name path)
new_name_reads path s a t e = ground arith

new_node_keeps :
    (path : List ℕ) (mode ino : ℕ) (no_parent : Cmd ℤ)
    → Frames layout no_parent
    → Frames layout (new_node path mode ino no_parent)
unfolding new_node set_bits
new_node_keeps path mode ino no_parent h s =
    then-Frames layout s (create_inode_keeps ino mode _) λ made t.
      then_reads layout t _ (get_inode_num_reads path 1 t) λ par.
        if-Frames layout t (is_neg par) _ _ (h t) (
          then_reads layout t _ (index_reads par t) λ p.
            then_reads layout t _ (new_name_reads path t) λ name.
              then-Frames layout t (add_dentry_keeps p ino name t) λ added u.
                if-Frames layout u (is_neg added) _ _ (returns layout u refl)
                  (returns layout u refl))

pub a1fs_mkdir_keeps : (path : List ℕ) (mode : ℕ) → Frames layout (a1fs_mkdir path mode)
unfolding a1fs_mkdir
a1fs_mkdir_keeps path mode s =
    let available = get_available_bit s.sb s.inode_bits 0 minus_one in
    if-Frames layout s (eq_ℤ available minus_one) _ _ (returns layout s refl) (
      then_reads layout s _ (index_reads available s)
        λ ino. new_node_keeps path (bit_or mode s_ifdir) ino _ (λ t. returns layout t refl) s)

pub a1fs_create_keeps : (path : List ℕ) (mode : ℕ) → Frames layout (a1fs_create path mode)
unfolding a1fs_create
a1fs_create_keeps path mode s =
    let available = get_available_bit s.sb s.inode_bits 0 minus_one in
    if-Frames layout s (not (is_reg mode)) _ _ (faults layout s) (
      if-Frames layout s (eq_ℤ available minus_one) _ _ (returns layout s refl) (
        then_reads layout s _ (index_reads available s)
          λ ino. new_node_keeps path mode ino return_errno (λ t. returns layout t refl) s))

pub a1fs_utimens_keeps :
    (path : List ℕ) (mtime : Timespec) → Frames layout (a1fs_utimens path mtime)
unfolding a1fs_utimens
a1fs_utimens_keeps path mtime s = then_reads layout s _ (get_inode_num_reads path 0 s) λ found.
    if-Frames layout s (is_neg found) _ _ (returns layout s refl) (
      then_reads layout s _ (index_reads found s) λ ino.
        then_reads layout s _ (load_inode_reads ino s)
          λ inode. then-Frames layout s (store_inode_keeps ino _ s) λ u t. returns layout t refl)

remove_node_keeps :
    (path : List ℕ) (ino : ℕ) (drop_dir : ℤ) → Frames layout (remove_node path ino drop_dir)
unfolding remove_node set_bits
remove_node_keeps path ino drop_dir s =
    then-Frames layout s (load_inode_keeps ino (record s { ticks = s.ticks + 1 })) λ inode t.
      then-Frames layout t (store_inode_keeps ino _ t) λ u v.
        if-Frames layout v (not (check_bit_usage v.inode_bits ino)) _ _ (returns layout v refl) (
          then-Frames layout v (get_inode_num_keeps path 1 (freed v)) λ parent w.
            if-Frames layout w (is_neg parent) _ _ (returns layout w refl) (
              then_reads layout w _ (index_reads parent w) λ p.
                then_reads layout w _ (find_entry_reads p (pos ino) w) λ slot.
                  option-Frames layout w slot _ _ (returns layout w refl) λ a.
                    then-Frames layout w (clear_entry_keeps p a drop_dir w)
                      λ x y. returns layout y refl))
  where
    freed : FsCtx → FsCtx
    freed v = record v {
      sb = record v.sb { sb_free_inodes_count = count_flip 0 v.sb.sb_free_inodes_count };
      inode_bits = flip_bit v.inode_bits ino;
    }

pub a1fs_rmdir_keeps : (path : List ℕ) → Frames layout (a1fs_rmdir path)
unfolding a1fs_rmdir
a1fs_rmdir_keeps path s = then_reads layout s _ (get_inode_num_reads path 0 s) λ found.
    then_reads layout s _ (index_reads found s) λ ino.
      then_reads layout s _ (load_inode_reads ino s) λ inode.
        if-Frames layout s (ltb 0 inode.num_entries) _ _ (returns layout s refl)
          (remove_node_keeps path ino (pos 1) s)

free_extents_keeps : (inode : Inode) (left i : ℕ) → Frames layout (free_extents inode left i)
unfolding free_extents
free_extents_keeps inode zero i s = returns layout s refl
free_extents_keeps inode (suc left) i s = then_reads layout s _ (extent_index_reads (pos i) s) λ k.
    if-Frames layout s (not (check_bit_usage s.block_bits (inode.i_extent k).start)) _ _
      (returns layout s refl)
      (moved layout s (freed k) (layout-set_block_range (e k).start (e k).count 0 s) (
        if-Frames layout (freed k) (is_neg (bits k).result) _ _ (returns layout (freed k) refl)
          (free_extents_keeps inode left (i + 1) (freed k))))
  where
    e : ℕ → Extent
    e k = inode.i_extent k

    bits : ℕ → Flip
    bits k = set_bits s.sb s.block_bits (e k).start 1 (e k).count 0

    freed : ℕ → FsCtx
    freed k = record s { sb = (bits k).sb; block_bits = (bits k).bitmap }

pub a1fs_unlink_keeps : (path : List ℕ) → Frames layout (a1fs_unlink path)
unfolding a1fs_unlink
a1fs_unlink_keeps path s = then_reads layout s _ (get_inode_num_reads path 0 s) λ found.
    then_reads layout s _ (index_reads found s) λ ino.
      then_reads layout s _ (load_inode_reads ino s) λ inode.
        then-Frames layout s
          (if-Frames layout s (not (inode.size == 0) || not (eq_ℤ inode.last_used_extent minus_one))
            _ _ (free_extents_keeps inode (extents_used inode.last_used_extent) 0 s)
            (returns layout s refl))
          λ freed t.
            if-Frames layout t (not freed) _ _ (returns layout t refl)
              (remove_node_keeps path ino (pos 0) t)
