-- ===== src/Session/Reads.antt =====
-- The parts of a1b/a1fs_helper.c and a1b/a1fs.c that only read.
use extent_based_fs.Base.{
  ℕ, zero, suc, ◌+◌, ◌-◌, refl, List, [], ◌∷◌, Option, none, some, not, arith, leb, length,
}
use extent_based_fs.Base.Int.{ℤ, pos, negsuc, minus_one, is_neg, eq_ℤ, ltb_ℤ, ◌-ℤ◌}
use extent_based_fs.Types.{FsCtx, Inode, load_inode, index, a1fs_path_max, inode_extents}
use extent_based_fs.Image.{Bytes}
use extent_based_fs.Dir.{
  Found, found, missing, stray, settle, inode_lookup, walk, get_inode_num, dentry_addrs,
}
use extent_based_fs.Alloc.{extent_index}
use extent_based_fs.Contents.{find_offset_from, find_offset_extent}
use extent_based_fs.Ops.{a1fs_statfs, a1fs_getattr, a1fs_readdir, fill_names, is_absolute}
use extent_based_fs.Io.{in_image, read_loop, a1fs_read, extent_bytes, to_int}
use extent_based_fs.Session.Frame.{Frames, whole, returns, faults, then-Frames, if-Frames}

pub index_reads : (z : ℤ) → Frames whole (index z)
index_reads (pos n) s a t e = cc
index_reads (negsuc n) s a t e = cc

pub load_inode_reads : (i : ℕ) → Frames whole (load_inode i)
load_inode_reads i s a t e = ground arith

pub settle_reads : (f : Found) → Frames whole (settle f)
settle_reads (found b) s a t e = cc
settle_reads missing s a t e = cc
settle_reads stray s a t e = cc

inode_lookup_reads : (par : ℤ) (token : List ℕ) → Frames whole (inode_lookup par token)
unfolding inode_lookup
inode_lookup_reads par token s = if-Frames whole _ (eq_ℤ par minus_one) _ _ (returns whole _ refl) (
    then-Frames whole _ (index_reads par s) λ i u.
      then-Frames whole _ (load_inode_reads i u)
        λ inode v. then-Frames whole _ (settle_reads _ v) λ slot w. returns whole _ refl)

walk_reads : (tokens : List (List ℕ)) (c p : ℤ) → Frames whole (walk tokens c p)
unfolding walk
walk_reads [] c p s = returns whole _ refl
walk_reads (token ∷ tokens) c p s =
    then-Frames whole _ (inode_lookup_reads _ token s) λ next. walk_reads tokens next _

pub get_inode_num_reads : (path : List ℕ) (tog : ℕ) → Frames whole (get_inode_num path tog)
unfolding get_inode_num
get_inode_num_reads path tog s =
    then-Frames whole _ (walk_reads _ (pos 0) (pos 0) s) λ w u. returns whole _ refl

pub extent_index_reads : (z : ℤ) → Frames whole (extent_index z)
extent_index_reads z s = then-Frames whole _ (index_reads z s) λ i u a t e. ground arith

-- The callbacks that only describe.
pub a1fs_statfs_reads : Frames whole a1fs_statfs
unfolding a1fs_statfs
a1fs_statfs_reads s = returns whole _ refl

pub a1fs_getattr_reads : (path : List ℕ) → Frames whole (a1fs_getattr path)
unfolding a1fs_getattr
a1fs_getattr_reads path s =
    if-Frames whole _ (leb a1fs_path_max (length path)) _ _ (returns whole _ refl) (
      if-Frames whole _ (not (is_absolute path)) _ _ (returns whole _ refl) (
        then-Frames whole _ (get_inode_num_reads path 0 s) λ found u.
          if-Frames whole _ (is_neg found) _ _ (returns whole _ refl) (
            then-Frames whole _ (index_reads found u)
              λ i v. then-Frames whole _ (load_inode_reads i v) λ inode w. returns whole _ refl)))

fill_names_reads : (s : FsCtx) (entries : List (Option ℕ)) → Frames whole (fill_names s entries)
unfolding fill_names
fill_names_reads s [] u = returns whole _ refl
fill_names_reads s (none ∷ r) u = faults whole _
fill_names_reads s (some b ∷ r) u =
    then-Frames whole _ (fill_names_reads s r u) λ rest v. returns whole _ refl

pub a1fs_readdir_reads : (path : List ℕ) → Frames whole (a1fs_readdir path)
unfolding a1fs_readdir
a1fs_readdir_reads path s = if-Frames whole _ (not (is_absolute path)) _ _ (returns whole _ refl) (
    then-Frames whole _ (get_inode_num_reads path 0 s) λ found u.
      if-Frames whole _ (is_neg found) _ _ (returns whole _ refl) (
        then-Frames whole _ (index_reads found u) λ i v.
          then-Frames whole _ (load_inode_reads i v) λ inode w.
            then-Frames whole _ (fill_names_reads u (dentry_addrs u inode) w)
              λ names x. returns whole _ refl))

find_offset_from_reads :
    (inode : Inode) (left k : ℕ) (offset : ℤ) → Frames whole (find_offset_from inode left k offset)
unfolding find_offset_from
find_offset_from_reads inode zero k offset s = faults whole _
find_offset_from_reads inode (suc left) k offset s =
    if-Frames whole _ (ltb_ℤ (inode.i_extent k).size offset) _ _
      (if-Frames whole _ (eq_ℤ (inode.i_extent k).size (pos 0)) _ _
        (find_offset_from_reads inode left (k + 1) offset s) (faults whole _))
      (returns whole _ refl)

pub find_offset_extent_reads : (i : ℕ) (offset : ℤ) → Frames whole (find_offset_extent i offset)
unfolding find_offset_extent
find_offset_extent_reads i offset s =
    if-Frames whole _ (eq_ℤ offset (pos 0)) _ _ (returns whole _ refl) (
      if-Frames whole _ (is_neg offset) _ _ (returns whole _ refl) (
        then-Frames whole _ (load_inode_reads i s) λ inode u.
          then-Frames whole _ (find_offset_from_reads inode inode_extents 0 offset u)
            λ k v. returns whole _ refl))

pub in_image_reads : (a : ℕ) (n : ℤ) → Frames whole (in_image a n)
unfolding in_image
in_image_reads a (pos n) s b t e = ground arith
in_image_reads a (negsuc n) s b t e = cc

read_loop_reads :
    (inode : Inode) (size left k : ℕ) (remaining : ℤ) (offset : ℕ) (read : ℤ) (buf : Bytes)
    → Frames whole (read_loop inode size left k remaining offset read buf)
unfolding read_loop
read_loop_reads inode size zero k remaining offset read buf s =
    if-Frames whole _ (ltb_ℤ (pos 0) remaining) _ _ (faults whole _) (returns whole _ refl)
read_loop_reads inode size (suc left) k remaining offset read buf s =
    if-Frames whole _ (not (ltb_ℤ (pos 0) remaining)) _ _ (returns whole _ refl) (
      if-Frames whole _ (ltb_ℤ (extent_bytes (inode.i_extent k).count -ℤ pos offset) remaining) _ _
        (then-Frames whole _ (in_image_reads _ (pos size) s)
          λ n u. read_loop_reads inode size left (k + 1) _ 0 _ _ u)
        (then-Frames whole _ (in_image_reads _ remaining s)
          λ n u. then-Frames whole _ (index_reads read u) λ to v. returns whole _ refl))

pub a1fs_read_reads :
    (path : List ℕ) (buf : Bytes) (size offset : ℕ) → Frames whole (a1fs_read path buf size offset)
unfolding a1fs_read
a1fs_read_reads path buf size offset s =
    then-Frames whole _ (get_inode_num_reads path 0 s) λ found u.
      if-Frames whole _ (is_neg found) _ _ (returns whole _ refl) (
        then-Frames whole _ (index_reads found u) λ i v.
          then-Frames whole _ (load_inode_reads i v) λ inode w.
            if-Frames whole _ (ltb_ℤ (to_int inode.size) (pos offset)) _ _ (returns whole _ refl) (
              then-Frames whole _ (find_offset_extent_reads i (pos offset) w) λ cur x.
                if-Frames whole _ (is_neg cur) _ _ (returns whole _ refl) (
                  then-Frames whole _ (index_reads cur x) λ k y.
                    read_loop_reads inode size (inode_extents - k) k (pos size) offset (pos 0) buf
                      y)))
