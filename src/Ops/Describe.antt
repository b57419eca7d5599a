-- ===== src/Ops/Describe.antt =====
-- a1fs_getattr of a1b/a1fs.c on a path that a1fs_mkdir or a1fs_create has just made.
use Prim.Native.Nat.{bit_or}
use extent_based_fs.Base.{
  ℕ, ◌%◌, ◌≤◌, ◌<◌, ◌≡◌, ◌≢◌, refl, ap, ◌∙◌, ◌/◌, ◌+◌, true, false, List, [], ◌∷◌, ◌++◌, arith,
  length, lt→ltb, leb,
}
use extent_based_fs.Base.Int.{ℤ, pos, neg}
use extent_based_fs.Types.{FsCtx, Inode, sizeof_inode, ok, pure, a1fs_path_max, inode_capacity}
use extent_based_fs.Bitmap.{flip_bit}
use extent_based_fs.Dir.{inode_lookup, get_inode_num}
use extent_based_fs.Dir.Lookup.{IsDir}
use extent_based_fs.Dir.Resolve.{Resolves, here, step, get_inode_num-Resolves}
use extent_based_fs.Entry.{add_dentry}
use extent_based_fs.Entry.Add.{filled, add_dentry-filled}
use extent_based_fs.Entry.Visible.{lookup-filled, unused-IsSlot, unused_first}
use extent_based_fs.Entry.Elsewhere.{Lacks, lookup-filled_elsewhere}
use extent_based_fs.Ops.Changed.{IsDir-changed, lookup-changed}
use extent_based_fs.Ops.Make.{Placeable, made, fresh, IsDir-made, unused-made, new_node-Placeable}
use extent_based_fs.Ops.{
  a1fs_mkdir, a1fs_create, a1fs_getattr, s_ifdir, is_reg, is_absolute, return_errno, enoent, Attr,
  attr, Stat,
}

-- A lookup of `token` in a directory that is neither `p` nor `ino` and has no entry at `a`.
pub record LooksElsewhere (s : FsCtx) (a p ino : ℕ) (curr : ℤ) (token : List ℕ) : Type 0 where
  pub dir : ℕ
  pub entries : List ℕ
  pub at : curr ≡ pos dir
  pub is_dir : IsDir s dir entries
  pub lacks : Lacks a entries
  pub not_parent : dir ≢ p
  pub not_new : dir ≢ ino
  pub short : length token ≤ 251

-- All lookups of a walk are of this kind.
abbrev pub WalksElsewhere :
    (a p ino : ℕ) {s : FsCtx} {par curr par' curr' : ℤ} {tokens : List (List ℕ)}
    → Resolves s par curr tokens par' curr'
    → Type 0
WalksElsewhere a p ino here = Unit
WalksElsewhere a p ino {s} (step {curr} {token} e ne r) =
    LooksElsewhere s a p ino curr token × WalksElsewhere a p ino r

-- What a1fs_getattr reports of an inode.
abbrev pub attr_of : Inode → Stat
attr_of v = record {
  st_mode = v.mode;
  st_nlink = v.links;
  st_size = v.size;
  st_blocks = v.size / 512 + sizeof_inode;
  st_mtim = v.i_mtime;
}

pub lt→leb_false : (n : ℕ) → n < a1fs_path_max → leb a1fs_path_max n ≡ false
lt→leb_false n h = ground arith

pub getattr-inode :
    (s : FsCtx) (path : List ℕ) (ino : ℕ)
    → is_absolute path ≡ true
    → length path < a1fs_path_max
    → ino < inode_capacity s.sb
    → get_inode_num path 0 s ≡ ok (pos ino) s
    → a1fs_getattr path s ≡ ok (attr (attr_of (s.itable ino))) s
unfolding a1fs_getattr
getattr-inode s path ino absolute short in_table found =
    rw (lt→leb_false (length path) short, absolute, found, lt→ltb ino _ in_table) refl

module _ {s : FsCtx} {path name : List ℕ} {p ino a : ℕ} {es : List ℕ} (mode : ℕ)
    (h : Placeable s path name p ino a es) where
  -- The state at the end.
  abbrev placed : FsCtx
  placed = filled (made s ino mode) p ino name a

  new_placed : inode_lookup (pos p) name (made s ino mode) ≡ ok (neg 1) (made s ino mode)
  new_placed =
      lookup-changed (fresh s ino mode) _ (flip_bit s.inode_bits ino) _ s ino p name h.apart h.new

  found_placed : inode_lookup (pos p) name placed ≡ ok (pos ino) placed
  found_placed =
      lookup-filled a ino name (IsDir-made mode h) (unused-made mode h) h.ok_name h.small new_placed

  lookup-placed :
      {curr r : ℤ} {token : List ℕ}
      → LooksElsewhere s a p ino curr token
      → inode_lookup curr token s ≡ ok r s
      → inode_lookup curr token placed ≡ ok r placed
  lookup-placed {token} l e = rw l.at (
      lookup-filled_elsewhere p ino name a token l.not_parent
        (IsDir-changed (fresh s ino mode) _ (flip_bit s.inode_bits ino) _ l.not_new l.is_dir)
        l.lacks aligned h.ok_name l.short
        (lookup-changed (fresh s ino mode) _ (flip_bit s.inode_bits ino) _ s ino l.dir token
          l.not_new (rw l.at at e)))
    where
      aligned : a % 256 ≡ 0
      aligned = (unused-IsSlot a ino name (IsDir-made mode h) (unused-made mode h) h.ok_name).0.0

  Resolves-placed :
      {par curr par' curr' : ℤ} {dirs : List (List ℕ)} (r : Resolves s par curr dirs par' curr')
      → WalksElsewhere a p ino r
      → inode_lookup curr' name placed ≡ ok (pos ino) placed
      → Resolves placed par curr (dirs ++ name ∷ []) curr' (pos ino)
  Resolves-placed here w found = step found (λ e. cc) here
  Resolves-placed (step e ne r) w found =
      step (lookup-placed w.0 e) ne (Resolves-placed r w.1 found)

  -- The attributes of the new inode.
  abbrev pub new_attr : Attr
  new_attr = attr (record {
    st_mode = mode;
    st_nlink = 0;
    st_size = 0;
    st_blocks = 256;
    st_mtim = s.clock s.ticks;
  })

  getattr-placed :
      WalksElsewhere a p ino h.resolves
      → is_absolute path ≡ true
      → length path < a1fs_path_max
      → a1fs_getattr path placed ≡ ok new_attr placed
  getattr-placed w absolute short =
      getattr-inode placed path ino absolute short h.in_table
        (get_inode_num-Resolves placed path {par = pos p} {curr = pos ino}
          (rw h.tokens (Resolves-placed h.resolves w found_placed))).0
      ∙ ap (λ v. ok (attr (attr_of v)) placed) new_inode
    where
      new_inode : placed.itable ino ≡ fresh s ino mode
      new_inode = ground (arith, h.apart)

  add_dentry-placed : add_dentry p ino name (made s ino mode) ≡ ok (pos 0) placed
  add_dentry-placed =
      add_dentry-filled ino name (IsDir-made mode h)
        (unused_first a ino name (IsDir-made mode h) (unused-made mode h) h.ok_name) h.ok_name.short

-- After a directory has been made, at a path whose lookups do not depend on the entry that was
-- used, a1fs_getattr on the path reports the mode with the directory bit, size 0, no links, and
-- the time of the call.
a1fs_getattr-a1fs_mkdir :
    {s : FsCtx} {path name : List ℕ} {p ino a : ℕ} {es : List ℕ} (mode : ℕ)
    (h : Placeable s path name p ino a es)
    → WalksElsewhere a p ino h.resolves
    → is_absolute path ≡ true
    → length path < a1fs_path_max
    → (t : FsCtx) × (a1fs_mkdir path mode s ≡ ok (pos 0) t)
      × (a1fs_getattr path t ≡ ok (new_attr (bit_or mode s_ifdir) h) t)
unfolding a1fs_mkdir
a1fs_getattr-a1fs_mkdir mode h w absolute short = (
  placed (bit_or mode s_ifdir) h,
  rw h.chosen (
      new_node-Placeable (bit_or mode s_ifdir) h (pure (neg enoent)) _
        (add_dentry-placed (bit_or mode s_ifdir) h)),
  getattr-placed (bit_or mode s_ifdir) h w absolute short,
)

-- After a regular file has been created, likewise, a1fs_getattr on the path reports the mode that
-- was given, size 0, no links, and the time of the call.
a1fs_getattr-a1fs_create :
    {s : FsCtx} {path name : List ℕ} {p ino a : ℕ} {es : List ℕ} (mode : ℕ)
    (h : Placeable s path name p ino a es)
    → is_reg mode ≡ true
    → WalksElsewhere a p ino h.resolves
    → is_absolute path ≡ true
    → length path < a1fs_path_max
    → (t : FsCtx) × (a1fs_create path mode s ≡ ok (pos 0) t)
      × (a1fs_getattr path t ≡ ok (new_attr mode h) t)
unfolding a1fs_create
a1fs_getattr-a1fs_create mode h reg w absolute short = (
  placed mode h,
  rw (reg, h.chosen) (new_node-Placeable mode h return_errno _ (add_dentry-placed mode h)),
  getattr-placed mode h w absolute short,
)

-- Where an inode is free and the parent directory has an unused entry and not yet the name, which
-- has at most 251 bytes: after a directory or, with the mode of a regular file, a file has been
-- made, at an absolute path shorter than PATH_MAX whose lookups depend neither on that entry nor on
-- that inode, a1fs_getattr on the path reports the mode, of a directory with the directory bit,
-- size 0, no links, 256 blocks, and the time of the call.
pub a1fs_getattr-new_node :
    {s : FsCtx} {path name : List ℕ} {p ino a : ℕ} {es : List ℕ} (mode : ℕ)
    (h : Placeable s path name p ino a es)
    → WalksElsewhere a p ino h.resolves
    → is_absolute path ≡ true
    → length path < a1fs_path_max
    → ((t : FsCtx) × (a1fs_mkdir path mode s ≡ ok (pos 0) t)
        × (a1fs_getattr path t ≡ ok (new_attr (bit_or mode s_ifdir) h) t))
      × (is_reg mode ≡ true
          → (t : FsCtx) × (a1fs_create path mode s ≡ ok (pos 0) t)
            × (a1fs_getattr path t ≡ ok (new_attr mode h) t))
a1fs_getattr-new_node mode h w absolute short = (
  a1fs_getattr-a1fs_mkdir mode h w absolute short,
  λ reg. a1fs_getattr-a1fs_create mode h reg w absolute short,
)
