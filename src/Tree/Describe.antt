-- ===== src/Tree/Describe.antt =====
-- What a1fs_getattr and a1fs_statfs of a1b/a1fs.c report of a tree.
use extent_based_fs.Base.{
  ℕ, zero, suc, ◌+◌, ◌/◌, ◌≤◌, ◌<◌, ◌≡◌, ◌≢◌, refl, ap, ◌∙◌, Bool, true, false, not, List, [], ◌∷◌,
  ◌++◌, none, length, arith, if◌then◌else◌,
}
use extent_based_fs.Base.Int.{ℤ, pos, minus_one, ne→eq_ℤ}
use extent_based_fs.Types.{FsCtx, Inode, ok, inode_capacity, a1fs_path_max}
use extent_based_fs.Bitmap.{check_bit_usage}
use extent_based_fs.Bitmap.Count.{count_clear}
use extent_based_fs.Dir.{inode_lookup, walk, strtok, get_inode_num}
use extent_based_fs.Dir.Lookup.{first_with, inode_lookup-first_with}
use extent_based_fs.Dir.Resolve.{Resolves, here, step}
use extent_based_fs.Ops.{a1fs_getattr, a1fs_statfs, is_absolute, Stat, attr, errno, enoent, Statvfs}
use extent_based_fs.Ops.Describe.{attr_of, getattr-inode, lt→leb_false}
use extent_based_fs.Catalog.Shows.{IsEntryName}
use extent_based_fs.Tree.{Node, vacant, bare, folder, blank, stored, dropped, Nodes, Leads, Place}
use extent_based_fs.Tree.Shape.{HasNodes, IsTree, Stands}
use extent_based_fs.Tree.Walk.{
  used_below, node-Stands, lookup-folder, Leads-Resolves, get_inode_num-Leads,
}
use extent_based_fs.Tree.Choice.{vacant-free, used_bit}
use extent_based_fs.Tree.Read.{no_block-IsDir}

-- The size of a file.
abbrev pub HasSize : Node → Stat → Type 0
HasSize blank r = r.st_size ≡ 0
HasSize (stored size content) r = r.st_size ≡ size
HasSize _ r = Unit

-- What is reported of a node and of the inode that stands for it.
pub record Reports (v : Node) (inode : Inode) (r : Stat) : Type 0 where
  pub mode : r.st_mode ≡ inode.mode
  pub links : r.st_nlink ≡ inode.links
  pub mtime : r.st_mtim ≡ inode.i_mtime
  pub inode_size : r.st_size ≡ inode.size
  pub blocks : r.st_blocks ≡ r.st_size / 512 + 256
  pub size : HasSize v r

-- The directory has no such name.
abbrev pub IsMissing : Node → (name : List ℕ) → Type 0
IsMissing bare name = Unit
IsMissing (folder m room) name = m name ≡ none
IsMissing _ name = ⊥

walk-missing :
    {s : FsCtx} {par curr par' curr' : ℤ} {tokens : List (List ℕ)} (name : List ℕ)
    → curr ≢ minus_one
    → Resolves s par curr tokens par' curr'
    → curr' ≢ minus_one
    → inode_lookup curr' name s ≡ ok minus_one s
    → walk (tokens ++ name ∷ []) curr par s
      ≡ ok (record { curr_inode = minus_one; par_inode = curr' }) s
unfolding walk
walk-missing {curr} name ne here ne' e = rw (ne→eq_ℤ curr minus_one ne, e) refl
walk-missing {curr} name ne (step {next} e next_ne r) ne' missing =
    rw (ne→eq_ℤ curr minus_one ne, e) (walk-missing name next_ne r ne' missing)

module _ {s : FsCtx} {total : ℕ} {T : Nodes} {spare : ℕ} (tree : IsTree s total T spare) where
  lookup-missing :
      (p : ℕ) (name : List ℕ)
      → IsEntryName name
      → (v : Node) → T p ≡ v
      → IsMissing v name
      → inode_lookup (pos p) name s ≡ ok minus_one s
  lookup-missing p name is bare e missing =
      let below : p < inode_capacity s.sb =
        omega (arith, used_below tree.has p (λ q. cc), tree.has.counts.in_table) in
      unfold first_with in
      inode_lookup-first_with name
        (no_block-IsDir {s = s} p below (node-Stands tree.has p e (λ q. cc)).2)
  lookup-missing p name is (folder m room) e missing =
      lookup-folder tree.has p name e is ∙ rw missing refl
  lookup-missing p name is vacant e missing = absurd missing
  lookup-missing p name is blank e missing = absurd missing
  lookup-missing p name is (stored size content) e missing = absurd missing
  lookup-missing p name is dropped e missing = absurd missing

  get_inode_num-missing :
      {path name : List ℕ} {p : ℕ}
      → Place T path name p
      → IsMissing (T p) name
      → get_inode_num path 0 s ≡ ok minus_one s
  unfolding get_inode_num
  get_inode_num-missing {name} {p} place missing =
      let (above, r, avoids) = Leads-Resolves tree.has (pos 0) place.leads in
      rw
        (
          place.tokens,
          walk-missing name (λ e. cc) r (λ e. cc)
              (lookup-missing p name place.ok_name (T p) refl missing),
        )
        refl

  sized : (i : ℕ) (v : Node) → Stands s (tree.has.places i) i v → HasSize v (attr_of (s.itable i))
  sized i vacant h = tt
  sized i bare h = tt
  sized i (folder m room) h = tt
  sized i blank h = h.3
  sized i (stored size content) h = h.1.length
  sized i dropped h = tt

  -- Of an absolute path that is shorter than PATH_MAX: where it leads along the names of the tree
  -- to a directory or a file, a1fs_getattr reports the mode, the link count, the size and the time of
  -- modification that the inode of that number holds, which for a file is the size that the tree
  -- gives it, and 256 blocks more than the size has whole ones of 512 bytes; where only its last
  -- name is missing in the directory before it, it reports ENOENT. Nothing is changed.
  pub a1fs_getattr-IsTree :
      (path : List ℕ)
      → is_absolute path ≡ true
      → length path < a1fs_path_max
      → ((i : ℕ)
          → Leads T 0 (strtok path) i
          → T i ≢ vacant
          → (r : Stat) × (a1fs_getattr path s ≡ ok (attr r) s) × Reports (T i) (s.itable i) r)
        × ((name : List ℕ) (p : ℕ)
            → Place T path name p
            → IsMissing (T p) name
            → a1fs_getattr path s ≡ ok (errno enoent) s)
  unfolding a1fs_getattr
  a1fs_getattr-IsTree path absolute short = (
    λ i leads stands.
        let below = used_below tree.has i stands in
        (
          attr_of (s.itable i),
          getattr-inode s path i absolute short (omega (arith, below, tree.has.counts.in_table))
              (get_inode_num-Leads tree.has path leads),
          record {
            mode = refl;
            links = refl;
            mtime = refl;
            inode_size = refl;
            blocks = refl;
            size = sized i (T i) (tree.has.stands i below);
          },
        ),
    λ name p place missing.
        rw (lt→leb_false (length path) short, absolute, get_inode_num-missing place missing) refl,
  )

-- How many of the first `n` inodes are vacant.
abbrev pub is_vacant : Node → Bool
is_vacant vacant = true
is_vacant _ = false

abbrev pub vacancies : Nodes → (n : ℕ) → ℕ
vacancies T zero = 0
vacancies T (suc n) = if is_vacant (T n) then suc (vacancies T n) else vacancies T n

module _ {s : FsCtx} {total : ℕ} {T : Nodes} {spare : ℕ} (has : HasNodes s total T spare) where
  bit_of :
      (j : ℕ)
      → j < total
      → (v : Node) → T j ≡ v
      → check_bit_usage s.inode_bits j ≡ not (is_vacant v)
  bit_of j lt vacant e = vacant-free has j e lt
  bit_of j lt bare e = used_bit has j (λ q. cc) lt
  bit_of j lt (folder m room) e = used_bit has j (λ q. cc) lt
  bit_of j lt blank e = used_bit has j (λ q. cc) lt
  bit_of j lt (stored size content) e = used_bit has j (λ q. cc) lt
  bit_of j lt dropped e = used_bit has j (λ q. cc) lt

  count_clear-vacancies : (n : ℕ) → n ≤ total → count_clear s.inode_bits n ≡ vacancies T n
  unfolding count_clear
  count_clear-vacancies zero le = refl
  count_clear-vacancies (suc n) le =
      rw (bit_of n le (T n) refl, count_clear-vacancies n (omega arith)) (swap (is_vacant (T n)))
    where
      swap :
          (b : Bool)
          → (if not b then vacancies T n else suc (vacancies T n))
            ≡ (if b then suc (vacancies T n) else vacancies T n)
      swap true = refl
      swap false = refl

-- a1fs_statfs reports of a tree the number of inodes, that of the vacant ones, and at least as
-- many free blocks as there are.
pub a1fs_statfs-IsTree :
    {s : FsCtx} {total : ℕ} {T : Nodes} {spare : ℕ}
    → IsTree s total T spare
    → (r : Statvfs) × (a1fs_statfs s ≡ ok r s)
      × (r.f_files ≡ pos total)
      × (r.f_ffree ≡ pos (vacancies T total))
      × (r.f_favail ≡ r.f_ffree)
      × ((n : ℕ) × (r.f_bfree ≡ pos n) × (spare ≤ n))
unfolding a1fs_statfs
a1fs_statfs-IsTree {total} tree = (
  _,
  refl,
  tree.has.counts.inodes,
  tree.has.counts.free_inodes ∙ ap pos (count_clear-vacancies tree.has total (omega arith)),
  refl,
  (tree.has.blocks.free_blocks, tree.has.blocks.counted, tree.has.blocks.enough),
)
