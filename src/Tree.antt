-- ===== src/Tree.antt =====
-- The abstract file system that the callbacks of a1b/a1fs.c work on: a tree of directories, each a
-- finite map from names to inode numbers, and the steps that the callbacks take on it.
pub mod Links
pub mod Shape
pub mod Frames
pub mod Walk
pub mod Choice
pub mod Change
pub mod Link
pub mod Inode
pub mod Make
pub mod Remove
pub mod NewBlock
pub mod Fill
pub mod Stored
pub mod Write
pub mod Free
pub mod Cut
pub mod Unlink
pub mod Describe
pub mod Live
pub mod Grow
pub mod First
pub mod Read
pub mod Run
pub mod Touch
pub mod Formatted
use extent_based_fs.Base.{
  ℕ, ltb, suc, ◌-◌, ◌+◌, ◌≤◌, ◌<◌, ◌≡◌, ◌≢◌, true, List, [], ◌∷◌, ◌++◌, Option, none, some, ◌==◌,
  if◌then◌else◌,
}
use extent_based_fs.Base.Int.{ℤ, pos, neg}
use extent_based_fs.Types.{Cmd, Timespec, pure, update, ◌>>=◌}
use extent_based_fs.Dir.{strtok, last_name}
use extent_based_fs.Ops.{
  a1fs_mkdir, a1fs_create, a1fs_rmdir, a1fs_unlink, a1fs_utimens, is_reg, enospc, enotempty,
}
use extent_based_fs.Io.{a1fs_truncate, a1fs_write}
use extent_based_fs.Catalog.{Names, assign}
use extent_based_fs.Catalog.Shows.{IsEntryName}

-- What an inode number stands for: nothing, a directory without a block, one with the names `names`
-- and `room` unused entries, a file without blocks, or one with a block that holds the bytes
-- `content`, the first `size` of which are the file's, or a file that is about to be removed, its
-- block being given back.
pub data Node : Type 0 where
  vacant bare : Node
  folder : (names : Names) → (room : ℕ) → Node
  blank : Node
  stored : (size : ℕ) → (content : ℕ → ℕ) → Node
  dropped : Node

abbrev pub Nodes : Type 0
Nodes = ℕ → Node

abbrev pub no_names : Names
no_names name = none

-- The bytes of `buf` from `offset` on, `n` of them, over `content`.
abbrev pub overwrite : (content : ℕ → ℕ) → (offset n : ℕ) → (buf : ℕ → ℕ) → ℕ → ℕ
overwrite content offset n buf x =
    if ltb x offset then content x else if ltb x (offset + n) then buf (x - offset) else content x

-- A block of zeros: one with other bytes in it that is given back would not be fit for a directory.
abbrev pub IsZero : (ℕ → ℕ) → Type 0
IsZero content = (x : ℕ) → x < 4096 → content x ≡ 0

-- From directory `c`, each token is a name in the directory that the tokens before it lead to.
pub data Leads (T : Nodes) : ℕ → List (List ℕ) → ℕ → Type 0 where
  here : {c : ℕ} → Leads T c [] c
  down :
      {c next c' : ℕ} {m : Names} {room : ℕ} {token : List ℕ} {tokens : List (List ℕ)}
      → T c ≡ folder m room
      → IsEntryName token
      → m token ≡ some next
      → Leads T next tokens c'
      → Leads T c (token ∷ tokens) c'

-- The path names `name` in the node `p`, which names below the root lead to.
pub record Place (T : Nodes) (path name : List ℕ) (p : ℕ) : Type 0 where
  pub dirs : List (List ℕ)
  pub tokens : strtok path ≡ dirs ++ name ∷ []
  pub last : last_name path ≡ some name
  pub leads : Leads T 0 dirs p
  pub ok_name : IsEntryName name

pub record IsFirstVacant (T : Nodes) (total ino : ℕ) : Type 0 where
  pub is_vacant : T ino ≡ vacant
  pub below : ino < total
  pub before : (j : ℕ) → j < ino → T j ≢ vacant

pub data Call : Type 0 where
  mkdir create : (path : List ℕ) → (mode : ℕ) → Call
  rmdir unlink : (path : List ℕ) → Call
  utimens : (path : List ℕ) → (mtime : Timespec) → Call
  truncate : (path : List ℕ) → (size : ℕ) → Call
  write : (path : List ℕ) → (buf : ℕ → ℕ) → (size offset : ℕ) → Call

-- `fuel` is that of make_data_blocks.
unfoldable pub run_call : (fuel : ℕ) → Call → Cmd ℤ
run_call fuel (mkdir path mode) = a1fs_mkdir path mode
run_call fuel (create path mode) = a1fs_create path mode
run_call fuel (rmdir path) = a1fs_rmdir path
run_call fuel (unlink path) = a1fs_unlink path
run_call fuel (utimens path mtime) = a1fs_utimens path mtime
run_call fuel (truncate path size) = a1fs_truncate fuel path size
run_call fuel (write path buf size offset) = a1fs_write fuel path buf size offset

abbrev pub with_name : Nodes → (p : ℕ) → Names → (room ino : ℕ) → Node → Nodes
with_name T p m room ino v = update (update T ino v) p (folder m room)

abbrev pub IsEmptyDir : Node → Type 0
IsEmptyDir bare = Unit
IsEmptyDir (folder m room) = (name : List ℕ) → m name ≡ none
IsEmptyDir _ = ⊥

-- The steps of a file system with `total` inodes: what a callback returns, and what it makes of the
-- tree and of the number of free blocks.
pub data Step (total : ℕ) (T : Nodes) (spare : ℕ) : Call → ℤ → Nodes → ℕ → Type 0 where
  makes_dir :
      {path name : List ℕ} {p ino mode room : ℕ} {m : Names}
      → Place T path name p
      → T p ≡ folder m (suc room)
      → m name ≡ none
      → IsFirstVacant T total ino
      → Step total T spare
          (mkdir path mode)
          (pos 0)
          (with_name T p (assign m name (some ino)) room ino bare)
          spare
  makes_file :
      {path name : List ℕ} {p ino mode room : ℕ} {m : Names}
      → Place T path name p
      → T p ≡ folder m (suc room)
      → m name ≡ none
      → IsFirstVacant T total ino
      → is_reg mode ≡ true
      → Step total T spare
          (create path mode)
          (pos 0)
          (with_name T p (assign m name (some ino)) room ino blank)
          spare
  makes_first_dir :
      {path name : List ℕ} {p ino mode left : ℕ}
      → Place T path name p
      → T p ≡ bare
      → spare ≡ suc left
      → IsFirstVacant T total ino
      → Step total T spare
          (mkdir path mode)
          (pos 0)
          (with_name T p (assign no_names name (some ino)) 15 ino bare)
          left
  makes_first_file :
      {path name : List ℕ} {p ino mode left : ℕ}
      → Place T path name p
      → T p ≡ bare
      → spare ≡ suc left
      → IsFirstVacant T total ino
      → is_reg mode ≡ true
      → Step total T spare
          (create path mode)
          (pos 0)
          (with_name T p (assign no_names name (some ino)) 15 ino blank)
          left
  removes_dir :
      {path name : List ℕ} {p ino room : ℕ} {m : Names}
      → Place T path name p
      → T p ≡ folder m room
      → m name ≡ some ino
      → IsEmptyDir (T ino)
      → Step total T spare
          (rmdir path)
          (pos 0)
          (with_name T p (assign m name none) (room + 1) ino vacant)
          spare
  removes_file :
      {path name : List ℕ} {p ino room : ℕ} {m : Names}
      → Place T path name p
      → T p ≡ folder m room
      → m name ≡ some ino
      → T ino ≡ blank
      → Step total T spare
          (unlink path)
          (pos 0)
          (with_name T p (assign m name none) (room + 1) ino vacant)
          spare
  keeps_dir :
      {path name other : List ℕ} {p ino room room' i : ℕ} {m m' : Names}
      → Place T path name p
      → T p ≡ folder m room
      → m name ≡ some ino
      → T ino ≡ folder m' room'
      → m' other ≡ some i
      → Step total T spare (rmdir path) (neg enotempty) T spare
  has_no_inode :
      {path : List ℕ} {mode : ℕ}
      → ((j : ℕ) → j < total → T j ≢ vacant)
      → Step total T spare (mkdir path mode) (neg enospc) T spare
  has_no_inode_left :
      {path : List ℕ} {mode : ℕ}
      → ((j : ℕ) → j < total → T j ≢ vacant)
      → is_reg mode ≡ true
      → Step total T spare (create path mode) (neg enospc) T spare
  touches :
      {path : List ℕ} {mtime : Timespec} {i : ℕ}
      → Leads T 0 (strtok path) i
      → T i ≢ vacant
      → Step total T spare (utimens path mtime) (pos 0) T spare
  gives_block :
      {path : List ℕ} {i size left : ℕ}
      → Leads T 0 (strtok path) i
      → T i ≡ blank
      → spare ≡ suc left
      → 0 < size
      → size < 4096
      → Step total T spare (truncate path size) (pos 0) (update T i (stored size (λ x. 0))) left
  cuts :
      {path : List ℕ} {i old size : ℕ} {content : ℕ → ℕ}
      → Leads T 0 (strtok path) i
      → T i ≡ stored old content
      → 0 < size
      → size < old
      → Step total T spare (truncate path size) (pos 0) (update T i (stored size content)) spare
  empties :
      {path : List ℕ} {i old : ℕ} {content : ℕ → ℕ}
      → Leads T 0 (strtok path) i
      → T i ≡ stored old content
      → IsZero content
      → Step total T spare (truncate path 0) (pos 0) (update T i blank) (suc spare)
  keeps_size :
      {path : List ℕ} {i size : ℕ} {content : ℕ → ℕ}
      → Leads T 0 (strtok path) i
      → T i ≡ stored size content
      → Step total T spare (truncate path size) (pos 0) T spare
  writes :
      {path : List ℕ} {i size n offset : ℕ} {content buf : ℕ → ℕ}
      → Leads T 0 (strtok path) i
      → T i ≡ stored size content
      → offset + n ≤ size
      → 0 < n
      → Step total T spare
          (write path buf n offset)
          (pos n)
          (update T i (stored size (overwrite content offset n buf)))
          spare
  writes_first :
      {path : List ℕ} {i n offset left : ℕ} {buf : ℕ → ℕ}
      → Leads T 0 (strtok path) i
      → T i ≡ blank
      → spare ≡ suc left
      → offset + n < 4096
      → 0 < n
      → Step total T spare
          (write path buf n offset)
          (pos n)
          (update T i (stored (offset + n) (overwrite (λ x. 0) offset n buf)))
          left
  removes_stored :
      {path name : List ℕ} {p ino room size : ℕ} {m : Names} {content : ℕ → ℕ}
      → Place T path name p
      → T p ≡ folder m room
      → m name ≡ some ino
      → T ino ≡ stored size content
      → IsZero content
      → Step total T spare
          (unlink path)
          (pos 0)
          (with_name T p (assign m name none) (room + 1) ino vacant)
          (suc spare)

-- Callbacks one after another, each with what it returned.
pub data Steps (total : ℕ) : Nodes → ℕ → List Call → List ℤ → Nodes → ℕ → Type 0 where
  stays : {T : Nodes} {n : ℕ} → Steps total T n [] [] T n
  goes :
      {T T' T'' : Nodes} {n n' n'' : ℕ} {c : Call} {r : ℤ} {cs : List Call} {rs : List ℤ}
      → Step total T n c r T' n'
      → Steps total T' n' cs rs T'' n''
      → Steps total T n (c ∷ cs) (r ∷ rs) T'' n''

unfoldable pub run_calls : (fuel : ℕ) → List Call → Cmd (List ℤ)
run_calls fuel [] = pure []
run_calls fuel (c ∷ cs) = do r ← run_call fuel c; rs ← run_calls fuel cs; pure (r ∷ rs)
