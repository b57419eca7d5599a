-- ===== src/Tree/Run.antt =====
-- The callbacks of a1b/a1fs.c refine the steps of a tree.
use extent_based_fs.Base.{ℕ, suc, ◌+◌, ◌≤◌, ◌<◌, ◌≡◌, refl, List}
use extent_based_fs.Base.Int.{ℤ, pos}
use extent_based_fs.Types.{FsCtx, ok}
use extent_based_fs.Dir.{strtok, get_inode_num}
use extent_based_fs.Tree.Walk.{get_inode_num-Leads}
use extent_based_fs.Tree.{
  Nodes, Leads, Call, run_call, run_calls, Step, makes_dir, makes_file, makes_first_dir,
  makes_first_file, removes_dir, removes_file, keeps_dir, has_no_inode, has_no_inode_left, touches,
  gives_block, cuts, empties, keeps_size, writes, writes_first, removes_stored, stored, Steps,
  stays, goes,
}
use extent_based_fs.Tree.Shape.{IsTree}
use extent_based_fs.Tree.Choice.{none_chosen}
use extent_based_fs.Tree.Make.{mkdir-IsTree, create-IsTree}
use extent_based_fs.Tree.First.{mkdir-first, create-first}
use extent_based_fs.Tree.Remove.{rmdir-IsTree, unlink-IsTree, rmdir-keeps}
use extent_based_fs.Io.{ReadResult, a1fs_read}
use extent_based_fs.Tree.Fill.{truncate-IsTree}
use extent_based_fs.Tree.Cut.{cut-IsTree, emptied-IsTree, same-truncate}
use extent_based_fs.Tree.Write.{write-IsTree, write_first-IsTree, read-IsTree}
use extent_based_fs.Tree.Unlink.{unlink_stored-IsTree}
use extent_based_fs.Tree.Touch.{utimens-IsTree}
use extent_based_fs.Ops.Full.{a1fs_mkdir-full}

-- A callback on a state that stands for a tree does what a step of the tree says: it returns the
-- step's result, and its state stands for the tree after the step. The steps are making a directory
-- or a file where the parent has an unused entry or no block yet; removing an empty directory, a
-- file without blocks, or one whose block holds zeros; setting the time of modification; giving a
-- file without blocks a size below 4096, and with it a block of zeros; giving a file with a block a
-- smaller size, the same one, or, if the block holds zeros, the size 0; writing over bytes inside a
-- file, and the first bytes of one without blocks; and the refusals for want of an inode and of a directory with entries.
pub run_call-Step :
    {s : FsCtx} {total : ℕ} {T T' : Nodes} {spare spare' : ℕ} {c : Call} {r : ℤ}
    → IsTree s total T spare
    → Step total T spare c r T' spare'
    → (fuel : ℕ) → (t : FsCtx) × (run_call (suc fuel) c s ≡ ok r t) × IsTree t total T' spare'
unfolding run_call
run_call-Step tree (makes_dir {mode} place parent new v) fuel =
    mkdir-IsTree tree mode place parent new v
run_call-Step tree (makes_file {mode} place parent new v reg) fuel =
    create-IsTree tree mode place parent new v reg
run_call-Step {s} {total} {T} tree (makes_first_dir {mode} {left} place dir some_left v) fuel =
    mkdir-first (rw some_left at tree) mode place dir v
run_call-Step tree (makes_first_file {mode} place dir some_left v reg) fuel =
    create-first (rw some_left at tree) mode place dir v reg
run_call-Step tree (removes_dir place parent led empty) fuel =
    rmdir-IsTree tree place parent led empty
run_call-Step tree (removes_file place parent led file) fuel =
    unlink-IsTree tree place parent led file
run_call-Step {s} tree (keeps_dir {other} place parent led dir named) fuel =
    (s, rmdir-keeps tree place parent led other dir named, tree)
run_call-Step {s} tree (has_no_inode {path} {mode} all) fuel =
    (s, (a1fs_mkdir-full s path mode (none_chosen tree.has all)).0, tree)
run_call-Step {s} tree (has_no_inode_left {path} {mode} all reg) fuel =
    (s, (a1fs_mkdir-full s path mode (none_chosen tree.has all)).1 reg, tree)
run_call-Step tree (touches {path} {mtime} leads stands) fuel =
    utimens-IsTree tree path mtime leads stands
run_call-Step tree (gives_block {path} leads file some_left positive small) fuel =
    truncate-IsTree (rw some_left at tree) fuel path leads file positive small
run_call-Step tree (cuts {path} {size} leads file positive less) fuel =
    cut-IsTree tree file path leads (suc fuel) size positive less
run_call-Step tree (empties {path} leads file zeros) fuel =
    emptied-IsTree tree file path leads (suc fuel) zeros
run_call-Step {s} tree (keeps_size {path} leads file) fuel =
    (s, same-truncate tree file path leads (suc fuel), tree)
run_call-Step tree (writes {path} {n} {offset} {buf} leads file fits positive) fuel =
    write-IsTree tree (suc fuel) path buf n offset leads file fits positive
run_call-Step tree (writes_first {path} {n} {offset} {buf} leads file some_left fits positive)
      fuel =
    write_first-IsTree (rw some_left at tree) fuel path buf n offset leads file fits positive
run_call-Step tree (removes_stored place parent led file zeros) fuel =
    unlink_stored-IsTree tree place parent led file zeros

calls-IsTree :
    {total : ℕ} {T T' : Nodes} {spare spare' : ℕ} {cs : List Call} {rs : List ℤ}
    → Steps total T spare cs rs T' spare'
    → {s : FsCtx} → IsTree s total T spare
    → (fuel : ℕ) → (t : FsCtx) × (run_calls (suc fuel) cs s ≡ ok rs t) × IsTree t total T' spare'
unfolding run_calls
calls-IsTree stays {s} tree fuel = (s, refl, tree)
calls-IsTree (goes step rest) {s} tree fuel =
    let (u, e, mid) = run_call-Step tree step fuel in
    let (t, f, end) = calls-IsTree rest mid fuel in (t, rw (e, f) refl, end)

-- Callbacks one after another on a state that stands for a tree return what the steps of the tree
-- return, and end in a state that stands for the last tree. There every path along its names leads
-- to the inode number that the tree gives it, and a read of bytes inside a file with a block, along
-- such a path, returns their number and the bytes that the tree has there, and changes nothing.
pub run_calls-Steps :
    {s : FsCtx} {total : ℕ} {T T' : Nodes} {spare spare' : ℕ} {cs : List Call} {rs : List ℤ}
    → IsTree s total T spare
    → Steps total T spare cs rs T' spare'
    → (fuel : ℕ)
    → (t : FsCtx) × (run_calls (suc fuel) cs s ≡ ok rs t)
      × IsTree t total T' spare'
      × ((path : List ℕ) (i : ℕ)
          → Leads T' 0 (strtok path) i
          → get_inode_num path 0 t ≡ ok (pos i) t)
      × ((path : List ℕ) (i size n offset : ℕ) (content into : ℕ → ℕ)
          → Leads T' 0 (strtok path) i
          → T' i ≡ stored size content
          → offset + n ≤ size
          → 0 < n
          → (r : ReadResult) × (a1fs_read path into n offset t ≡ ok r t)
            × (r.result ≡ pos n)
            × ((x : ℕ) → x < n → r.buf x ≡ content (offset + x)))
run_calls-Steps tree steps fuel =
    let (t, e, end) = calls-IsTree steps tree fuel in
    (
      t,
      e,
      end,
      λ path i leads. get_inode_num-Leads end.has path leads,
      λ path i size n offset content into leads file fits positive.
          read-IsTree end.has path into n offset leads file fits positive,
    )
