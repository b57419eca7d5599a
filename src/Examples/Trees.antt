-- ===== src/Examples/Trees.antt =====
-- A session on a freshly formatted image of 16 blocks: `/d` is made, touched, listed and removed, and made
-- again as a file with bytes in it.
use mathlib.Core.List.{Mem, Nodup}
use extent_based_fs.Base.{
  ℕ, ◌≤◌, ◌<◌, ◌+◌, ◌≡◌, ◌≢◌, ◌↔◌, refl, ap, true, false, List, [], ◌∷◌, ◌++◌, none, some, arith,
}
use extent_based_fs.Base.Int.{ℤ, pos}
use extent_based_fs.Types.{FsCtx, ok, update}
use extent_based_fs.Samples.{sample, second, name_d, path_d}
use extent_based_fs.Bitmap.{test_bit, check_bit_usage}
use extent_based_fs.Dir.{strtok, get_inode_num}
use extent_based_fs.Ops.{
  a1fs_mkdir, a1fs_create, a1fs_getattr, a1fs_statfs, is_reg, Stat, Statvfs, attr, errno, enoent,
  a1fs_readdir, dot, dot_dot,
}
use extent_based_fs.Io.{ReadResult, a1fs_read}
use extent_based_fs.Mkfs.{MkfsOpts, fs_ctx_init, mkfs_main, memset_zero, dbm_loop}
use extent_based_fs.Mkfs.Format.{CanFormat, after_table}
use extent_based_fs.Catalog.{Names, same_name, assign}
use extent_based_fs.Tree.{
  Nodes, bare, folder, vacant, no_names, with_name, Place, Leads, IsFirstVacant, Step,
  makes_first_dir, makes_file, gives_block, writes, cuts, create, truncate, write, blank, stored,
  overwrite, removes_dir, Steps, stays, goes, mkdir, rmdir, utimens, touches, Call, run_call,
  run_calls,
}
use extent_based_fs.Tree.Shape.{IsTree}
use extent_based_fs.Tree.Formatted.{only_root, mkfs_main-IsTree}
use extent_based_fs.Tree.Read.{a1fs_readdir-IsTree}
use extent_based_fs.Tree.Describe.{
  Reports, IsMissing, vacancies, a1fs_getattr-IsTree, a1fs_statfs-IsTree,
}
use extent_based_fs.Tree.Live.{Appears, a1fs_mkdir-Appears}
use extent_based_fs.Tree.Run.{run_call-Step, run_calls-Steps}
use extent_based_fs.Examples.Dirs.{name_d-IsName, d_tokens, d_last}

clear_bit : check_bit_usage (memset_zero sample).inode_bits 0 ≡ false
unfolding check_bit_usage test_bit
clear_bit = refl

one_block : dbm_loop (after_table 65536 16 + 1) (after_table 65536 16) 1 ≡ some 1
unfolding dbm_loop
one_block = refl

pub can_format : CanFormat (memset_zero sample) 65536 16 1
can_format = record {
  absent = omega arith;
  free_blocks = refl;
  first_clear = clear_bit;
  some_inode = omega arith;
  bitmap = one_block;
  some_data = omega arith;
  fits_u8 = omega arith;
}

abbrev opts : MkfsOpts
opts = record { n_inodes = 16; force = true; zero = true }

mkfs_main-IsTree_example :
    (t : FsCtx) × (mkfs_main 65536 opts sample ≡ ok 0 t)
    × IsTree t 16 only_root 12
    × (fs_ctx_init t ≡ true)
mkfs_main-IsTree_example = mkfs_main-IsTree sample can_format refl (omega arith) opts refl refl refl

abbrev image : FsCtx
image = mkfs_main-IsTree_example.0

abbrev with_d : Nodes
with_d = with_name only_root 0 (assign no_names name_d (some 1)) 15 1 bare

only_root-Place : Place only_root path_d name_d 0
only_root-Place = record {
  dirs = [];
  tokens = d_tokens;
  last = d_last;
  leads = Leads.here;
  ok_name = (name_d-IsName, λ e. cc);
}

first_vacant : IsFirstVacant only_root 16 1
first_vacant = record {
  is_vacant = refl;
  below = omega arith;
  before = λ j lt e. let z : j ≡ 0 = omega arith in cc (ap only_root z);
}

makes_d : Step 16 only_root 12 (mkdir path_d 0x1FF) (pos 0) with_d 11
makes_d = makes_first_dir only_root-Place refl refl first_vacant

run_call-Step_example :
    (t : FsCtx) × (run_call 1 (mkdir path_d 0x1FF) image ≡ ok (pos 0) t) × IsTree t 16 with_d 11
run_call-Step_example = run_call-Step mkfs_main-IsTree_example.2 makes_d 0

with_d-Place : Place with_d path_d name_d 0
with_d-Place = record {
  dirs = [];
  tokens = d_tokens;
  last = d_last;
  leads = Leads.here;
  ok_name = (name_d-IsName, λ e. cc);
}

d_led : assign no_names name_d (some 1) name_d ≡ some 1
unfolding same_name
d_led = refl

abbrev without_d : Nodes
without_d = with_name with_d 0 (assign (assign no_names name_d (some 1)) name_d none) 16 1 vacant

d_below : Leads with_d 0 (strtok path_d) 1
unfolding strtok same_name
d_below = Leads.down refl (name_d-IsName, λ e. cc) refl Leads.here

-- `/d` is made again, as a file.
abbrev names_d : Names
names_d = assign (assign (assign no_names name_d (some 1)) name_d none) name_d (some 1)

abbrev with_file : Nodes
with_file = with_name without_d 0 names_d 15 1 blank

without_d-Place : Place without_d path_d name_d 0
without_d-Place = record {
  dirs = [];
  tokens = d_tokens;
  last = d_last;
  leads = Leads.here;
  ok_name = (name_d-IsName, λ e. cc);
}

vacant_again : IsFirstVacant without_d 16 1
vacant_again = record {
  is_vacant = refl;
  below = omega arith;
  before = λ j lt e. let z : j ≡ 0 = omega arith in cc (ap without_d z);
}

d_gone : assign (assign no_names name_d (some 1)) name_d none name_d ≡ none
unfolding same_name
d_gone = refl

abbrev zeros_d : Nodes
zeros_d = update with_file 1 (stored 100 (λ x. 0))

-- Three bytes are written at offset 5.
abbrev letters : ℕ → ℕ
letters = overwrite (λ x. 0) 5 3 (λ x. b'a' + x)

abbrev lettered : Nodes
lettered = update zeros_d 1 (stored 100 letters)

abbrev cut_d : Nodes
cut_d = update lettered 1 (stored 50 letters)

with_file-d : Leads with_file 0 (strtok path_d) 1
unfolding strtok same_name
with_file-d = Leads.down refl (name_d-IsName, λ e. cc) refl Leads.here

zeros_d-d : Leads zeros_d 0 (strtok path_d) 1
unfolding strtok same_name
zeros_d-d = Leads.down refl (name_d-IsName, λ e. cc) refl Leads.here

lettered-d : Leads lettered 0 (strtok path_d) 1
unfolding strtok same_name
lettered-d = Leads.down refl (name_d-IsName, λ e. cc) refl Leads.here

makes_d_file : Step 16 without_d 11 (create path_d 0x81FF) (pos 0) with_file 11
makes_d_file = makes_file without_d-Place refl d_gone vacant_again refl

gives_d_block : Step 16 with_file 11 (truncate path_d 100) (pos 0) zeros_d 10
gives_d_block = gives_block with_file-d refl refl (omega arith) (omega arith)

writes_d : Step 16 zeros_d 10 (write path_d (λ x. b'a' + x) 3 5) (pos 3) lettered 10
writes_d = writes zeros_d-d refl (omega arith) (omega arith)

cuts_d : Step 16 lettered 10 (truncate path_d 50) (pos 0) cut_d 10
cuts_d = cuts lettered-d refl (omega arith) (omega arith)

abbrev calls : List Call
calls =
    mkdir path_d 0x1FF
    ∷ utimens path_d (second 0)
    ∷ rmdir path_d
    ∷ create path_d 0x81FF
    ∷ truncate path_d 100
    ∷ write path_d (λ x. b'a' + x) 3 5
    ∷ truncate path_d 50
    ∷ []

abbrev answers : List ℤ
answers = pos 0 ∷ pos 0 ∷ pos 0 ∷ pos 0 ∷ pos 0 ∷ pos 3 ∷ pos 0 ∷ []

session : Steps 16 only_root 12 calls answers cut_d 10
session = goes makes_d (
    goes (touches d_below (λ e. cc)) (
      goes (removes_dir with_d-Place refl d_led tt)
        (goes makes_d_file (goes gives_d_block (goes writes_d (goes cuts_d stays))))))

run_calls-Steps_example :
    (t : FsCtx) × (run_calls 1 calls image ≡ ok answers t)
    × IsTree t 16 cut_d 10
    × ((path : List ℕ) (i : ℕ)
        → Leads cut_d 0 (strtok path) i
        → get_inode_num path 0 t ≡ ok (pos i) t)
    × ((path : List ℕ) (i size n offset : ℕ) (content into : ℕ → ℕ)
        → Leads cut_d 0 (strtok path) i
        → cut_d i ≡ stored size content
        → offset + n ≤ size
        → 0 < n
        → (r : ReadResult) × (a1fs_read path into n offset t ≡ ok r t)
          × (r.result ≡ pos n)
          × ((x : ℕ) → x < n → r.buf x ≡ content (offset + x)))
run_calls-Steps_example = run_calls-Steps mkfs_main-IsTree_example.2 session 0

abbrev after_mkdir : FsCtx
after_mkdir = run_call-Step_example.0

a1fs_readdir-IsTree_example :
    ((m : Names) (room : ℕ)
      → with_d 1 ≡ folder m room
      → (listed : List (List ℕ)) × (a1fs_readdir path_d after_mkdir
          ≡ ok (record { names = listed ++ dot ∷ dot_dot ∷ []; result = pos 0 }) after_mkdir)
        × Nodup listed
        × ((name : List ℕ) → Mem name listed ↔ (m name ≢ none)))
    × (with_d 1 ≡ bare
        → a1fs_readdir path_d after_mkdir
          ≡ ok (record { names = dot ∷ dot_dot ∷ []; result = pos 0 }) after_mkdir)
a1fs_readdir-IsTree_example = a1fs_readdir-IsTree path_d run_call-Step_example.2 refl d_below

a1fs_getattr-IsTree_example :
    ((i : ℕ)
      → Leads with_d 0 (strtok path_d) i
      → with_d i ≢ vacant
      → (r : Stat) × (a1fs_getattr path_d after_mkdir ≡ ok (attr r) after_mkdir)
        × Reports (with_d i) (after_mkdir.itable i) r)
    × ((name : List ℕ) (p : ℕ)
        → Place with_d path_d name p
        → IsMissing (with_d p) name
        → a1fs_getattr path_d after_mkdir ≡ ok (errno enoent) after_mkdir)
a1fs_getattr-IsTree_example = a1fs_getattr-IsTree run_call-Step_example.2 path_d refl (omega arith)

a1fs_statfs-IsTree_example :
    (r : Statvfs) × (a1fs_statfs after_mkdir ≡ ok r after_mkdir)
    × (r.f_files ≡ pos 16)
    × (r.f_ffree ≡ pos (vacancies with_d 16))
    × (r.f_favail ≡ r.f_ffree)
    × ((n : ℕ) × (r.f_bfree ≡ pos n) × (11 ≤ n))
a1fs_statfs-IsTree_example = a1fs_statfs-IsTree run_call-Step_example.2

a1fs_mkdir-Appears_example :
    Appears (a1fs_mkdir path_d 0x81FF) image 16 path_d bare
    × (is_reg 0x81FF ≡ true → Appears (a1fs_create path_d 0x81FF) image 16 path_d blank)
a1fs_mkdir-Appears_example =
    a1fs_mkdir-Appears mkfs_main-IsTree_example.2 only_root-Place (omega arith) 5 (omega arith) refl
      0x81FF
