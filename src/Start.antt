-- ===== src/Start.antt =====
-- What runs before the file system does: the alignment helpers of a1b/util.h, the mapping of the
-- image (a1b/map.c), the command lines (parse_args of a1b/mkfs.c, a1b/options.c), and the mains of
-- a1b/mkfs.c and a1b/a1fs.c.
pub mod Align
pub mod Mapped
pub mod Tool
pub mod Mount
use Prim.Native.Nat.{bit_and}
use extent_based_fs.Base.{
  ℕ, ◌+◌, ◌-◌, ◌%◌, ◌^◌, Bool, true, false, not, ◌&&◌, List, [], ◌∷◌, ◌++◌, Option, none, some,
  ◌==◌, if◌then◌else◌,
}
use extent_based_fs.Base.Int.{ℤ, pos, is_neg}
use extent_based_fs.Types.{Cmd, pure, stop, ◌>>=◌, a1fs_block_size}
use extent_based_fs.Mkfs.{MkfsOpts, mkfs_main, fs_ctx_init}

-- `alignment - 1` of a size_t.
abbrev pub minus_1 : ℕ → ℕ
minus_1 x = (x + 2 ^ 64 - 1) % 2 ^ 64

unfoldable pub is_powerof2 : ℕ → Bool
is_powerof2 x = bit_and x (minus_1 x) == 0

-- `none` where the assert fails.
unfoldable pub is_aligned : (x alignment : ℕ) → Option Bool
is_aligned x alignment =
    if is_powerof2 alignment then some (bit_and x (minus_1 alignment) == 0) else none

-- `(x + alignment - 1) & (~alignment + 1)`
unfoldable pub align_up : (x alignment : ℕ) → Option ℕ
align_up x alignment =
    if is_powerof2 alignment
    then some (bit_and ((x + alignment + 2 ^ 64 - 1) % 2 ^ 64) ((2 ^ 64 - alignment) % 2 ^ 64))
    else none

-- The system calls that map_file makes: `open` returns a descriptor, negative on failure, `fstat`
-- the size of the file or a failure, `mmap` an address or MAP_FAILED.
pub record Host : Type 0 where
  pub open_file : (path : List ℕ) → ℤ
  pub fstat : (fd : ℤ) → Option ℕ
  pub mmap : (fd : ℤ) → (size : ℕ) → Option ℕ

-- NULL, the address and the size, or a failed assert.
pub data Mapping : Type 0 where
  null : Mapping
  mapped : (addr size : ℕ) → Mapping
  aborted : Mapping

-- From the mapping on.
abbrev pub map_size : Host → (fd : ℤ) → (block_size size : ℕ) → Mapping
map_size host fd block_size size = elim (host.mmap fd size) [
  | none ↦ null
  | some addr ↦ elim (is_aligned addr block_size) [
    | some true ↦ mapped addr size
    | some false ↦ aborted
    | none ↦ aborted
  ]
]

unfoldable pub map_file : Host → (path : List ℕ) → (block_size : ℕ) → Mapping
unfolding is_aligned is_powerof2
map_file host path block_size =
    let fd = host.open_file path in
    if is_neg fd then null else elim (host.fstat fd) [
      | none ↦ null
      | some size ↦
          if size == 0
          then null
          else if not (size % block_size == 0)
          then null
          else map_size host fd block_size size
    ]

-- What getopt(argc, argv, "i:hfvz") returns one by one.
pub data Getopt : Type 0 where
  opt_i : (optarg : List ℕ) → Getopt
  opt_h opt_f opt_v opt_z opt_unknown : Getopt

-- The options of mkfs besides those that `mkfs` reads.
pub record MkfsArgs : Type 0 where
  pub img_path : Option (List ℕ)
  pub help : Bool
  pub opts : MkfsOpts

-- `rejected` is a returned false, `accepted` a returned true, `asserts` a failed assert.
pub data Parsed : Type 0 where
  rejected asserts : Parsed
  accepted : MkfsArgs → Parsed

-- What follows the loop over the options, with the arguments from `optind` on.
unfoldable pub parse_operands : (operands : List (List ℕ)) → MkfsArgs → Parsed
parse_operands [] args = rejected
parse_operands (path ∷ operands) args =
    if args.opts.n_inodes == 0 then rejected else accepted (record args { img_path = some path })

unfoldable pub parse_args :
    (strtoul : List ℕ → ℕ) → List Getopt → (operands : List (List ℕ)) → MkfsArgs → Parsed
unfolding parse_operands
parse_args strtoul [] operands args = parse_operands operands args
parse_args strtoul (opt_i optarg ∷ options) operands args =
    parse_args strtoul options operands
      (record args { opts = record args.opts { n_inodes = strtoul optarg } })
parse_args strtoul (opt_h ∷ options) operands args = accepted (record args { help = true })
parse_args strtoul (opt_f ∷ options) operands args =
    parse_args strtoul options operands (record args { opts = record args.opts { force = true } })
parse_args strtoul (opt_z ∷ options) operands args =
    parse_args strtoul options operands (record args { opts = record args.opts { zero = true } })
parse_args strtoul (opt_unknown ∷ options) operands args = rejected
parse_args strtoul (opt_v ∷ options) operands args = asserts

abbrev pub no_args : MkfsArgs
no_args = record {
  img_path = none;
  help = false;
  opts = record { n_inodes = 0; force = false; zero = false };
}

-- The main of mkfs once the image is mapped or not.
unfoldable pub mkfs_mapped : Mapping → MkfsOpts → Cmd ℕ
mkfs_mapped null opts = pure 1
mkfs_mapped (mapped addr size) opts = mkfs_main size opts
mkfs_mapped aborted opts = stop

-- The main of mkfs once the options are parsed.
unfoldable pub mkfs_parsed : Host → Parsed → Cmd ℕ
unfolding mkfs_mapped
mkfs_parsed host rejected = pure 1
mkfs_parsed host asserts = stop
mkfs_parsed host (accepted args) = if args.help then pure 0 else elim args.img_path [
  | none ↦ stop
  | some path ↦ mkfs_mapped (map_file host path a1fs_block_size) args.opts
]

-- The main of mkfs: its exit status.
unfoldable pub mkfs_tool :
    Host → (strtoul : List ℕ → ℕ) → List Getopt → (operands : List (List ℕ)) → Cmd ℕ
mkfs_tool host strtoul options operands =
    mkfs_parsed host (parse_args strtoul options operands no_args)
