-- ===== src/Start/Tool.antt =====
-- The command line of a1b/mkfs.c, and the whole tool on it, up to the mount by a1b/a1fs.c.
use mathlib.Core.Bool.{or-false, or-true}
use extent_based_fs.Base.{
  ℕ, ◌-◌, ◌≤◌, ◌≡◌, ◌≢◌, refl, ap, ◌∙◌, Bool, true, false, not, ◌&&◌, ◌||◌, List, [], ◌∷◌, ◌++◌,
  Option, some, none, arith, ne→==,
}
use extent_based_fs.Base.Int.{ℤ}
use extent_based_fs.Types.{FsCtx, Cmd, ok, a1fs_block_size}
use extent_based_fs.Mkfs.{MkfsOpts, memset_zero, a1fs_is_present}
use extent_based_fs.Mkfs.Format.{CanFormat, after_table}
use extent_based_fs.Tree.Shape.{IsTree}
use extent_based_fs.Tree.Formatted.{only_root, mkfs_main-IsTree}
use extent_based_fs.Start.Mount.{
  FuseOptParse, opt_proc, no_opts, added_args, a1fs_main, a1fs_main-fuse_main,
}
use extent_based_fs.Start.{
  Host, mapped, map_file, Getopt, opt_i, opt_h, opt_f, opt_v, opt_z, opt_unknown, MkfsArgs,
  accepted, parse_operands, parse_args, no_args, mkfs_parsed, mkfs_mapped, mkfs_tool,
}

-- Only `-i`, `-f` and `-z`.
abbrev pub Plain : List Getopt → Type 0
Plain [] = Unit
Plain (opt_i optarg ∷ options) = Plain options
Plain (opt_f ∷ options) = Plain options
Plain (opt_z ∷ options) = Plain options
Plain (opt_h ∷ options) = ⊥
Plain (opt_v ∷ options) = ⊥
Plain (opt_unknown ∷ options) = ⊥

abbrev pub is_f : Getopt → Bool
is_f opt_f = true
is_f _ = false

abbrev pub is_z : Getopt → Bool
is_z opt_z = true
is_z _ = false

abbrev pub given : (Getopt → Bool) → List Getopt → Bool
given p [] = false
given p (o ∷ options) = p o || given p options

-- The value of the last `-i`, or `n` without one.
abbrev pub inodes_asked : (strtoul : List ℕ → ℕ) → List Getopt → (n : ℕ) → ℕ
inodes_asked strtoul [] n = n
inodes_asked strtoul (opt_i optarg ∷ options) n = inodes_asked strtoul options (strtoul optarg)
inodes_asked strtoul (_ ∷ options) n = inodes_asked strtoul options n

abbrev pub args_of : (path : Option (List ℕ)) → (n : ℕ) → (force zero : Bool) → MkfsArgs
args_of path n force zero = record {
  img_path = path;
  help = false;
  opts = record { n_inodes = n; force = force; zero = zero };
}

parse_args-Plain :
    (strtoul : List ℕ → ℕ) (options : List Getopt) (operands : List (List ℕ)) (n : ℕ)
    (force zero : Bool)
    → Plain options
    → parse_args strtoul options operands (args_of none n force zero)
      ≡ parse_operands operands (
          args_of none
            (inodes_asked strtoul options n)
            (force || given is_f options)
            (zero || given is_z options))
unfolding parse_args
parse_args-Plain strtoul [] operands n force zero plain = rw (or-false force, or-false zero) refl
parse_args-Plain strtoul (opt_i optarg ∷ options) operands n force zero plain =
    parse_args-Plain strtoul options operands (strtoul optarg) force zero plain
parse_args-Plain strtoul (opt_f ∷ options) operands n force zero plain =
    rw (or-true force) (parse_args-Plain strtoul options operands n true zero plain)
parse_args-Plain strtoul (opt_z ∷ options) operands n force zero plain =
    rw (or-true zero) (parse_args-Plain strtoul options operands n force true plain)
parse_args-Plain strtoul (opt_h ∷ options) operands n force zero plain = absurd plain
parse_args-Plain strtoul (opt_v ∷ options) operands n force zero plain = absurd plain
parse_args-Plain strtoul (opt_unknown ∷ options) operands n force zero plain = absurd plain

-- Options that ask for `n` inodes and for the image to be zeroed.
pub record Asks (strtoul : List ℕ → ℕ) (options : List Getopt) (n : ℕ) : Type 0 where
  pub plain : Plain options
  pub zeroes : given is_z options ≡ true
  pub inodes : inodes_asked strtoul options 0 ≡ n

module _ {strtoul : List ℕ → ℕ} {options : List Getopt} {n : ℕ} (asks : Asks strtoul options n)
    (path : List ℕ) (operands : List (List ℕ)) where
  parse_args-accepts :
      n ≢ 0
      → parse_args strtoul options (path ∷ operands) no_args
        ≡ accepted (args_of (some path) n (given is_f options) true)
  unfolding parse_operands
  parse_args-accepts some_inode =
      rw
        (
          parse_args-Plain strtoul options (path ∷ operands) 0 false false asks.plain,
          asks.inodes,
          asks.zeroes,
          ne→== n 0 some_inode,
        )
        refl

  -- The tool run with options that are only `-i`, `-f` and `-z`, among them `-z` and with the last
  -- `-i` asking for `n` inodes, at most 16, and with the path of an image that is mapped, holds no
  -- a1fs or comes with `-f`, and has space left for data: the exit status is 0, and the image
  -- stands for the tree that is the root directory alone. The mounting program, where its options
  -- name that image, then hands over to FUSE, with the arguments that it adds.
  pub mkfs_tool-IsTree :
      (host : Host) (addr : ℕ) (s : FsCtx) (dbm : ℕ) (fuse_opt_parse : FuseOptParse)
      (fuse_main : List (List ℕ) → Cmd ℤ) (args kept : List (List ℕ))
      → map_file host path a1fs_block_size ≡ mapped addr s.size
      → CanFormat (memset_zero s) s.size n dbm
      → n ≤ 16
      → fuse_opt_parse opt_proc args no_opts
        ≡ some (record { opts = record { img_path = some path; help = false }; args = kept })
      → not (given is_f options) && a1fs_is_present s ≡ false
      → (t : FsCtx) × (mkfs_tool host strtoul options (path ∷ operands) s ≡ ok 0 t)
        × IsTree t n only_root (after_table s.size n - dbm)
        × (a1fs_main host fuse_opt_parse fuse_main args t ≡ fuse_main (kept ++ added_args) t)
  unfolding mkfs_tool mkfs_parsed mkfs_mapped
  mkfs_tool-IsTree host addr s dbm fuse_opt_parse fuse_main args kept maps h few parsed allowed =
      let r = mkfs_main-IsTree s h refl few opts refl refl allowed in
      (
        r.0,
        ap (λ parsed. mkfs_parsed host parsed s) (parse_args-accepts (omega (arith, h.some_inode)))
            ∙ ap (λ m. mkfs_mapped m opts s) maps
            ∙ r.1,
        r.2,
        a1fs_main-fuse_main host fuse_opt_parse fuse_main path args kept addr s.size r.0 parsed maps
            r.3,
      )
    where
      opts : MkfsOpts
      opts = (args_of (some path) n (given is_f options) true).opts
