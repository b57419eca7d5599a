-- ===== src/Examples/Starts.antt =====
-- The start of the programs on a blank image of 16 blocks: mkfs formats it, a1fs mounts it.
use extent_based_fs.Base.{
  ℕ, ◌%◌, ◌≡◌, refl, sym, ap, true, false, List, [], ◌∷◌, not, Bool, ◌==◌, if◌then◌else◌, Option,
  some, none, arith,
}
use extent_based_fs.Base.Int.{ℤ, pos, eq_ℤ}
use extent_based_fs.Types.{FsCtx, Cmd, ◌>>=◌, ok, a1fs_block_size}
use extent_based_fs.Samples.{sample, path_d}
use extent_based_fs.Ops.{a1fs_mkdir, a1fs_rmdir}
use extent_based_fs.Tree.Shape.{IsTree}
use extent_based_fs.Tree.Formatted.{only_root}
use extent_based_fs.Start.{
  Host, mapped, map_file, opt_i, opt_f, opt_z, opt_v, mkfs_tool, parse_args, no_args, is_powerof2,
  is_aligned, align_up, asserts,
}
use extent_based_fs.Start.Mapped.{Maps, PagesAligned, map_file-Maps}
use extent_based_fs.Start.Mount.{
  A1fsOpts, Processed, opt_proc, FuseOptParse, no_opts, added_args, a1fs_main, Start,
}
use extent_based_fs.Start.Tool.{Asks, mkfs_tool-IsTree}
use extent_based_fs.Examples.Trees.{can_format}

abbrev host : Host
host = record { open_file = λ path. pos 3; fstat = λ fd. some 65536; mmap = λ fd size. some 8192 }

abbrev address : Option ℕ → ℕ
address none = 0
address (some addr) = addr

host-PagesAligned : PagesAligned host
host-PagesAligned fd size addr e = ap (λ o. address o % 4096) (sym e)

abbrev img : List ℕ
img = b'i' ∷ b'm' ∷ b'g' ∷ []

map_file-Maps_example : Maps host img (map_file host img a1fs_block_size)
map_file-Maps_example = map_file-Maps host img host-PagesAligned

img_maps : map_file host img a1fs_block_size ≡ mapped 8192 65536
unfolding map_file is_aligned is_powerof2
img_maps = refl

rounded : align_up 4097 4096 ≡ some 8192
unfolding align_up is_powerof2
rounded = refl

-- Any argument of `-i` is read as 16.
abbrev sixteen : List ℕ → ℕ
sixteen optarg = 16

version_asserts : parse_args sixteen (opt_v ∷ []) (img ∷ []) no_args ≡ asserts
unfolding parse_args
version_asserts = refl

asks : Asks sixteen (opt_z ∷ opt_i [] ∷ opt_f ∷ []) 16
asks = record { plain = tt; zeroes = refl; inodes = refl }

-- The arguments that do not start with a dash are no options.
abbrev nonopt : List ℕ → Bool
nonopt [] = true
nonopt (c ∷ arg) = not (c == b'-')

abbrev keep : List ℕ → Processed → Start → Start
keep arg p rest = record rest {
  args = if eq_ℤ p.result (pos 1) then arg ∷ rest.args else rest.args;
}

abbrev parse_each : (A1fsOpts → List ℕ → Bool → Processed) → List (List ℕ) → A1fsOpts → Start
parse_each proc [] opts = record { opts = opts; args = [] }
parse_each proc (arg ∷ args) opts =
    let p = proc opts arg (nonopt arg) in keep arg p (parse_each proc args p.opts)

abbrev each_opt : FuseOptParse
each_opt proc args opts = some (parse_each proc args opts)

abbrev mnt : List ℕ
mnt = b'm' ∷ b'n' ∷ b't' ∷ []

parsed :
    each_opt opt_proc (img ∷ mnt ∷ []) no_opts
    ≡ some (record { opts = record { img_path = some img; help = false }; args = mnt ∷ [] })
unfolding opt_proc
parsed = refl

-- A FUSE that makes and removes `/d`.
abbrev session : List (List ℕ) → Cmd ℤ
session args = do made ← a1fs_mkdir path_d 0x1FF; a1fs_rmdir path_d

mkfs_tool-IsTree_example :
    (t : FsCtx) × (mkfs_tool host sixteen (opt_z ∷ opt_i [] ∷ opt_f ∷ []) (img ∷ []) sample
      ≡ ok 0 t)
    × IsTree t 16 only_root 12
    × (a1fs_main host each_opt session (img ∷ mnt ∷ []) t ≡ session (mnt ∷ added_args) t)
mkfs_tool-IsTree_example =
    mkfs_tool-IsTree asks img [] host 8192 sample 1 each_opt session (img ∷ mnt ∷ []) (mnt ∷ [])
      img_maps can_format (omega arith) parsed refl
