-- ===== src/Start/Mount.antt =====
-- The options of the mounting program (a1b/options.c) and its start (a1fs_init and main of
-- a1b/a1fs.c). The functions of libfuse are arguments.
use extent_based_fs.Base.{
  ℕ, Bool, true, false, not, ◌&&◌, List, [], ◌∷◌, ◌++◌, Option, none, some, if◌then◌else◌, ◌≡◌, ap,
  ◌∙◌,
}
use extent_based_fs.Base.Int.{ℤ, pos}
use extent_based_fs.Types.{FsCtx, Cmd, and_then, pure, stop, ◌>>=◌, a1fs_block_size}
use extent_based_fs.Mkfs.{fs_ctx_init}
use extent_based_fs.Start.{Host, Mapping, map_file, null, mapped, aborted}

pub record A1fsOpts : Type 0 where
  pub img_path : Option (List ℕ)
  pub help : Bool

-- What opt_proc makes of the options, and whether the argument is kept.
pub record Processed : Type 0 where
  pub opts : A1fsOpts
  pub result : ℤ

-- `nonopt` tells whether `key` is FUSE_OPT_KEY_NONOPT. The first argument that is no option is the
-- image, and is dropped.
unfoldable pub opt_proc : A1fsOpts → (arg : List ℕ) → (nonopt : Bool) → Processed
opt_proc opts arg nonopt = elim opts.img_path [
  | none ↦
      if nonopt
      then record { opts = record opts { img_path = some arg }; result = pos 0 }
      else record { opts = opts; result = pos 1 }
  | some path ↦ record { opts = opts; result = pos 1 }
]

-- The options and the arguments that are left, for fuse_main.
pub record Start : Type 0 where
  pub opts : A1fsOpts
  pub args : List (List ℕ)

-- fuse_opt_parse of libfuse, for a callback: `none` where it does not return 0.
abbrev pub FuseOptParse : Type 0
FuseOptParse =
    (A1fsOpts → List ℕ → Bool → Processed) → (args : List (List ℕ)) → A1fsOpts → Option Start

-- `-ho`, and `-s -o max_read=4096 -o max_write=4096`.
abbrev pub help_args : List (List ℕ)
help_args = (b'-' ∷ b'h' ∷ b'o' ∷ []) ∷ []

abbrev pub added_args : List (List ℕ)
added_args =
    (b'-' ∷ b's' ∷ [])
    ∷ (b'-' ∷ b'o' ∷ [])
    ∷ (b'm' ∷ b'a' ∷ b'x' ∷ b'_' ∷ b'r' ∷ b'e' ∷ b'a' ∷ b'd' ∷ b'=' ∷ b'4' ∷ b'0' ∷ b'9' ∷ b'6'
        ∷ [])
    ∷ (b'-' ∷ b'o' ∷ [])
    ∷ (b'm' ∷ b'a' ∷ b'x' ∷ b'_' ∷ b'w' ∷ b'r' ∷ b'i' ∷ b't' ∷ b'e' ∷ b'=' ∷ b'4' ∷ b'0' ∷ b'9'
        ∷ b'6' ∷ [])
    ∷ []

abbrev pub no_path : Option (List ℕ) → Bool
no_path none = true
no_path (some path) = false

-- a1fs_opt_parse once fuse_opt_parse has returned.
unfoldable pub opts_parsed : Option Start → Option Start
opts_parsed none = none
opts_parsed (some start) =
    let args = if start.opts.help then start.args ++ help_args else start.args in
    if not start.opts.help && no_path start.opts.img_path
    then none
    else some (record { opts = start.opts; args = args ++ added_args })

unfoldable pub a1fs_opt_parse : FuseOptParse → (args : List (List ℕ)) → A1fsOpts → Option Start
a1fs_opt_parse fuse_opt_parse args opts = opts_parsed (fuse_opt_parse opt_proc args opts)

-- The context is the image that is mapped; its size is the file's.
unfoldable pub mount_mapped : Mapping → Cmd Bool
mount_mapped null = pure false
mount_mapped (mapped addr size) = λ s. pure (fs_ctx_init s) s
mount_mapped aborted = stop

unfoldable pub a1fs_init : Host → A1fsOpts → Cmd Bool
a1fs_init host opts = if opts.help then pure true else elim opts.img_path [
  | none ↦ stop
  | some path ↦ mount_mapped (map_file host path a1fs_block_size)
]

abbrev pub no_opts : A1fsOpts
no_opts = record { img_path = none; help = false }

-- The main of a1fs once its options are parsed.
unfoldable pub a1fs_started : Host → (fuse_main : List (List ℕ) → Cmd ℤ) → Option Start → Cmd ℤ
a1fs_started host fuse_main none = pure (pos 1)
a1fs_started host fuse_main (some start) = do
  mounts ← a1fs_init host start.opts
  if mounts then fuse_main start.args else pure (pos 1)

-- The exit status of the mounting program; `fuse_main` answers callbacks until the unmount.
unfoldable pub a1fs_main :
    Host → FuseOptParse → (fuse_main : List (List ℕ) → Cmd ℤ) → (args : List (List ℕ)) → Cmd ℤ
a1fs_main host fuse_opt_parse fuse_main args =
    a1fs_started host fuse_main (a1fs_opt_parse fuse_opt_parse args no_opts)

-- With the image named and mounted, the program hands over to FUSE.
pub a1fs_main-fuse_main :
    (host : Host) (fuse_opt_parse : FuseOptParse) (fuse_main : List (List ℕ) → Cmd ℤ)
    (path : List ℕ) (args kept : List (List ℕ)) (addr size : ℕ) (s : FsCtx)
    → fuse_opt_parse opt_proc args no_opts
      ≡ some (record { opts = record { img_path = some path; help = false }; args = kept })
    → map_file host path a1fs_block_size ≡ mapped addr size
    → fs_ctx_init s ≡ true
    → a1fs_main host fuse_opt_parse fuse_main args s ≡ fuse_main (kept ++ added_args) s
unfolding a1fs_main a1fs_started a1fs_opt_parse opts_parsed a1fs_init mount_mapped
a1fs_main-fuse_main host fuse_opt_parse fuse_main path args kept addr size s parsed maps magic =
    ap (λ o. a1fs_started host fuse_main (opts_parsed o) s) parsed
    ∙ ap
        (λ m.
          and_then (mount_mapped m s)
            (λ b. if b then fuse_main (kept ++ added_args) else pure (pos 1)))
        maps
    ∙ ap (λ b. (if b then fuse_main (kept ++ added_args) else pure (pos 1)) s) magic
