-- ===== src/Session.antt =====
-- The callback table a1fs_ops of a1b/a1fs.c: one request of any kind, and a sequence of them.
pub mod Frame
pub mod Reads
pub mod Layout
pub mod Nodes
pub mod Contents
pub mod Files
pub mod Served
use extent_based_fs.Base.{ℕ, List, [], ◌∷◌}
use extent_based_fs.Base.Int.{ℤ}
use extent_based_fs.Types.{Cmd, pure, ◌>>=◌}
use extent_based_fs.Ops.{Statvfs, Attr, Listing, a1fs_statfs, a1fs_getattr, a1fs_readdir}
use extent_based_fs.Io.{ReadResult, a1fs_read}
use extent_based_fs.Tree.{Call, run_call}

-- `change` is one of the callbacks that change the file system.
pub data Request : Type 0 where
  change : Call → Request
  statfs : Request
  getattr readdir : (path : List ℕ) → Request
  read : (path : List ℕ) → (buf : ℕ → ℕ) → (size offset : ℕ) → Request

-- The result of a callback, with what it stores through its pointers.
pub data Answer : Type 0 where
  status : ℤ → Answer
  statvfs : Statvfs → Answer
  attributes : Attr → Answer
  listing : Listing → Answer
  bytes : ReadResult → Answer

unfoldable pub serve : (fuel : ℕ) → Request → Cmd Answer
serve fuel (change call) = do r ← run_call fuel call; pure (status r)
serve fuel statfs = do r ← a1fs_statfs; pure (statvfs r)
serve fuel (getattr path) = do r ← a1fs_getattr path; pure (attributes r)
serve fuel (readdir path) = do r ← a1fs_readdir path; pure (listing r)
serve fuel (read path buf size offset) = do r ← a1fs_read path buf size offset; pure (bytes r)

-- libfuse serves one request after the other.
unfoldable pub serve_all : (fuel : ℕ) → List Request → Cmd (List Answer)
serve_all fuel [] = pure []
serve_all fuel (request ∷ requests) = do
  answer ← serve fuel request
  answers ← serve_all fuel requests
  pure (answer ∷ answers)
