-- ===== src/Session/Served.antt =====
-- What the callbacks of a1b/a1fs.c leave alone, whatever they return.
use extent_based_fs.Base.{ℕ, ◌≡◌, refl, List, [], ◌∷◌}
use extent_based_fs.Types.{FsCtx, ok}
use extent_based_fs.Session.Frame.{Frames, whole, returns, then-Frames}
use extent_based_fs.Session.Reads.{
  a1fs_statfs_reads, a1fs_getattr_reads, a1fs_readdir_reads, a1fs_read_reads,
}
use extent_based_fs.Session.Layout.{Layout}
use extent_based_fs.Session.{
  Request, change, statfs, getattr, readdir, read, Answer, serve, serve_all,
}

-- The requests that only describe.
abbrev pub IsQuery : Request → Type 0
IsQuery (change call) = ⊥
IsQuery _ = Unit

abbrev pub AllQueries : List Request → Type 0
AllQueries [] = Unit
AllQueries (request ∷ requests) = IsQuery request × AllQueries requests

serve_reads : (fuel : ℕ) (request : Request) → IsQuery request → Frames whole (serve fuel request)
unfolding serve
serve_reads fuel (change call) query s a t e = absurd query
serve_reads fuel statfs query s a t e =
    then-Frames whole s (a1fs_statfs_reads s) (λ r u. returns whole u refl) a t e
serve_reads fuel (getattr path) query s a t e =
    then-Frames whole s (a1fs_getattr_reads path s) (λ r u. returns whole u refl) a t e
serve_reads fuel (readdir path) query s a t e =
    then-Frames whole s (a1fs_readdir_reads path s) (λ r u. returns whole u refl) a t e
serve_reads fuel (read path buf size offset) query s a t e =
    then-Frames whole s (a1fs_read_reads path buf size offset s) (λ r u. returns whole u refl) a t e

all_read :
    (fuel : ℕ) (requests : List Request)
    → AllQueries requests
    → Frames whole (serve_all fuel requests)
unfolding serve_all
all_read fuel [] queries s = returns whole s refl
all_read fuel (request ∷ requests) queries s =
    then-Frames whole s (serve_reads fuel request queries.0 s)
      λ a t. then-Frames whole t (all_read fuel requests queries.1 t) λ r u. returns whole u refl

-- On any image, a sequence of requests for a1fs_statfs, a1fs_getattr, a1fs_readdir and a1fs_read
-- that all return leaves the whole state as it was, and serving it again gives the same answers.
pub serve_all-reads :
    (s : FsCtx) {t : FsCtx} {answers : List Answer} (fuel : ℕ) (requests : List Request)
    → AllQueries requests
    → serve_all fuel requests s ≡ ok answers t
    → (t ≡ s) × (serve_all fuel requests t ≡ ok answers t)
serve_all-reads s {t} {answers} fuel requests queries returned =
    let same = all_read fuel requests queries s answers t returned in
    (same, rw same (rw same at returned))
