-- ===== src/Dir/Resolve.antt =====
-- The path walk of get_inode_num of a1b/a1fs_helper.c.
use extent_based_fs.Base.{ℕ, ◌≡◌, ◌≢◌, refl, List, [], ◌∷◌}
use extent_based_fs.Base.Int.{ℤ, pos, minus_one, ne→eq_ℤ}
use extent_based_fs.Types.{FsCtx, ok}
use extent_based_fs.Dir.{inode_lookup, walk, strtok, get_inode_num}

-- From `curr`, below `par`, each token names an entry of the directory that the tokens before it
-- lead to; the last one and its directory are `curr'` and `par'`.
pub data Resolves (s : FsCtx) : (par curr : ℤ) → List (List ℕ) → (par' curr' : ℤ) → Type 0 where
  here : {par curr : ℤ} → Resolves s par curr [] par curr
  step :
      {par curr next par' curr' : ℤ} {token : List ℕ} {tokens : List (List ℕ)}
      → inode_lookup curr token s ≡ ok next s
      → next ≢ minus_one
      → Resolves s curr next tokens par' curr'
      → Resolves s par curr (token ∷ tokens) par' curr'

pub walk-Resolves :
    {s : FsCtx} {par curr par' curr' : ℤ} {tokens : List (List ℕ)}
    → curr ≢ minus_one
    → Resolves s par curr tokens par' curr'
    → walk tokens curr par s ≡ ok (record { curr_inode = curr'; par_inode = par' }) s
unfolding walk
walk-Resolves ne here = refl
walk-Resolves {curr} ne (step {next} e ne' r) =
    rw (ne→eq_ℤ curr minus_one ne, e) (walk-Resolves ne' r)

-- A path whose every component exists leads to the inode number of its last component, and with
-- `tog` 1 to that of the directory that holds it; nothing is changed.
pub get_inode_num-Resolves :
    (s : FsCtx) (path : List ℕ) {par curr : ℤ}
    → Resolves s (pos 0) (pos 0) (strtok path) par curr
    → (get_inode_num path 0 s ≡ ok curr s) × (get_inode_num path 1 s ≡ ok par s)
unfolding get_inode_num
get_inode_num-Resolves s path r = (rw (walk-Resolves (λ e. cc) r), rw (walk-Resolves (λ e. cc) r))

-- A component that does not exist is skipped if another one follows: the walk goes on with the
-- next component in the same directory.
pub walk_skips :
    {s : FsCtx} (curr par : ℤ) (token other : List ℕ) (tokens : List (List ℕ))
    → curr ≢ minus_one
    → inode_lookup curr token s ≡ ok minus_one s
    → walk (token ∷ other ∷ tokens) curr par s ≡ walk (other ∷ tokens) curr par s
unfolding walk
walk_skips curr par token other tokens ne e = rw (ne→eq_ℤ curr minus_one ne, e)
