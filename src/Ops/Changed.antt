-- ===== src/Ops/Changed.antt =====
-- States that differ from one another in one inode and what belongs to it: lookups in other
-- directories, and the walks that make only such lookups, find the same.
use extent_based_fs.Base.{ℕ, ◌≡◌, ◌≢◌, refl, ap, List, [], ◌∷◌, ◌++◌, Option, arith}
use extent_based_fs.Base.Int.{ℤ, pos, negsuc, minus_one, ne→eq_ℤ}
use extent_based_fs.Types.{FsCtx, Inode, Bitmap, ok, update}
use extent_based_fs.Dir.{dentry_addrs, inode_lookup, walk}
use extent_based_fs.Dir.Lookup.{IsDir}
use extent_based_fs.Dir.Resolve.{Resolves, here, step}
use extent_based_fs.Entry.{find_entry}

-- `s` with inode `ino`, the inode bitmap and the free inode count replaced, at a later time.
abbrev pub changed : FsCtx → (ino : ℕ) → Inode → (free : ℤ) → Bitmap → (ticks : ℕ) → FsCtx
changed s ino v free bits ticks = record s {
  sb = record s.sb { sb_free_inodes_count = free };
  inode_bits = bits;
  itable = update s.itable ino v;
  ticks = ticks;
}

-- The walk makes no lookup in directory `ino`.
abbrev pub Avoids :
    (ino : ℕ) {s : FsCtx} {par curr par' curr' : ℤ} {tokens : List (List ℕ)}
    → Resolves s par curr tokens par' curr'
    → Type 0
Avoids ino here = Unit
Avoids ino (step {curr} e ne r) = (curr ≢ pos ino) × Avoids ino r

module _ (v : Inode) (free : ℤ) (bits : Bitmap) (ticks : ℕ) where
  pub lookup-changed :
      (s : FsCtx) (ino c : ℕ) (token : List ℕ) {r : ℤ}
      → c ≢ ino
      → inode_lookup (pos c) token s ≡ ok r s
      → inode_lookup (pos c) token (changed s ino v free bits ticks)
        ≡ ok r (changed s ino v free bits ticks)
  unfolding inode_lookup dentry_addrs
  lookup-changed s ino c token ne h = ground arith

  pub IsDir-changed :
      {s : FsCtx} {ino c : ℕ} {es : List ℕ}
      → c ≢ ino
      → IsDir s c es
      → IsDir (changed s ino v free bits ticks) c es
  unfolding dentry_addrs
  IsDir-changed ne is = record { in_table = is.in_table; entries = ground (arith, is.entries) }

  pub find_entry-changed :
      (s : FsCtx) (ino c : ℕ) (z : ℤ) {r : Option ℕ}
      → c ≢ ino
      → find_entry c z s ≡ ok r s
      → find_entry c z (changed s ino v free bits ticks) ≡ ok r (changed s ino v free bits ticks)
  unfolding find_entry dentry_addrs
  find_entry-changed s ino c z ne h = ground arith

  pub lookup-changed_any :
      (s : FsCtx) (ino : ℕ) (curr : ℤ) (token : List ℕ) {r : ℤ}
      → curr ≢ pos ino
      → inode_lookup curr token s ≡ ok r s
      → inode_lookup curr token (changed s ino v free bits ticks)
        ≡ ok r (changed s ino v free bits ticks)
  lookup-changed_any s ino (pos c) token ne h = lookup-changed s ino c token (λ e. ne (ap pos e)) h
  lookup-changed_any s ino (negsuc c) token ne h = unfold inode_lookup in ground arith

  -- The walk to the directory of a name, in the new state.
  pub walk-changed :
      {s : FsCtx} (ino : ℕ) {par curr par' curr' : ℤ} {dirs : List (List ℕ)} (name : List ℕ)
      {found : ℤ} (r : Resolves s par curr dirs par' curr')
      → curr ≢ minus_one
      → Avoids ino r
      → curr' ≢ pos ino
      → inode_lookup curr' name s ≡ ok found s
      → walk (dirs ++ name ∷ []) curr par (changed s ino v free bits ticks)
        ≡ ok (record { curr_inode = found; par_inode = curr' }) (changed s ino v free bits ticks)
  unfolding walk
  walk-changed {s} ino {curr} name here ne avoids last h =
      rw (ne→eq_ℤ curr minus_one ne, lookup-changed_any s ino curr name last h) refl
  walk-changed {s} ino {curr} name (step {token = token} e ne' r) ne avoids last h =
      rw (ne→eq_ℤ curr minus_one ne, lookup-changed_any s ino curr token avoids.0 e)
        (walk-changed ino name r ne' avoids.1 last h)
