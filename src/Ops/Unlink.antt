-- ===== src/Ops/Unlink.antt =====
-- a1fs_unlink of a1b/a1fs.c: the blocks of a file are given back, and its entry and inode removed.
use extent_based_fs.Base.{
  ℕ, ◌≡◌, ap, ◌∙◌, true, false, not, ◌||◌, List, Option, arith, inl, inr, ◌==◌, Bool-cases,
  if◌then◌else◌, lt→ltb,
}
use extent_based_fs.Base.Int.{ℤ, pos, negsuc, minus_one, eq_ℤ, eq_ℤ→eq}
use extent_based_fs.Types.{FsCtx, Inode, Bitmap, ok, pure}
use extent_based_fs.Bitmap.{check_bit_usage}
use extent_based_fs.Bitmap.Toggle.{IsBytes}
use extent_based_fs.Dir.{dentry_addrs, inode_lookup, extents_used}
use extent_based_fs.Dir.Resolve.{Resolves, here, step}
use extent_based_fs.Entry.{find_entry}
use extent_based_fs.Ops.Changed.{Avoids}
use extent_based_fs.Ops.FreeExtents.{with_blocks, in_extents, Owned, free_extents-freed}
use extent_based_fs.Ops.Remove.{leads_to, Removable, Removed, remove_node-Removed}
use extent_based_fs.Ops.{remove_node, free_extents, a1fs_unlink}

module _ (free : ℤ) (bits : Bitmap) where
  lookup-with_blocks :
      (s : FsCtx) (curr : ℤ) (token : List ℕ) {r : ℤ}
      → inode_lookup curr token s ≡ ok r s
      → inode_lookup curr token (with_blocks s free bits) ≡ ok r (with_blocks s free bits)
  unfolding inode_lookup dentry_addrs
  lookup-with_blocks s (pos c) token h = ground arith
  lookup-with_blocks s (negsuc c) token h = ground arith

  find_entry-with_blocks :
      (s : FsCtx) (c : ℕ) (z : ℤ) {r : Option ℕ}
      → find_entry c z s ≡ ok r s
      → find_entry c z (with_blocks s free bits) ≡ ok r (with_blocks s free bits)
  unfolding find_entry dentry_addrs
  find_entry-with_blocks s c z h = ground arith

  Resolves-with_blocks :
      {s : FsCtx} {par curr par' curr' : ℤ} {tokens : List (List ℕ)}
      → Resolves s par curr tokens par' curr'
      → Resolves (with_blocks s free bits) par curr tokens par' curr'
  Resolves-with_blocks here = here
  Resolves-with_blocks {s} {curr} (step {token = token} e ne r) =
      step (lookup-with_blocks s curr token e) ne (Resolves-with_blocks r)

  Avoids-with_blocks :
      {s : FsCtx} {par curr par' curr' : ℤ} {tokens : List (List ℕ)} (ino : ℕ)
      (r : Resolves s par curr tokens par' curr')
      → Avoids ino r
      → Avoids ino (Resolves-with_blocks r)
  unfolding Resolves-with_blocks
  Avoids-with_blocks ino here w = w
  Avoids-with_blocks ino (step e ne r) w = (w.0, Avoids-with_blocks ino r w.1)

  Removable-with_blocks :
      {s : FsCtx} {path name : List ℕ} {p ino a : ℕ} {es : List ℕ}
      → Removable s path name p ino a es
      → Removable (with_blocks s free bits) path name p ino a es
  unfolding dentry_addrs
  Removable-with_blocks {s} {name} {p} {ino} h = record {
    dirs = h.dirs;
    above = h.above;
    tokens = h.tokens;
    resolves = Resolves-with_blocks h.resolves;
    avoids = Avoids-with_blocks ino h.resolves h.avoids;
    apart = h.apart;
    parent = record { in_table = h.parent.in_table; entries = h.parent.entries };
    leads = lookup-with_blocks s (pos p) name h.leads;
    entry = find_entry-with_blocks s p (pos ino) h.entry;
    named = h.named;
    only = h.only;
    ok_name = h.ok_name;
    nonempty = h.nonempty;
    in_table = h.in_table;
    used = h.used;
  }

pub freed_run :
    (s : FsCtx) (v : Inode) {t : FsCtx}
    → free_extents v (extents_used v.last_used_extent) 0 s ≡ ok true t
    → (if not (v.size == 0) || not (eq_ℤ v.last_used_extent minus_one)
          then free_extents v (extents_used v.last_used_extent) 0
          else pure true)
        s
      ≡ ok true t
freed_run s v run =
    elim (Bool-cases (not (v.size == 0) || not (eq_ℤ v.last_used_extent minus_one))) [
      | inl e ↦ rw e run
      | inr e ↦
          let none : v.last_used_extent ≡ minus_one = eq_ℤ→eq _ _ (ground arith) in
          rw e (unfold free_extents in rw none at run)
    ]

module _ {s : FsCtx} {path name : List ℕ} {p ino a : ℕ} {es : List ℕ}
    (h : Removable s path name p ino a es) where
  unlink_steps :
      (u : FsCtx) {t : FsCtx}
      → free_extents (s.itable ino) (extents_used (s.itable ino).last_used_extent) 0 s ≡ ok true u
      → remove_node path ino (pos 0) u ≡ ok (pos 0) t
      → a1fs_unlink path s ≡ ok (pos 0) t
  unfolding a1fs_unlink
  unlink_steps u run rest =
      rw (leads_to h, lt→ltb ino _ h.in_table, freed_run s (s.itable ino) run) rest

-- Unlinking a file whose extents have blocks that are in use and not shared between them: its
-- blocks are free afterwards and all others are as they were; the name leads nowhere, every other
-- name in the parent leads where it did, the inode is reset and its bit clear, the parent counts
-- one entry less, and no other inode and no other inode bit has changed.
pub a1fs_unlink-Removed :
    {s : FsCtx} {path name : List ℕ} {p ino a : ℕ} {es : List ℕ}
    (h : Removable s path name p ino a es)
    → Owned (s.itable ino) (extents_used (s.itable ino).last_used_extent) 0
    → ((j : ℕ)
        → in_extents (s.itable ino) (extents_used (s.itable ino).last_used_extent) 0 j ≡ true
        → check_bit_usage s.block_bits j ≡ true)
    → IsBytes s.block_bits
    → IsBytes s.inode_bits
    → (t : FsCtx) × (a1fs_unlink path s ≡ ok (pos 0) t)
      × Removed h t
      × ((j : ℕ)
          → check_bit_usage t.block_bits j ≡ (
              if in_extents (s.itable ino) (extents_used (s.itable ino).last_used_extent) 0 j
              then false
              else check_bit_usage s.block_bits j))
a1fs_unlink-Removed {s} {p} {ino} h owned used bytes inode_bytes =
    let (free, bits, run, clear, counted) =
      free_extents-freed (s.itable ino) (extents_used (s.itable ino).last_used_extent) 0 s owned
        used bytes in
    let (t, e, removed, blocks) =
      remove_node-Removed (Removable-with_blocks free bits h) (pos 0) inode_bytes in
    (
      t,
      unlink_steps h (with_blocks s free bits) run e,
      (
        removed.0,
        λ other r ok_other ne nonempty before.
            removed.1 other r ok_other ne nonempty
              (lookup-with_blocks free bits s (pos p) other before),
        removed.2,
        removed.3,
        removed.4,
        removed.5,
        removed.6,
      ),
      λ j. ap (λ b. check_bit_usage b j) blocks ∙ clear j,
    )
