-- ===== src/Entry/Add.antt =====
-- add_dentry of a1b/a1fs_helper.c in a directory that has an unused entry.
use extent_based_fs.Base.{
  ℕ, ◌+◌, ◌%◌, ◌^◌, ◌≤◌, ◌<◌, ◌≡◌, refl, inl, inr, Bool, true, false, List, [], ◌∷◌, some, map,
  arith, length, lt→ltb, le→ltb, Bool-cases,
}
use extent_based_fs.Base.Int.{ℤ, pos, minus_one, eq_ℤ, ◌+ℤ◌}
use extent_based_fs.Types.{FsCtx, ok, update, inode_capacity}
use extent_based_fs.Image.{Bytes, dentry_ino, name_addr}
use extent_based_fs.Alloc.{make_dentry_block}
use extent_based_fs.Dir.{dentry_addrs, inode_entries, extents_used}
use extent_based_fs.Dir.Lookup.{IsDir, first_with, find_slot-map-some}
use extent_based_fs.Dir.Entries.{entries-AllSlots, first_with-IsSlot}
use extent_based_fs.Entry.{find_entry, fill_entry, add_dentry}
use extent_based_fs.Entry.Fill.{entry_image}

-- The test by which the loops look for an entry with an inode number.
abbrev pub has_ino : Bytes → ℤ → ℕ → Bool
has_ino img ino a = eq_ℤ (dentry_ino img a) ino

pub find_entry-first_with :
    {s : FsCtx} {d : ℕ} {es : List ℕ} (ino : ℤ)
    → IsDir s d es
    → find_entry d ino s ≡ ok (first_with (has_ino s.image ino) es) s
unfolding find_entry
find_entry-first_with {s} {d} {es} ino is =
    ground (arith, lt→ltb _ _ is.in_table, is.entries, find_slot-map-some (has_ino s.image ino) es)

-- The state once the entry at offset `a` of directory `d` is filled in.
abbrev pub filled : FsCtx → (d ino : ℕ) → List ℕ → (a : ℕ) → FsCtx
filled s d ino name a = record s {
  image = entry_image s.image a name (pos ino);
  itable = update s.itable d (record (s.itable d) {
    links = 2;
    size = ((s.itable d).size + 1) % 2 ^ 64;
    i_mtime = s.clock s.ticks;
    num_entries = ((s.itable d).num_entries + 1) % 2 ^ 32;
  });
  ticks = s.ticks + 1;
  sb = record s.sb { sb_used_dirs_count = s.sb.sb_used_dirs_count +ℤ pos 1 };
}

fill_entry-filled :
    (s : FsCtx) (d ino a : ℕ) (name : List ℕ)
    → d < inode_capacity s.sb
    → a + 256 ≤ s.size
    → length name ≤ 251
    → fill_entry d ino name a s ≡ ok (pos 0) (filled s d ino name a)
unfolding fill_entry
fill_entry-filled s d ino a name p q h =
    rw (le→ltb s.size (name_addr a + length name + 1) (omega arith), lt→ltb d _ p, lt→ltb d _ p)
      refl

pub filled-IsDir :
    {s : FsCtx} {d : ℕ} {es : List ℕ} (ino : ℕ) (name : List ℕ) (a : ℕ)
    → IsDir s d es
    → IsDir (filled s d ino name a) d es
unfolding dentry_addrs
filled-IsDir {s} {d} ino name a is = record {
  in_table = is.in_table;
  entries = ground (arith, is.entries);
}

-- A directory with an entry has an extent.
no_extent :
    {s : FsCtx} {d : ℕ} {es : List ℕ} {a : ℕ} (test : ℕ → Bool)
    → IsDir s d es
    → first_with test es ≡ some a
    → eq_ℤ (s.itable d).last_used_extent minus_one ≡ false
no_extent {s} {d} {es} {a} test is e =
    elim (Bool-cases (eq_ℤ (s.itable d).last_used_extent minus_one)) [
      | inl m ↦
          absurd
            (none_found es (unfold dentry_addrs inode_entries in rw (unused _ m) at is.entries) e)
      | inr m ↦ m
    ]
  where
    unused : (z : ℤ) → eq_ℤ z minus_one ≡ true → extents_used z ≡ 0
    unused z h = ground arith

    none_found : (es : List ℕ) → [] ≡ map some es → first_with test es ≡ some a → ⊥
    none_found [] p q = unfold first_with in ground (arith, q)
    none_found (b ∷ es) p q = cc

pub add_dentry-filled :
    {s : FsCtx} {d : ℕ} {es : List ℕ} {a : ℕ} (ino : ℕ) (name : List ℕ)
    → IsDir s d es
    → first_with (has_ino s.image minus_one) es ≡ some a
    → length name ≤ 251
    → add_dentry d ino name s ≡ ok (pos 0) (filled s d ino name a)
unfolding add_dentry
add_dentry-filled {s} {d} {es} {a} ino name is free h =
    rw
      (
        lt→ltb d _ is.in_table,
        no_extent (has_ino s.image minus_one) is free,
        find_entry-first_with minus_one is,
        free,
        find_entry-first_with minus_one is,
        free,
      )
      (fill_entry-filled s d ino a name is.in_table
        (first_with-IsSlot s.size (has_ino s.image minus_one) es free
          (entries-AllSlots s _ es is.entries)).0.1
        h)

-- A directory without a block is given one first.
pub add_dentry-grown :
    (s : FsCtx) {g : FsCtx} {d : ℕ} {es : List ℕ} {a : ℕ} (ino : ℕ) (name : List ℕ)
    → d < inode_capacity s.sb
    → (s.itable d).last_used_extent ≡ minus_one
    → make_dentry_block d s ≡ ok (pos 0) g
    → IsDir g d es
    → first_with (has_ino g.image minus_one) es ≡ some a
    → length name ≤ 251
    → add_dentry d ino name s ≡ ok (pos 0) (filled g d ino name a)
unfolding add_dentry
add_dentry-grown s {g} {d} {es} {a} ino name below no_block grown is free h =
    rw
      (
        lt→ltb d _ below,
        no_block,
        grown,
        find_entry-first_with minus_one is,
        free,
        find_entry-first_with minus_one is,
        free,
      )
      (fill_entry-filled g d ino a name is.in_table
        (first_with-IsSlot g.size (has_ino g.image minus_one) es free
          (entries-AllSlots g _ es is.entries)).0.1
        h)
