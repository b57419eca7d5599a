-- ===== src/Examples/Removal.antt =====
-- Descriptions, failures and removals on the sample image.
use Prim.Native.Nat.{bit_or}
use extent_based_fs.Base.{
  true, ℕ, ◌<◌, ◌≡◌, refl, Bool, true, false, not, ◌&&◌, ◌||◌, ◌==◌, some, List, [], ◌∷◌, arith,
  ltb, if◌then◌else◌,
}
use extent_based_fs.Base.Int.{pos, neg}
use extent_based_fs.Base.Upto.{every_until, every_until-holds}
use extent_based_fs.Types.{FsCtx, ok}
use extent_based_fs.Samples.{sample, with_d, root_entries, name_d, path_d}
use extent_based_fs.Image.{load32, str_eq, set_dentry_ino, store_str, dentry_ino}
use extent_based_fs.Bitmap.{check_bit_usage, test_bit}
use extent_based_fs.Bitmap.Toggle.{IsBytes}
use extent_based_fs.Bitmap.FirstFit.{AllUsed}
use extent_based_fs.Dir.{dentry_addrs, find_slot, strtok}
use extent_based_fs.Dir.Lookup.{IsDir, has_name}
use extent_based_fs.Dir.Resolve.{here}
use extent_based_fs.Entry.{find_entry}
use extent_based_fs.Entry.Clear.{OnlyAt}
use extent_based_fs.Ops.{
  a1fs_mkdir, a1fs_create, a1fs_getattr, a1fs_rmdir, a1fs_unlink, is_reg, s_ifdir, enospc,
  enotempty,
}
use extent_based_fs.Ops.Describe.{new_attr, a1fs_getattr-new_node}
use extent_based_fs.Ops.Full.{a1fs_mkdir-full}
use extent_based_fs.Ops.Remove.{Removable, Removed, a1fs_rmdir-Removed}
use extent_based_fs.Ops.FreeExtents.{Owned}
use extent_based_fs.Ops.Unlink.{a1fs_unlink-Removed}
use extent_based_fs.Bitmap.Range.{in_range}
use extent_based_fs.Examples.Files.{file_blocks_used, with_d-IsBytes}
use extent_based_fs.Examples.Dirs.{placeable, d_there, name_d-IsName}

a1fs_getattr-new_node_example :
    ((t : FsCtx) × (a1fs_mkdir path_d 0x81FF sample ≡ ok (pos 0) t)
      × (a1fs_getattr path_d t ≡ ok (new_attr (bit_or 0x81FF s_ifdir) placeable) t))
    × (is_reg 0x81FF ≡ true
        → (t : FsCtx) × (a1fs_create path_d 0x81FF sample ≡ ok (pos 0) t)
          × (a1fs_getattr path_d t ≡ ok (new_attr 0x81FF placeable) t))
a1fs_getattr-new_node_example = a1fs_getattr-new_node 0x81FF placeable tt refl (omega arith)

-- The sample with all of its 16 inodes in use.
abbrev full : FsCtx
full = record sample { inode_bits = λ i. if ltb i 2 then 255 else 0 }

full-AllUsed : AllUsed full.inode_bits 0 16
full-AllUsed j lo hi =
    every_until-holds (check_bit_usage full.inode_bits) 16 j
      (unfold every_until check_bit_usage test_bit in refl) hi

a1fs_mkdir-full_example :
    (a1fs_mkdir path_d 0x1FF full ≡ ok (neg enospc) full)
    × (false ≡ true → a1fs_create path_d 0x1FF full ≡ ok (neg enospc) full)
a1fs_mkdir-full_example = a1fs_mkdir-full full path_d 0x1FF full-AllUsed

abbrev only_tests : (ℕ → Bool) → ℕ → List ℕ → Bool
only_tests test a [] = true
only_tests test a (b ∷ es) = (b == a || not (test b)) && only_tests test a es

only_tests-OnlyAt :
    (test : ℕ → Bool) (a : ℕ) (es : List ℕ) → only_tests test a es ≡ true → OnlyAt test a es
only_tests-OnlyAt test a [] h = tt
only_tests-OnlyAt test a (b ∷ es) h =
    (λ ne. ground arith, only_tests-OnlyAt test a es (ground arith))

d_only : OnlyAt (has_name with_d.image name_d) 16384 root_entries
unfolding str_eq set_dentry_ino store_str
d_only = only_tests-OnlyAt (has_name with_d.image name_d) 16384 root_entries refl

d_entry : find_entry 0 (pos 1) with_d ≡ ok (some 16384) with_d
unfolding find_entry dentry_addrs find_slot dentry_ino load32 set_dentry_ino store_str
d_entry = refl

with_d-IsDir : IsDir with_d 0 root_entries
unfolding dentry_addrs
with_d-IsDir = record { in_table = omega arith; entries = refl }

removable : Removable with_d path_d name_d 0 1 16384 root_entries
removable = record {
  dirs = [];
  above = pos 0;
  tokens = unfold strtok in refl;
  resolves = here;
  avoids = tt;
  apart = omega arith;
  parent = with_d-IsDir;
  leads = d_there;
  entry = d_entry;
  named = unfold str_eq set_dentry_ino store_str in refl;
  only = d_only;
  ok_name = name_d-IsName;
  nonempty = λ e. cc;
  in_table = omega arith;
  used = unfold check_bit_usage test_bit in refl;
}

IsBytes-first_byte : IsBytes with_d.inode_bits
IsBytes-first_byte i = ground arith

a1fs_rmdir-Removed_example :
    ((with_d.itable 1).num_entries ≡ 0
      → (t : FsCtx) × (a1fs_rmdir path_d with_d ≡ ok (pos 0) t) × Removed removable t)
    × (0 < (with_d.itable 1).num_entries → a1fs_rmdir path_d with_d ≡ ok (neg enotempty) with_d)
a1fs_rmdir-Removed_example = a1fs_rmdir-Removed removable IsBytes-first_byte

file-Owned : Owned (with_d.itable 1) 1 0
file-Owned = (omega arith, (1, refl), λ j h. refl, tt)

or_false : (b : Bool) → (b || false) ≡ true → b ≡ true
or_false b h = ground arith

-- The file's blocks 1 and 2 are free again.
a1fs_unlink-Removed_example :
    (t : FsCtx) × (a1fs_unlink path_d with_d ≡ ok (pos 0) t)
    × Removed removable t
    × ((j : ℕ)
        → check_bit_usage t.block_bits j
          ≡ (if in_range 1 2 j || false then false else check_bit_usage with_d.block_bits j))
a1fs_unlink-Removed_example =
    a1fs_unlink-Removed removable file-Owned (λ j h. file_blocks_used j (or_false _ h))
      with_d-IsBytes IsBytes-first_byte
