-- ===== src/Examples/Dirs.antt =====
-- Directories and paths on the sample image, and a session on a freshly formatted one.
use Prim.Native.Nat.{bit_or}
use extent_based_fs.Base.{ℕ, ◌+◌, ◌%◌, ◌^◌, ◌≡◌, ◌≢◌, refl, some, [], ◌∷◌, ◌++◌, arith}
use extent_based_fs.Base.Int.{ℤ, pos, minus_one}
use extent_based_fs.Types.{FsCtx, ok}
use extent_based_fs.Samples.{sample, with_d, root_entries, name_d, name_e, path_d, first_byte}
use extent_based_fs.Image.{load32, str_eq, set_dentry_ino, store_str, dentry_ino}
use extent_based_fs.Bitmap.{get_available_bit}
use extent_based_fs.Bitmap.Toggle.{IsBytes}
use extent_based_fs.Dir.{
  dentry_addrs, find_slot, inode_lookup, walk, strtok, get_inode_num, last_name,
}
use extent_based_fs.Dir.Lookup.{IsDir, LookedUp, inode_lookup-LookedUp}
use extent_based_fs.Dir.Resolve.{Resolves, here, step, get_inode_num-Resolves, walk_skips}
use extent_based_fs.Entry.{find_entry, add_dentry}
use extent_based_fs.Entry.Fill.{IsName}
use extent_based_fs.Entry.Visible.{add_dentry-lookup}
use extent_based_fs.Ops.{a1fs_mkdir, a1fs_create, s_ifdir}
use extent_based_fs.Ops.Make.{Placeable, Made, a1fs_mkdir-Made, a1fs_create-Made}

pub root-IsDir : IsDir sample 0 root_entries
unfolding dentry_addrs
root-IsDir = record { in_table = omega arith; entries = refl }

pub first_unused : find_entry 0 minus_one sample ≡ ok (some 16384) sample
unfolding find_entry dentry_addrs find_slot dentry_ino load32
first_unused = refl

pub no_d : inode_lookup (pos 0) name_d sample ≡ ok minus_one sample
unfolding inode_lookup dentry_addrs find_slot str_eq
no_d = refl

pub name_d-IsName : IsName name_d
name_d-IsName = omega arith

inode_lookup-LookedUp_example :
    (r : ℤ) × (inode_lookup (pos 0) name_d sample ≡ ok r sample)
    × LookedUp sample.image name_d root_entries r
inode_lookup-LookedUp_example = inode_lookup-LookedUp name_d root-IsDir

add_dentry-lookup_example :
    (t : FsCtx) × (add_dentry 0 2 name_d sample ≡ ok (pos 0) t)
    × IsDir t 0 root_entries
    × (inode_lookup (pos 0) name_d t ≡ ok (pos 2) t)
    × ((t.itable 0).num_entries ≡ ((sample.itable 0).num_entries + 1) % 2 ^ 32)
    × ((j : ℕ) → j ≢ 0 → t.itable j ≡ sample.itable j)
    × (t.inode_bits ≡ sample.inode_bits)
    × (t.block_bits ≡ sample.block_bits)
add_dentry-lookup_example =
    add_dentry-lookup 16384 2 name_d root-IsDir first_unused name_d-IsName (omega arith) no_d

pub d_there : inode_lookup (pos 0) name_d with_d ≡ ok (pos 1) with_d
unfolding inode_lookup dentry_addrs find_slot str_eq dentry_ino load32 set_dentry_ino store_str
d_there = refl

d-Resolves : Resolves with_d (pos 0) (pos 0) (strtok path_d) (pos 0) (pos 1)
unfolding strtok
d-Resolves = step d_there (λ e. cc) here

get_inode_num-Resolves_example :
    (get_inode_num path_d 0 with_d ≡ ok (pos 1) with_d)
    × (get_inode_num path_d 1 with_d ≡ ok (pos 0) with_d)
get_inode_num-Resolves_example = get_inode_num-Resolves with_d path_d d-Resolves

no_e : inode_lookup (pos 0) name_e with_d ≡ ok minus_one with_d
unfolding inode_lookup dentry_addrs find_slot str_eq dentry_ino load32 set_dentry_ino store_str
no_e = refl

-- The path `/e/d` leads to what `/d` is.
walk_skips_example :
    walk (name_e ∷ name_d ∷ []) (pos 0) (pos 0) with_d ≡ walk (name_d ∷ []) (pos 0) (pos 0) with_d
walk_skips_example = walk_skips (pos 0) (pos 0) name_e name_d [] (λ e. cc) no_e

pub chosen : get_available_bit sample.sb sample.inode_bits 0 minus_one ≡ pos 2
unfolding get_available_bit
chosen = refl

pub d_tokens : strtok path_d ≡ [] ++ name_d ∷ []
unfolding strtok
d_tokens = refl

pub d_last : last_name path_d ≡ some name_d
unfolding last_name
d_last = refl

abbrev pub placeable : Placeable sample path_d name_d 0 2 16384 root_entries
placeable = record {
  dirs = [];
  above = pos 0;
  tokens = d_tokens;
  last = d_last;
  resolves = here;
  avoids = tt;
  apart = omega arith;
  parent = root-IsDir;
  unused = first_unused;
  ok_name = name_d-IsName;
  new = no_d;
  chosen = chosen;
  in_table = omega arith;
  small = omega arith;
}

IsBytes-3 : IsBytes (first_byte 3)
IsBytes-3 i = ground arith

a1fs_mkdir-Made_example :
    (t : FsCtx) × (a1fs_mkdir path_d 0x1FF sample ≡ ok (pos 0) t)
    × Made placeable t (bit_or 0x1FF s_ifdir)
a1fs_mkdir-Made_example = a1fs_mkdir-Made 0x1FF placeable IsBytes-3

a1fs_create-Made_example :
    (t : FsCtx) × (a1fs_create path_d 0x81FF sample ≡ ok (pos 0) t) × Made placeable t 0x81FF
a1fs_create-Made_example = a1fs_create-Made 0x81FF placeable refl IsBytes-3
