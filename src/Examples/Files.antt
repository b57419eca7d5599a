-- ===== src/Examples/Files.antt =====
-- Files of the sample image, written, read and shrunk.
use extent_based_fs.Base.{
  ℕ, ◌≢◌, ◌<◌, ◌≡◌, inl, inr, refl, true, false, ◌==◌, ==→eq, Bool-cases, if◌then◌else◌, arith,
}
use extent_based_fs.Base.Int.{pos, minus_one, ◌-ℤ◌, neg, ◌+ℤ◌}
use extent_based_fs.Types.{FsCtx, ok, fault}
use extent_based_fs.Samples.{root, file, with_d, root_entries, path_d}
use extent_based_fs.Dir.{strtok, dentry_addrs, get_inode_num, walk, inode_lookup, find_slot}
use extent_based_fs.Dir.Lookup.{IsDir}
use extent_based_fs.Dir.Resolve.{Resolves, here, step, get_inode_num-Resolves}
use extent_based_fs.Io.{a1fs_read, a1fs_truncate, a1fs_write, ReadResult}
use extent_based_fs.Io.Paths.{SameOutside, WalksOutside}
use extent_based_fs.Io.RoundTrip.{InFirstExtent, a1fs_read-a1fs_write}
use extent_based_fs.Io.Shrink.{Shrinkable, a1fs_truncate_shrinks}
use extent_based_fs.Io.Grow.{Growable, a1fs_truncate_grows}
use extent_based_fs.Contents.{find_offset_extent, find_offset_from}
use extent_based_fs.Contents.Search.{Search, find_offset_extent-Search}
use extent_based_fs.Bitmap.{get_available_bit, check_bit_usage, test_bit}
use extent_based_fs.Bitmap.Toggle.{IsBytes}
use extent_based_fs.Bitmap.Range.{in_range}
use extent_based_fs.Image.{str_eq, dentry_ino, load32, set_dentry_ino, store_str}
use extent_based_fs.Examples.Dirs.{d_there}

file-InFirstExtent : InFirstExtent with_d 1 100 0
file-InFirstExtent = record {
  in_table = omega arith;
  within = omega arith;
  small = omega arith;
  blocks = 2;
  count = refl;
  holds = omega arith;
  first = inl refl;
  inside = omega arith;
  positive = omega arith;
}

root-IsDir : IsDir with_d 0 root_entries
unfolding dentry_addrs
root-IsDir = record { in_table = omega arith; entries = refl }

unfoldable d-Resolves : Resolves with_d (pos 0) (pos 0) (strtok path_d) (pos 0) (pos 1)
unfolding strtok
d-Resolves = step d_there (λ e. cc) here

d-WalksOutside : WalksOutside 20480 20580 d-Resolves
unfolding d-Resolves
d-WalksOutside = (
  record {
    dir = 0;
    entries = root_entries;
    at = refl;
    is_dir = root-IsDir;
    outside = omega arith;
    short = omega arith;
  },
  tt,
)

a1fs_read-a1fs_write_example :
    (t : FsCtx) × (a1fs_write 1 path_d (λ x. 7) 100 0 with_d ≡ ok (pos 100) t)
    × SameOutside 20480 20580 with_d t.image
    × ((result : ReadResult) × (a1fs_read path_d (λ x. 0) 100 0 t ≡ ok result t)
        × (result.result ≡ pos 100)
        × ((x : ℕ) → x < 100 → result.buf x ≡ 7))
a1fs_read-a1fs_write_example =
    a1fs_read-a1fs_write file-InFirstExtent path_d d-Resolves d-WalksOutside 1 (λ x. 7) (λ x. 0)

d_leads : get_inode_num path_d 0 with_d ≡ ok (pos 1) with_d
d_leads = (get_inode_num-Resolves with_d path_d d-Resolves).0

pub file_blocks_used : (j : ℕ) → in_range 1 2 j ≡ true → check_bit_usage with_d.block_bits j ≡ true
unfolding check_bit_usage test_bit
file_blocks_used j h = elim (Bool-cases (j == 1)) [
  | inl e ↦ rw (==→eq j 1 e) refl
  | inr e ↦ let two : j ≡ 2 = ground arith in rw two refl
]

-- The file takes blocks 1 and 2.
d-Shrinkable : Shrinkable with_d path_d 1 100
d-Shrinkable = record {
  leads = d_leads;
  in_table = omega arith;
  small = omega arith;
  last = refl;
  count = refl;
  shrinks = omega arith;
  used = file_blocks_used;
}

pub with_d-IsBytes : IsBytes with_d.block_bits
with_d-IsBytes i = ground arith

a1fs_truncate_shrinks_example :
    (t : FsCtx) × (a1fs_truncate 1 path_d 100 with_d ≡ ok (pos 0) t)
    × ((j : ℕ)
        → check_bit_usage t.block_bits j
          ≡ (if in_range 2 1 j then false else check_bit_usage with_d.block_bits j))
    × (t.sb ≡ record with_d.sb { sb_free_blocks_count = pos 9 +ℤ pos 1 })
    × ((t.itable 1).size ≡ 100)
    × ((t.itable 1).i_extent ≡ (with_d.itable 1).i_extent)
    × ((t.itable 1).last_used_extent ≡ pos 0)
    × (t.image ≡ with_d.image)
a1fs_truncate_shrinks_example = a1fs_truncate_shrinks 1 d-Shrinkable with_d-IsBytes

-- The first extent of the file as zero_out_blocks leaves it.
abbrev zeroed : FsCtx
zeroed = record with_d {
  itable = λ i. record (with_d.itable i) {
    i_extent = λ k. record ((with_d.itable i).i_extent k) { size = neg 8192 };
    last_used_extent = (with_d.itable i).last_used_extent;
  };
}

d_leads_zeroed : get_inode_num path_d 0 zeroed ≡ ok (pos 1) zeroed
unfolding get_inode_num walk strtok inode_lookup dentry_addrs find_slot str_eq dentry_ino load32
    set_dentry_ino store_str
d_leads_zeroed = refl

-- After a truncate to 8192 bytes the second block is out of reach.
second_block_strays : a1fs_read path_d (λ x. 0) 10 4096 zeroed ≡ fault
unfolding a1fs_read find_offset_extent find_offset_from
second_block_strays = rw d_leads_zeroed refl

find_offset_extent-Search_example :
    Search (zeroed.itable 1) 4096 zeroed (find_offset_extent 1 (pos 4096) zeroed)
find_offset_extent-Search_example =
    find_offset_extent-Search zeroed 1 4096 (omega arith) (omega arith)

-- The same image with an empty file.
abbrev emptied : FsCtx
emptied = record with_d {
  itable = λ i. if i == 0 then root else record file { size = 0; last_used_extent = minus_one };
}

d_leads_emptied : get_inode_num path_d 0 emptied ≡ ok (pos 1) emptied
unfolding get_inode_num walk strtok inode_lookup dentry_addrs find_slot str_eq dentry_ino load32
    set_dentry_ino store_str
d_leads_emptied = refl

found_3 : get_available_bit emptied.sb emptied.block_bits 1 (pos 2) ≡ pos 3
unfolding get_available_bit
found_3 = refl

emptied-Growable : Growable emptied path_d 1 3 5000
emptied-Growable = record {
  leads = d_leads_emptied;
  in_table = omega arith;
  differs = λ e. cc;
  empty = refl;
  found = found_3;
  inside = omega arith;
  positive = omega arith;
}

blocks_free : (j : ℕ) → in_range 3 2 j ≡ true → check_bit_usage emptied.block_bits j ≡ false
unfolding check_bit_usage test_bit
blocks_free j h = elim (Bool-cases (j == 3)) [
  | inl e ↦ rw (==→eq j 3 e) refl
  | inr e ↦ let four : j ≡ 4 = ground arith in rw four refl
]

a1fs_truncate_grows_example :
    (t : FsCtx) × (a1fs_truncate 1 path_d 5000 emptied ≡ ok (pos 0) t)
    × ((x : ℕ) → t.image x ≡ (if in_range 28672 5000 x then 0 else emptied.image x))
    × ((j : ℕ)
        → check_bit_usage t.block_bits j
          ≡ (if in_range 3 2 j then true else check_bit_usage emptied.block_bits j))
    × (t.sb.sb_free_blocks_count ≡ pos 9 -ℤ pos 2)
    × ((t.itable 1).size ≡ 5000)
    × ((t.itable 1).last_used_extent ≡ pos 0)
    × (((t.itable 1).i_extent 0).start ≡ 3)
    × (((t.itable 1).i_extent 0).count ≡ pos 2)
    × ((j : ℕ) → j ≢ 1 → t.itable j ≡ emptied.itable j)
a1fs_truncate_grows_example = a1fs_truncate_grows 0 emptied-Growable with_d-IsBytes blocks_free
