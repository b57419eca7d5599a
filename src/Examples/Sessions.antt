-- ===== src/Examples/Sessions.antt =====
-- Requests on the sample image whose root directory has the entry `d`.
use extent_based_fs.Base.{◌≡◌, refl, List, [], ◌∷◌}
use extent_based_fs.Types.{FsCtx, ok, update}
use extent_based_fs.Image.{set_dentry_ino, store_str, dentry_ino, load32, str_eq}
use extent_based_fs.Samples.{with_d, path_d, second}
use extent_based_fs.Base.Int.{pos}
use extent_based_fs.Dir.{dentry_addrs, find_slot, inode_lookup, walk, strtok, get_inode_num}
use extent_based_fs.Ops.{Statvfs, Attr, attr, a1fs_statfs, a1fs_getattr}
use extent_based_fs.Session.{Request, statfs, getattr, statvfs, attributes, serve, serve_all}
use extent_based_fs.Session.Served.{serve_all-reads}

abbrev asked : List Request
asked = getattr path_d ∷ statfs ∷ []

abbrev touched : FsCtx
touched = record with_d {
  itable = update with_d.itable 1 (record (with_d.itable 1) { i_mtime = second 5 });
}

abbrev stats : Statvfs
stats = record {
  f_bsize = 4096;
  f_frsize = 4096;
  f_blocks = 16;
  f_bfree = pos 9;
  f_bavail = pos 9;
  f_files = pos 16;
  f_ffree = pos 14;
  f_favail = pos 14;
  f_namemax = 252;
}

abbrev described : Attr
described =
    attr (record {
      st_mode = 0x81FF;
      st_nlink = 0;
      st_size = 8192;
      st_blocks = 272;
      st_mtim = second 0;
    })

described_d : serve_all 0 asked with_d ≡ ok (attributes described ∷ statvfs stats ∷ []) with_d
unfolding serve_all serve a1fs_getattr a1fs_statfs get_inode_num walk strtok inode_lookup
    dentry_addrs find_slot str_eq dentry_ino load32 set_dentry_ino store_str
described_d = refl

serve_all-reads_example :
    (with_d ≡ with_d)
    × (serve_all 0 asked with_d ≡ ok (attributes described ∷ statvfs stats ∷ []) with_d)
serve_all-reads_example = serve_all-reads with_d 0 asked (tt, (tt, tt)) described_d
