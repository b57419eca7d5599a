-- ===== src/Tree/Write.antt =====
-- a1fs_write and a1fs_read of a1b/a1fs.c on a file in a tree.
use mathlib.Core.Path.{subst}
use extent_based_fs.Base.{
  eq→==, suc, ℕ, ◌+◌, ◌≤◌, ◌<◌, ◌≡◌, refl, sym, ap, ◌∙◌, ◌⊎◌, inr, false, List, arith,
}
use extent_based_fs.Base.Int.{ℤ, pos, ltb_ℤ}
use extent_based_fs.Types.{FsCtx, ok, update, inode_capacity}
use extent_based_fs.Image.{Bytes}
use extent_based_fs.Dir.{strtok}
use extent_based_fs.Io.{ReadResult, copy, a1fs_read, a1fs_write}
use extent_based_fs.Io.RoundTrip.{
  InFirstExtent, byte_addr, written, write-written, write-grown, read-copy,
}
use extent_based_fs.Tree.{Nodes, blank, stored, Leads, overwrite}
use extent_based_fs.Tree.Links.{child, links_kept}
use extent_based_fs.Tree.Shape.{HasNodes, IsTree}
use extent_based_fs.Tree.Walk.{used_below, node-Stands, get_inode_num-Leads}
use extent_based_fs.Tree.Fill.{truncate-IsTree}
use extent_based_fs.Tree.First.{update-twice}
use extent_based_fs.Tree.Change.{HasNodes-Becomes}
use extent_based_fs.Tree.Stored.{
  holds, bit_set, file_addr, file_below, file_in_table, file_inside, others_same, file-IsClean,
}

copy_outside :
    (img buf : Bytes) (addr offset n : ℕ)
    → offset + n ≤ 4096
    → (x : ℕ) → (x < addr) ⊎ (addr + 4096 ≤ x)
    → copy img buf (addr + offset) 0 n x ≡ img x
copy_outside img buf addr offset n le x out = ground arith

copy-overwrite :
    (img buf : Bytes) (addr offset n : ℕ) (content : Bytes) (x : ℕ)
    → img (addr + x) ≡ content x
    → copy img buf (addr + offset) 0 n (addr + x) ≡ overwrite content offset n buf x
copy-overwrite img buf addr offset n content x e = ground arith

copy_read : (into img : Bytes) (a n : ℕ) (x : ℕ) → x < n → copy into img 0 a n x ≡ img (a + x)
copy_read into img a n x lt = ground arith

found_first :
    {z : ℤ} {reach : ℕ} (offset : ℕ) → z ≡ pos reach → offset ≤ reach → ltb_ℤ z (pos offset) ≡ false
found_first offset e le = rw e (ground arith)

module _ {s : FsCtx} {total : ℕ} {T : Nodes} {spare : ℕ} (has : HasNodes s total T spare)
    {i size : ℕ} {content : Bytes} (file : T i ≡ stored size content) (offset n : ℕ)
    (fits : offset + n ≤ size) (positive : 0 < n) where
  at_addr : byte_addr s i offset ≡ file_addr has file + offset
  at_addr = rw (holds has file).start refl

  in_first : InFirstExtent s i n offset
  in_first =
      let h = holds has file in
      record {
        in_table = file_in_table has file;
        within = rw h.length fits;
        small = rw h.length (omega (arith, h.small));
        blocks = 1;
        count = h.count;
        holds = omega (arith, h.small);
        first = inr (found_first offset h.recorded (omega (arith, h.covers)));
        inside = rw at_addr (omega (arith, file_inside has file, h.small));
        positive = positive;
      }

  abbrev image_after : Bytes → Bytes
  image_after buf = copy s.image buf (byte_addr s i offset) 0 n

  image_outside :
      (buf : Bytes) (x : ℕ)
      → (x < file_addr has file) ⊎ (file_addr has file + 4096 ≤ x)
      → image_after buf x ≡ s.image x
  image_outside buf x out =
      let h = holds has file in
      rw h.start
        (copy_outside s.image buf (file_addr has file) offset n (omega (arith, h.small)) x out)

  image_inside :
      (buf : Bytes) (x : ℕ)
      → x < 4096
      → image_after buf (file_addr has file + x) ≡ overwrite content offset n buf x
  image_inside buf x lt =
      let h = holds has file in
      rw h.start (copy-overwrite s.image buf (file_addr has file) offset n content x (h.bytes x lt))

  HasNodes-written :
      (buf : Bytes)
      → HasNodes
          (written s i offset n buf)
          total
          (update T i (stored size (overwrite content offset n buf)))
          spare
  HasNodes-written buf =
      let h = holds has file in
      HasNodes-Becomes has (record {
        below = file_below has file;
        counts = record {
          inodes = has.counts.inodes;
          in_table = has.counts.in_table;
          small = has.counts.small;
          bytes = has.counts.bytes;
          free_inodes = has.counts.free_inodes;
        };
        blocks = record {
          first = has.blocks.first;
          bytes = has.blocks.bytes;
          limit = has.blocks.limit;
          below = has.blocks.below;
          inside = has.blocks.inside;
          whole = has.blocks.whole;
          spare_blocks = has.blocks.spare_blocks;
          free_blocks = has.blocks.free_blocks;
          counted = has.blocks.counted;
          enough = has.blocks.enough;
          clean = file-IsClean has file (image_after buf) (image_outside buf);
        };
        stands = (
          bit_set has file,
          record {
            block = h.block;
            pieces = h.pieces;
            last = h.last;
            start = h.start;
            count = h.count;
            reach = h.reach;
            recorded = h.recorded;
            covers = h.covers;
            length = h.length;
            positive = h.positive;
            small = h.small;
            bytes = image_inside buf;
          },
        );
        others = λ j ne. record {
          size = refl;
          region = refl;
          table = refl;
          inode = refl;
          bit = refl;
          image = others_same has file (image_after buf) (image_outside buf) j ne;
        };
        apart = λ j ne. (has.apart i j (λ e. ne (sym e)), has.apart j i ne);
        in_use = has.in_use i;
        others_in_use = λ j ne. has.in_use j;
        size = refl;
        slots = has.slots i;
        data_start = refl;
        region = has.region i;
      })

written-IsTree :
    {s : FsCtx} {total : ℕ} {T : Nodes} {spare i size : ℕ} {content : Bytes}
    (tree : IsTree s total T spare) (file : T i ≡ stored size content) (offset n : ℕ)
    → offset + n ≤ size
    → 0 < n
    → (buf : Bytes)
    → IsTree
        (written s i offset n buf)
        total
        (update T i (stored size (overwrite content offset n buf)))
        spare
written-IsTree {i} {size} {content} tree file offset n fits positive buf = record {
  has = HasNodes-written tree.has file offset n fits positive buf;
  links =
      links_kept tree.links i (stored size (overwrite content offset n buf))
        (λ name. unfold child in rw file refl) (λ name. unfold child in refl) (λ e. cc);
}

-- Bytes inside a file are replaced.
pub write-IsTree :
    {s : FsCtx} {total : ℕ} {T : Nodes} {spare i size : ℕ} {content : Bytes}
    → IsTree s total T spare
    → (fuel : ℕ) (path : List ℕ) (buf : Bytes) (n offset : ℕ) → Leads T 0 (strtok path) i
    → T i ≡ stored size content
    → offset + n ≤ size
    → 0 < n
    → (t : FsCtx) × (a1fs_write fuel path buf n offset s ≡ ok (pos n) t)
      × IsTree t total (update T i (stored size (overwrite content offset n buf))) spare
write-IsTree {s} {i} {size} {content} tree fuel path buf n offset leads file fits positive = (
  written s i offset n buf,
  write-written (in_first tree.has file offset n fits positive) fuel path buf
      (get_inode_num-Leads tree.has path leads),
  written-IsTree tree file offset n fits positive buf,
)

-- The first bytes of a file without a block, which gets one.
pub write_first-IsTree :
    {s : FsCtx} {total : ℕ} {T : Nodes} {left i : ℕ}
    → IsTree s total T (suc left)
    → (fuel : ℕ) (path : List ℕ) (buf : Bytes) (n offset : ℕ) → Leads T 0 (strtok path) i
    → T i ≡ blank
    → offset + n < 4096
    → 0 < n
    → (t : FsCtx) × (a1fs_write (suc fuel) path buf n offset s ≡ ok (pos n) t)
      × IsTree t total (update T i (stored (offset + n) (overwrite (λ x. 0) offset n buf))) left
write_first-IsTree {s} {total} {T} {left} {i} tree fuel path buf n offset leads blank_file fits
      positive =
    let size : n + offset ≡ offset + n = omega arith in
    let below : i < inode_capacity s.sb =
      omega (arith, used_below tree.has i (λ e. cc), tree.has.counts.in_table) in
    let (t, run, grown) =
      truncate-IsTree tree fuel path leads blank_file (omega (arith, positive)) fits in
    let file : update T i (stored (offset + n) (λ x. 0)) i ≡ stored (offset + n) (λ x. 0) =
      rw (eq→== i i refl) refl in
    let h = in_first grown.has file offset n (omega arith) positive in
    let after = written-IsTree grown file offset n (omega arith) positive buf in
    (
      written t i offset n buf,
      write-grown h (suc fuel) path buf (get_inode_num-Leads tree.has path leads) below
          (rw (node-Stands tree.has i blank_file (λ q. cc)).3 (omega (arith, positive)))
          (rw size run),
      subst (λ nodes. IsTree (written t i offset n buf) total nodes left)
          (update-twice (stored (offset + n) (λ x. 0))
            (stored (offset + n) (overwrite (λ x. 0) offset n buf)) T i)
          after,
    )

-- Reading bytes inside a file.
pub read-IsTree :
    {s : FsCtx} {total : ℕ} {T : Nodes} {spare i size : ℕ} {content : Bytes}
    → HasNodes s total T spare
    → (path : List ℕ) (into : Bytes) (n offset : ℕ) → Leads T 0 (strtok path) i
    → T i ≡ stored size content
    → offset + n ≤ size
    → 0 < n
    → (r : ReadResult) × (a1fs_read path into n offset s ≡ ok r s)
      × (r.result ≡ pos n)
      × ((x : ℕ) → x < n → r.buf x ≡ content (offset + x))
read-IsTree {s} {i} {content} has path into n offset leads file fits positive = (
  record { buf = copy into s.image 0 (byte_addr s i offset) n; result = pos n },
  read-copy (in_first has file offset n fits positive) path s.image into
      (get_inode_num-Leads has path leads),
  refl,
  λ x lt.
      let h = holds has file in
      let there : byte_addr s i offset + x ≡ file_addr has file + (offset + x) =
        omega (arith, at_addr has file offset n fits positive) in
      copy_read into s.image (byte_addr s i offset) n x lt
      ∙ ap s.image there
      ∙ h.bytes (offset + x) (omega (arith, h.small)),
)
