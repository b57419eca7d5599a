-- ===== src/Tree/Formatted.antt =====
-- mkfs of a1b/mkfs.c on an image of zeros leaves a tree that is the root directory alone.
use extent_based_fs.Base.{
  ℕ, zero, suc, ◌-◌, ◌*◌, ◌≤◌, ◌<◌, ◌≡◌, ◌≢◌, refl, sym, ◌∙◌, inl, inr, true, false, List, [], some,
  arith, ◌==◌, ne→==, ==→eq, Bool, not, ◌&&◌, ◌%◌, Bool-cases,
}
use extent_based_fs.Base.Upto.{every_until, every_until-holds}
use extent_based_fs.Base.Int.{pos, ◌-ℤ◌}
use extent_based_fs.Types.{FsCtx, Bitmap, ok, update, sizeof_inode}
use extent_based_fs.Bitmap.{check_bit_usage, test_bit, flip_bit}
use extent_based_fs.Bitmap.Toggle.{IsBytes, check-flip_bit, flip_bit-IsBytes}
use extent_based_fs.Bitmap.Count.{count_clear, count_clear-sets}
use extent_based_fs.Mkfs.{fs_ctx_init, ceil_div, memset_zero, mkfs_main, MkfsOpts, a1fs_is_present}
use extent_based_fs.Mkfs.Format.{CanFormat, layout, after_table, formatted, mkfs-formatted}
use extent_based_fs.Tree.{vacant, bare, Nodes}
use extent_based_fs.Tree.Links.{child}
use extent_based_fs.Tree.Shape.{HasNodes, HasSpare, IsTree}

abbrev pub only_root : Nodes
only_root = update (λ j. vacant) 0 bare

abbrev zeros : Bitmap
zeros i = 0

zeros-IsBytes : IsBytes zeros
zeros-IsBytes i = omega arith

zero_bit : (j : ℕ) → check_bit_usage zeros j ≡ false
unfolding check_bit_usage test_bit
zero_bit j = clear (every_until-holds clear_at 8 (j % 8) all_clear (omega arith))
  where
    clear_at : ℕ → Bool
    clear_at k = not (test_bit 0 k)

    all_clear : every_until clear_at 8 ≡ true
    all_clear = unfold every_until in refl

    clear : clear_at (j % 8) ≡ true → test_bit 0 (j % 8) ≡ false
    clear e = ground arith

count_zero : (n : ℕ) → count_clear zeros n ≡ n
unfolding count_clear
count_zero zero = refl
count_zero (suc n) = rw (zero_bit n, count_zero n) refl

module _ (s : FsCtx) {size n dbm : ℕ} (h : CanFormat (memset_zero s) size n dbm)
    (whole : s.size ≡ size) (few : n ≤ 16) where
  abbrev after : FsCtx
  after = formatted (memset_zero s) size n (layout size n dbm)

  HasSpare-after : HasSpare after (after_table size n - dbm)
  HasSpare-after = record {
    first = refl;
    bytes = zeros-IsBytes;
    limit = after_table size n - dbm;
    below = omega (arith, h.some_data);
    inside = omega (arith, h.some_data, whole);
    whole = omega (arith, h.some_data, whole);
    spare_blocks = sym (count_zero (after_table size n - dbm));
    free_blocks = after_table size n - dbm;
    counted = refl;
    enough = omega arith;
    clean = λ k x below unset lo hi. refl;
  }

  HasNodes-after : HasNodes after n only_root (after_table size n - dbm)
  HasNodes-after = record {
    counts = record {
      inodes = refl;
      in_table = omega (arith, table n h.some_inode few);
      small = omega (arith, few);
      bytes = flip_bit-IsBytes 0 zeros-IsBytes;
      free_inodes = one_less n (count_clear (flip_bit zeros 0) n) counts_one;
    };
    blocks = HasSpare-after;
    places = λ j. [];
    stands = λ j below. elim (Bool-cases (j == 0)) [
      | inl e ↦
          rw (e, ==→eq j 0 e)
            (check-flip_bit 0 0 zeros-IsBytes ∙ rw (zero_bit 0) refl, refl, refl, refl)
      | inr e ↦ rw e (check-flip_bit 0 j zeros-IsBytes ∙ rw (e, zero_bit j) refl, refl)
    ];
    beyond = λ j above. rw (ne→== j 0 (omega (arith, above, h.some_inode))) refl;
    apart = λ i j ne. tt;
    in_use = λ j. tt;
    slots = λ j. tt;
    region = λ j. tt;
  }
    where
      table : (m : ℕ) → 0 < m → m ≤ 16 → m ≤ ceil_div m sizeof_inode * 16
      table m p q = ground arith

      one_less : (m k : ℕ) → m ≡ suc k → pos m -ℤ pos 1 ≡ pos k
      one_less m k e = unfold ◌-ℤ◌ in ground arith

      counts_one : n ≡ suc (count_clear (flip_bit zeros 0) n)
      counts_one = sym (count_zero n) ∙ count_clear-sets 0 zeros-IsBytes n h.some_inode (zero_bit 0)

  no_child : (d : ℕ) (name : List ℕ) (i : ℕ) → child (only_root d) name ≢ some i
  unfolding child
  no_child d name i e = elim (Bool-cases (d == 0)) [
    | inl q ↦ cc (rw q at e)
    | inr q ↦ cc (rw q at e)
  ]

  -- Formatting with the option to zero the image, of an image that holds no a1fs or with the option
  -- to force the format, for at most 16 inodes, with space left for data: the tool exits with 0,
  -- and the image stands for the tree that is the root directory alone, where all blocks behind
  -- the inode table are free, and it can be mounted.
  pub mkfs_main-IsTree :
      (opts : MkfsOpts)
      → opts.n_inodes ≡ n
      → opts.zero ≡ true
      → not opts.force && a1fs_is_present s ≡ false
      → (t : FsCtx) × (mkfs_main size opts s ≡ ok 0 t)
        × IsTree t n only_root (after_table size n - dbm)
        × (fs_ctx_init t ≡ true)
  unfolding mkfs_main fs_ctx_init
  mkfs_main-IsTree opts inodes zeroed allowed = (
    after,
    rw (allowed, zeroed, inodes, mkfs-formatted h) refl,
    record {
      has = HasNodes-after;
      links = record {
        linked = λ d name i e. absurd (no_child d name i e);
        one_link = λ d e name other i q r. absurd (no_child d name i q);
      };
    },
    refl,
  )
