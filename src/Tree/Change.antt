-- ===== src/Tree/Change.antt =====
-- One inode of a tree becomes another node; all others stay what they are.
use extent_based_fs.Base.{
  ℕ, ◌<◌, ◌≡◌, ◌≢◌, sym, ◌∙◌, inl, inr, List, arith, ◌==◌, ==→eq, Bool-cases, false,
}
use extent_based_fs.Types.{FsCtx, update}
use extent_based_fs.Dir.Entries.{AllSlots}
use extent_based_fs.Tree.{Node, Nodes}
use extent_based_fs.Tree.Shape.{Stands, HasInodes, HasSpare, HasNodes, LacksAll, InUse, InRegion}
use extent_based_fs.Tree.Frames.{Agrees, Stands-Agrees}

-- From `s` to `t` inode `i` becomes the node `v`, with entries at `es`.
pub record Becomes {s : FsCtx} {total : ℕ} {T : Nodes} {spare : ℕ} (has : HasNodes s total T spare)
    (t : FsCtx) (spare' i : ℕ) (v : Node) (es : List ℕ) : Type 0 where
  pub below : i < total
  pub counts : HasInodes t total
  pub blocks : HasSpare t spare'
  pub stands : Stands t es i v
  pub others : (j : ℕ) → j ≢ i → Agrees s t (has.places j) j
  pub apart : (j : ℕ) → j ≢ i → LacksAll es (has.places j) × LacksAll (has.places j) es
  pub in_use : InUse t es
  pub others_in_use : (j : ℕ) → j ≢ i → InUse t (has.places j)
  pub size : t.size ≡ s.size
  pub slots : AllSlots s.size es
  pub data_start : t.sb.sb_first_data_block ≡ s.sb.sb_first_data_block
  pub region : InRegion s es

module _ {s : FsCtx} {total : ℕ} {T : Nodes} {spare : ℕ} (has : HasNodes s total T spare)
    {t : FsCtx} {spare' i : ℕ} {v : Node} {es : List ℕ} (b : Becomes has t spare' i v es) where
  ne_of : (j : ℕ) → (j == i) ≡ false → j ≢ i
  ne_of j e = ground arith

  pub HasNodes-Becomes : HasNodes t total (update T i v) spare'
  HasNodes-Becomes = record {
    counts = b.counts;
    blocks = b.blocks;
    places = update has.places i es;
    stands = λ j below. elim (Bool-cases (j == i)) [
      | inl e ↦ rw (e, ==→eq j i e) b.stands
      | inr e ↦ rw e (Stands-Agrees (b.others j (ne_of j e)) (T j) (has.stands j below))
    ];
    beyond = λ j above. elim (Bool-cases (j == i)) [
      | inl e ↦ let same : j ≡ i = ==→eq j i e in absurd (omega (arith, b.below))
      | inr e ↦ rw e (has.beyond j above)
    ];
    apart = λ j k ne. elim (Bool-cases (j == i)) [
      | inl e ↦ elim (Bool-cases (k == i)) [
        | inl q ↦ absurd (ne (==→eq j i e ∙ sym (==→eq k i q)))
        | inr q ↦ rw (e, q) (b.apart k (ne_of k q)).0
      ]
      | inr e ↦ elim (Bool-cases (k == i)) [
        | inl q ↦ rw (e, q) (b.apart j (ne_of j e)).1
        | inr q ↦ rw (e, q) (has.apart j k ne)
      ]
    ];
    in_use = λ j. elim (Bool-cases (j == i)) [
      | inl e ↦ rw e b.in_use
      | inr e ↦ rw e (b.others_in_use j (ne_of j e))
    ];
    slots = λ j. elim (Bool-cases (j == i)) [
      | inl e ↦ rw (e, b.size) b.slots
      | inr e ↦ rw (e, b.size) (has.slots j)
    ];
    region = λ j. elim (Bool-cases (j == i)) [
      | inl e ↦ rw (e, b.data_start) b.region
      | inr e ↦ rw (e, b.data_start) (has.region j)
    ];
  }
