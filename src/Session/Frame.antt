-- ===== src/Session/Frame.antt =====
-- What a command of a1b/a1fs.c or a1b/a1fs_helper.c leaves alone when it returns.
use extent_based_fs.Base.{◌≡◌, refl, ap, ◌∙◌, Bool, true, false, Option, none, some, if◌then◌else◌}
use extent_based_fs.Types.{FsCtx, Run, Cmd, ok, fault, out_of_fuel, and_then}

abbrev pub whole : FsCtx → FsCtx
whole s = s

-- A part of the state; a command frames it if the part is the same when the command returns.
module _ {P : Type 0} (part : FsCtx → P) where
  abbrev pub From : FsCtx → {A : Type 0} → Run A → Type 0
  From s {A} r = (a : A) → (t : FsCtx) → r ≡ ok a t → part t ≡ part s

  abbrev pub Frames : {A : Type 0} → Cmd A → Type 0
  Frames m = (s : FsCtx) → From s (m s)

  pub returns : {A : Type 0} (s : FsCtx) {u : FsCtx} {x : A} → part u ≡ part s → From s (ok x u)
  returns s {u = u} h a t e = let same : t ≡ u = cc in ap part same ∙ h

  pub faults : {A : Type 0} (s : FsCtx) → From s {A = A} fault
  faults s a t e = cc

  pub starves : {A : Type 0} (s : FsCtx) → From s {A = A} out_of_fuel
  starves s a t e = cc

  pub then-Frames :
      {A B : Type 0} (s : FsCtx) {r : Run A} {k : A → Cmd B}
      → From s r
      → ((a : A) → Frames (k a))
      → From s (and_then r k)
  then-Frames s {r = ok x u} h hk b t e = hk x u b t e ∙ h x u refl
  then-Frames s {r = fault} h hk b t e = cc
  then-Frames s {r = out_of_fuel} h hk b t e = cc

  -- A command that only reads, before another one.
  pub then_reads :
      {A B : Type 0} (s : FsCtx) {r : Run A} (k : A → Cmd B)
      → ((a : A) → (t : FsCtx) → r ≡ ok a t → t ≡ s)
      → ((a : A) → From s (k a s))
      → From s (and_then r k)
  then_reads s {r = ok x u} k h hk b t e = hk x b t (rw (h x u refl) at e)
  then_reads s {r = fault} k h hk b t e = cc
  then_reads s {r = out_of_fuel} k h hk b t e = cc

  pub if-Frames :
      {A : Type 0} (s : FsCtx) (b : Bool) (m n : Cmd A)
      → From s (m s)
      → From s (n s)
      → From s ((if b then m else n) s)
  if-Frames s true m n h k = h
  if-Frames s false m n h k = k

  pub option-Frames :
      {A X : Type 0} (s : FsCtx) (o : Option X) (m : Cmd A) (k : X → Cmd A)
      → From s (m s)
      → ((x : X) → From s (k x s))
      → From s (elim o as (λ _. Cmd A) [ some x ↦ k x | none ↦ m ] s)
  option-Frames s none m k h hk = h
  option-Frames s (some x) m k h hk = hk x

  -- From a state with the same part.
  pub moved : {A : Type 0} (s u : FsCtx) {r : Run A} → part u ≡ part s → From u r → From s r
  moved s u h hr a t e = hr a t e ∙ h
