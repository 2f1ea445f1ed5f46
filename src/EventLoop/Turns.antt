-- ===== src/EventLoop/Turns.antt =====
-- A handler that ran leaves the registry sound: all of them but the one that drops a feeder.
use grind.Prelude.{
  ℕ, zero, suc, ◌+◌, ◌≤◌, ◌≡◌, arith, Option-cases, inl, inr, some, List, [], ◌∷◌, Bytes,
}
use grind.Lua.{Lua}
use grind.World.{Pending, World}
use grind.World.Monad.{Outcome, ok, throws, dies, M}
use grind.World.Frame.{Leads}
use grind.Registry.Invariant.{
  accepts, drops, one_accept, one_drop, label_at, IsHome-less, Sound, Steady, InMap,
}
use grind.Registry.Steps.{Keeps}
use grind.EventLoop.{take_out}

pub accepts-take_out :
    (f n : ℕ) (ps : List Pending) {p : Pending} {qs : List Pending}
    → take_out n ps ≡ some (p, qs)
    → accepts f ps ≡ accepts f qs + one_accept f p
unfolding take_out accepts
accepts-take_out f n [] h = absurd (ground arith)
accepts-take_out f zero (q ∷ ps) h = ground arith
accepts-take_out f (suc n) (q ∷ ps) h = elim (Option-cases (take_out n ps)) [
  | inl e ↦ absurd (ground (arith, e))
  | inr ((r, rs), e) ↦ ground (arith, e, accepts-take_out f n ps e)
]

pub drops-take_out :
    (l : Bytes) (n : ℕ) (ps : List Pending) {p : Pending} {qs : List Pending}
    → take_out n ps ≡ some (p, qs)
    → drops l ps ≡ drops l qs + one_drop l p
unfolding take_out drops
drops-take_out l n [] h = absurd (ground arith)
drops-take_out l zero (q ∷ ps) h = ground arith
drops-take_out l (suc n) (q ∷ ps) h = elim (Option-cases (take_out n ps)) [
  | inl e ↦ absurd (ground (arith, e))
  | inr ((r, rs), e) ↦ ground (arith, e, drops-take_out l n ps e)
]

module _ ⦃lua : Lua⦄ where
  -- The registry is sound at every label and address.
  abbrev pub IsSound : World → Type 0
  IsSound w = (l : Bytes) (f : ℕ) → Sound l f w

  -- A call ends in a sound registry, or with another fault than reading past the map.
  abbrev pub EndsSound : {A : Type 0} → Outcome A → Type 0
  EndsSound (ok a v) = IsSound v
  EndsSound (throws e v) = IsSound v
  EndsSound (dies y) = InMap y

  -- The handler is off the queue.
  abbrev pub without : World → List Pending → World
  without w ps = record w { io = record (w.io) { pending = ps } }

  -- A call that is known at every label and address.
  pub all_EndsSound :
      {A : Type 0} (R : Bytes → ℕ → World → World → Type 0) (w : World) (x : Outcome A)
      → ((l : Bytes) (f : ℕ) → Leads (R l f) InMap w x)
      → ((v : World) → ((l : Bytes) (f : ℕ) → R l f w v) → IsSound v)
      → EndsSound x
  all_EndsSound R w (ok a v) h s = s v h
  all_EndsSound R w (throws e v) h s = s v h
  all_EndsSound R w (dies y) h s = h [] 0

  pub Keeps-EndsSound :
      {A : Type 0} (m : M A) (w : World)
      → IsSound w
      → ((l : Bytes) (f : ℕ) → Keeps l f m)
      → EndsSound (m w)
  Keeps-EndsSound m w s h =
      all_EndsSound Steady w (m w) (λ l f. (h l f).run w) (λ v r l f. (r l f).sound (s l f))

  -- Waiting less for a feeder, or for nothing that matters, is as sound.
  pub without-Sound :
      (l : Bytes) (f : ℕ) (w : World) (ps : List Pending)
      → accepts f ps ≤ accepts f w.io.pending
      → drops l ps ≤ drops l w.io.pending
      → Sound l f w
      → Sound l f (without w ps)
  without-Sound l f w ps a d s = record {
    live = s.live;
    single = λ e. ground (arith, s.single e);
    known = λ e. ground (arith, s.known e);
    home = IsHome-less (label_at f w) f _ _ w.kernel.feeders a s.home;
    unique = s.unique;
    fresh = s.fresh;
  }
