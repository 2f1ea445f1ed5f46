-- ===== src/EventLoop/Dropping.antt =====
-- `kernel::do_remove_feeder`, when it runs from the queue, finds the feeder and leaves the registry
-- sound.
use grind.Prelude.{
  ℕ, ◌+◌, ◌≡◌, ◌≢◌, ◌⊎◌, arith, true, Option, Bool-cases, Option-cases, inl, inr, none, some, List,
  Bytes, str_eq_iff, ◌==◌, if◌then◌else◌,
}
use grind.Lua.{Lua}
use grind.World.{Pending, dropping, World}
use grind.World.Monad.{
  Fault, deadlock, end_iterator, Outcome, ok, throws, dies, M, ◌>>=◌, ◌>>◌, gets, or_die,
  set_kernel,
}
use grind.World.Frame.{Leads}
use grind.World.Mutex.{feeder_mutex, lock, unlock}
use grind.Registry.{find, erase, delete_feeder, do_remove_feeder}
use grind.Registry.Maps.{find-erase_ne, find-erase-erase}
use grind.Registry.Invariant.{accepts, drops, one_drop, label_at, IsHome, IsHome-less, InMap}
use grind.EventLoop.Turns.{IsSound, EndsSound, all_EndsSound, without}

module _ ⦃lua : Lua⦄ where
  -- The handler that drops the label `k` is off the queue.
  pub record Dropping (k : Bytes) (w : World) (ps : List Pending) : Type 0 where
    pub sound : IsSound w
    pub waited : (f : ℕ) → accepts f w.io.pending ≡ accepts f ps
    pub left : (l : Bytes) → drops l w.io.pending ≡ drops l ps + one_drop l (dropping k)

  -- The label `k` leads to a feeder.
  Dropping-found :
      {k : Bytes} {w : World} {ps : List Pending} → Dropping k w ps → find k w.kernel.feeders ≢ none
  Dropping-found {k} d e = grind (arith, e, (d.sound k 0).known e, d.left k, str_eq_iff k k)

  -- The feeder `g` of the label `k` is gone.
  abbrev Gone : Bytes → ℕ → Bytes → ℕ → World → World → Type 0
  Gone k g l f w v =
      (v.kernel.feeders ≡ erase k w.kernel.feeders)
      × (v.heap.next_feeder ≡ w.heap.next_feeder)
      × (label_at f v ≡ (if g == f then none else label_at f w))
      × (accepts f v.io.pending ≡ accepts f w.io.pending)
      × (drops l v.io.pending ≡ drops l w.io.pending)

  -- Where a mutex is taken first.
  lock_Leads :
      (R : World → World → Type 0) (D : Fault → Type 0) (w v : World) (x : Outcome (Unit {0}))
      (k : M (Unit {0}))
      → (x ≡ dies deadlock) ⊎ (x ≡ ok tt v)
      → D deadlock
      → Leads R D w (k v)
      → Leads R D w (elim x [ ok _ v ↦ k v | throws e v ↦ throws e v | dies y ↦ dies y ])
  lock_Leads R D w v x k (inl e) d r = rw e d
  lock_Leads R D w v x k (inr e) d r = rw e r

  -- With the mutex taken.
  held : World → World
  held w = record w { kernel = record (w.kernel) { feeder_locked = true } }

  lock-held :
      (w : World) → (lock feeder_mutex w ≡ dies deadlock) ⊎ (lock feeder_mutex w ≡ ok tt (held w))
  unfolding lock held
  lock-held w = elim (Bool-cases w.kernel.feeder_locked) [
    | inl h ↦ inl (ground (arith, h))
    | inr h ↦ inr (ground (arith, h))
  ]

  -- What `do_remove_feeder` does with the mutex taken.
  drop_found : Bytes → M (Unit {0})
  unfolding find erase unlock delete_feeder
  drop_found label = do
    iter ← gets (λ w. find label w.kernel.feeders)
    f ← or_die iter end_iterator
    delete_feeder f
    set_kernel λ k. record k { feeders = erase label k.feeders }
    unlock feeder_mutex

  do_remove_feeder-Gone :
      (k : Bytes) (g : ℕ) (l : Bytes) (f : ℕ) (w : World)
      → find k w.kernel.feeders ≡ some g
      → Leads (Gone k g l f) InMap w (do_remove_feeder k w)
  unfolding do_remove_feeder drop_found delete_feeder held unlock
  do_remove_feeder-Gone k g l f w e =
      lock_Leads (Gone k g l f) InMap w (held w) (lock feeder_mutex w) (drop_found k) (lock-held w)
        (ground arith) (ground (arith, e))

  -- The labels of waiting feeders after one is gone.
  IsHome-gone :
      (k : Bytes) (g : ℕ) (o v : Option Bytes) (f n : ℕ) (m : List (Bytes × ℕ))
      → find k m ≡ some g
      → v ≡ (if g == f then none else o)
      → (g ≡ f → n ≡ 0)
      → IsHome o f n m
      → IsHome v f n (erase k m)
  IsHome-gone k g none none f n m e q z h = h
  IsHome-gone k g none (some i) f n m e q z h = absurd (ground arith)
  IsHome-gone k g (some j) none f n m e q z h = ground (arith, z)
  IsHome-gone k g (some j) (some i) f n m e q z h =
      λ p. ground (arith, e, q, h p, find-erase_ne k i m, str_eq_iff k i)

  Gone-Sound :
      (k : Bytes) {g : ℕ} {w v : World} {ps : List Pending}
      → Dropping k w ps
      → find k w.kernel.feeders ≡ some g
      → ((l : Bytes) (f : ℕ) → Gone k g l f (without w ps) v)
      → IsSound v
  Gone-Sound k {g} {w} {v} {ps} d e r l f =
      let s = d.sound l f in
      let one = (d.sound k g).single e in
      let other = find-erase_ne k l w.kernel.feeders in
      record {
        live = λ q.
            grind
              (arith, q, e, other, str_eq_iff k l, s.live, s.unique, (d.sound k g).live e, r l f);
        single = λ q.
            grind
              (arith, q, other, str_eq_iff k l, s.single, s.unique, d.left l, d.waited f, r l f);
        known =
            λ q. grind (arith, q, one, other, str_eq_iff k l, s.known, d.left l, d.waited g, r l f);
        home =
            rw ((r l f).0, (r l f).3)
              (IsHome-gone k g (label_at f w) (label_at f v) f _ w.kernel.feeders e (r l f).2
                (λ b. grind (arith, b, one, d.left k, d.waited g, str_eq_iff k k))
                (IsHome-less (label_at f w) f _ _ w.kernel.feeders (omega (arith, d.waited f))
                  s.home));
        unique = rw (r l f).0 (find-erase-erase k l w.kernel.feeders s.unique);
        fresh = ground (arith, s.fresh, r l f);
      }

  pub do_remove_feeder-EndsSound :
      (k : Bytes) {w : World} {ps : List Pending}
      → Dropping k w ps
      → EndsSound (do_remove_feeder k (without w ps))
  do_remove_feeder-EndsSound k {w} {ps} d = elim (Option-cases (find k w.kernel.feeders)) [
    | inl e ↦ absurd (Dropping-found d e)
    | inr (g, e) ↦
        all_EndsSound (Gone k g) (without w ps) (do_remove_feeder k (without w ps))
          (λ l f. do_remove_feeder-Gone k g l f (without w ps) e) (λ v r. Gone-Sound k d e r)
  ]
