-- ===== src/Registry/Closing.antt =====
-- `kernel::do_remove_feeder` of src/kernel.cpp, and the book of ports.
use grind.Prelude.{
  ℕ, ◌≡◌, ◌==◌, inl, inr, refl, Bool-cases, true, false, Option-cases, none, some, Bytes, str_eq,
  str_eq_iff, if◌then◌else◌, arith,
}
use grind.Lua.{Lua}
use grind.World.{Feeder, World}
use grind.World.Monad.{
  Outcome, ok, throws, dies, M, ◌>>=◌, ◌>>◌, pure, gets, or_die, set_kernel, end_iterator,
}
use grind.World.Mutex.{feeder_mutex, lock, unlock}
use grind.Registry.{find, erase, owned, delete_feeder, do_remove_feeder}
use grind.Registry.Maps.{find-erase_ne}
use grind.Registry.Invariant.{Sound, label_at}
use grind.Registry.Book.{drop, view, Refines}

module _ ⦃lua : Lua⦄ where
  -- What is left at the address `f` when the feeder `g` is dropped.
  abbrev pub Dropped : Bytes → (g f : ℕ) → World → Outcome (Unit {0}) → Type 0
  Dropped label g f w (ok _ v) =
      (v.kernel.feeders ≡ erase label w.kernel.feeders)
      × (v.heap.feeder_at f ≡ (if g == f then none else w.heap.feeder_at f))
  Dropped label g f w (throws what v) = ⊥
  Dropped label g f w (dies y) = ⊥

  held : World → World
  held w = record w { kernel = record (w.kernel) { feeder_locked = true } }

  lock-free : (w : World) → w.kernel.feeder_locked ≡ false → lock feeder_mutex w ≡ ok tt (held w)
  unfolding lock held
  lock-free w h = ground (arith, h)

  after_lock :
      (label : Bytes) (g f : ℕ) (w v : World) (x : Outcome (Unit {0})) (k : M (Unit {0}))
      → x ≡ ok tt v
      → Dropped label g f w (k v)
      → Dropped label g f w (elim x [ ok _ v ↦ k v | throws e v ↦ throws e v | dies y ↦ dies y ])
  after_lock label g f w v x k e d = rw e d

  -- What `do_remove_feeder` does with the mutex taken.
  drop_found : Bytes → M (Unit {0})
  unfolding find erase unlock delete_feeder
  drop_found label = do
    iter ← gets (λ w. find label w.kernel.feeders)
    g ← or_die iter end_iterator
    delete_feeder g
    set_kernel λ k. record k { feeders = erase label k.feeders }
    unlock feeder_mutex

  pub do_remove_feeder-Dropped :
      (label : Bytes) (g f : ℕ) (w : World)
      → w.kernel.feeder_locked ≡ false
      → find label w.kernel.feeders ≡ some g
      → label_at g w ≡ some label
      → Dropped label g f w (do_remove_feeder label w)
  unfolding do_remove_feeder drop_found delete_feeder held unlock
  do_remove_feeder-Dropped label g f w h e live =
      after_lock label g f w (held w) (lock feeder_mutex w) (drop_found label) (lock-free w h)
        (ground (arith, e, live))

  -- A connection has been freed, and the same handlers wait.
  abbrev pub Frees : ℕ → World → Outcome (Unit {0}) → Type 0
  Frees c w (ok _ v) = (v.heap.connection_at c ≡ none) × (v.io ≡ w.io)
  Frees c w (throws what v) = ⊥
  Frees c w (dies y) = ⊥

  Frees-after_lock :
      (c : ℕ) (w v : World) (x : Outcome (Unit {0})) (k : M (Unit {0}))
      → x ≡ ok tt v
      → Frees c w (k v)
      → Frees c w (elim x [ ok _ v ↦ k v | throws e v ↦ throws e v | dies y ↦ dies y ])
  Frees-after_lock c w v x k e d = rw e d

  pub do_remove_feeder-Frees :
      (label : Bytes) (g c : ℕ) (w : World) (x : Feeder)
      → w.kernel.feeder_locked ≡ false
      → find label w.kernel.feeders ≡ some g
      → w.heap.feeder_at g ≡ some x
      → owned c x ≡ true
      → Frees c w (do_remove_feeder label w)
  unfolding do_remove_feeder drop_found delete_feeder held unlock
  do_remove_feeder-Frees label g c w x h e live o =
      Frees-after_lock c w (held w) (lock feeder_mutex w) (drop_found label) (lock-free w h)
        (ground (arith, e, live, o))

  -- Another label than the dropped one is seen as before.
  closed-other :
      (label j : Bytes) (g : ℕ) (w v : World)
      → ((l : Bytes) (f : ℕ) → Sound l f w)
      → find label w.kernel.feeders ≡ some g
      → v.kernel.feeders ≡ erase label w.kernel.feeders
      → ((f : ℕ) → v.heap.feeder_at f ≡ (if g == f then none else w.heap.feeder_at f))
      → str_eq label j ≡ false
      → view v j ≡ view w j
  closed-other label j g w v s e q r n = elim (Option-cases (find j w.kernel.feeders)) [
    | inl h ↦ ground (arith, h, q, find-erase_ne label j w.kernel.feeders n)
    | inr (f, h) ↦ ground (
      arith,
      h,
      q,
      r f,
      find-erase_ne label j w.kernel.feeders n,
      (s j f).live h,
      (s label g).live e,
      str_eq_iff label j,
    )
  ]

  pub drop-Refines :
      (label : Bytes) (g : ℕ) (w : World)
      → w.kernel.feeder_locked ≡ false
      → ((l : Bytes) (f : ℕ) → Sound l f w)
      → find label w.kernel.feeders ≡ some g
      → Refines (drop label) w ((do do_remove_feeder label; pure true) w)
  drop-Refines label g w h s e =
      pass (do_remove_feeder label w)
        (λ f. do_remove_feeder-Dropped label g f w h e ((s label g).live e))
    where
      pass :
          (x : Outcome (Unit {0}))
          → ((f : ℕ) → Dropped label g f w x)
          → Refines
              (drop label)
              w
              (elim x [ ok a v ↦ ok true v | throws what v ↦ throws what v | dies y ↦ dies y ])
      pass (ok a v) d = (
        refl,
        λ j. elim (Bool-cases (str_eq label j)) [
          | inl n ↦ ground (arith, n, (d 0).0, str_eq_iff label j, (s label 0).unique)
          | inr n ↦ ground (arith, n, closed-other label j g w v s e (d 0).0 (λ f. (d f).1) n)
        ],
      )
      pass (throws what v) d = d 0
      pass (dies y) d = d 0
