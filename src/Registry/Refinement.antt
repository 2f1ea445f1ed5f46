-- ===== src/Registry/Refinement.antt =====
-- The operations of src/kernel.cpp on the feeders, and the book of ports.
use grind.Prelude.{
  ℕ, ℤ, ◌<◌, ◌≡◌, ◌⊎◌, inl, inr, refl, ap, Bool, Bool-cases, true, false, Option, Option-cases,
  none, some, Bytes, str_eq, arith,
}
use grind.Lua.{Lua}
use grind.Host.{Host}
use grind.World.{Feeder, World}
use grind.World.Monad.{Outcome, ok, throws, dies, M, ◌>>◌, pure}
use grind.World.Frame.{Leads}
use grind.Registry.{
  find, is_feeder_registered, is_port_available, register_feeder, do_remove_feeder,
}
use grind.Registry.Invariant.{Sound, label_of}
use grind.Registry.Registering.{attempt, Registered, register_feeder-Registered}
use grind.Registry.Closing.{drop-Refines}
use grind.Registry.Book.{
  Operation, register, drop, registered, available, Allowed, view, port_at, port_of, Proper, Probed,
  ports_differ-Probed, Refines,
}

module _ ⦃lua : Lua⦄ where
  some_of_label :
      (o : Option Feeder) (l : Bytes) → label_of o ≡ some l → (x : Feeder) × (o ≡ some x)
  some_of_label none l e = absurd (ground arith)
  some_of_label (some x) l e = (x, refl)

  Sound-Proper : (w : World) → ((l : Bytes) (f : ℕ) → Sound l f w) → Proper w w.kernel.feeders
  Sound-Proper w s = record {
    live = λ l f e. some_of_label (w.heap.feeder_at f) l ((s l f).live e);
    unique = λ l. (s l 0).unique;
  }

  available-Refines :
      (port : ℤ) (w : World)
      → Proper w w.kernel.feeders
      → Refines (available port) w (is_port_available port w)
  unfolding is_port_available
  available-Refines port w p = pass _ (ports_differ-Probed port w w.kernel.feeders p)
    where
      pass : (x : Outcome Bool) → Probed port w w.kernel.feeders x → Refines (available port) w x
      pass (ok true v) (e, h) = (h, λ j. ap (λ (u : World). view u j) e)
      pass (ok false v) (e, h) = (h, λ j. ap (λ (u : World). view u j) e)
      pass (throws what v) h = h
      pass (dies f) h = h

  -- What the query of a label finds, and what it leaves.
  abbrev Asked : Bytes → World → Outcome Bool → Type 0
  Asked label w (ok answer v) =
      (answer ≡ (elim (find label w.kernel.feeders) [ none ↦ false | some f ↦ true ]))
      × (v.kernel.feeders ≡ w.kernel.feeders)
      × (v.heap ≡ w.heap)
  Asked label w (throws what v) = ⊥
  Asked label w (dies f) = ⊥

  is_feeder_registered-Asked :
      (label : Bytes) (w : World)
      → w.kernel.feeder_locked ≡ false
      → Asked label w (is_feeder_registered label w)
  unfolding is_feeder_registered
  is_feeder_registered-Asked label w h = ground (arith, h)

  view-same :
      (v w : World) (j : Bytes)
      → v.kernel.feeders ≡ w.kernel.feeders
      → v.heap ≡ w.heap
      → view v j ≡ view w j
  view-same v w j e g =
      λ i. elim (find j (e i)) [ none ↦ none | some f ↦ port_of ((g i).feeder_at f) ]

  registered-Refines :
      (label : Bytes) (w : World)
      → w.kernel.feeder_locked ≡ false
      → Proper w w.kernel.feeders
      → Refines (registered label) w (is_feeder_registered label w)
  registered-Refines label w h p =
      pass _ (is_feeder_registered-Asked label w h) (Option-cases (find label w.kernel.feeders))
    where
      pass :
          (x : Outcome Bool)
          → Asked label w x
          → (find label w.kernel.feeders ≡ none)
            ⊎ ((f : ℕ) × (find label w.kernel.feeders ≡ some f))
          → Refines (registered label) w x
      pass (ok true v) (a, e, g) (inl n) = absurd (ground (arith, a, n))
      pass (ok true v) (a, e, g) (inr (f, n)) =
          let (x, live) = p.live label f n in
          ((x.port, ground (arith, n, live)), λ j. view-same v w j e g)
      pass (ok false v) (a, e, g) (inl n) = (ground (arith, n), λ j. view-same v w j e g)
      pass (ok false v) (a, e, g) (inr (f, n)) = absurd (ground (arith, a, n))
      pass (throws what v) a n = a
      pass (dies f) a n = a

  module _ ⦃host : Host⦄ where
    -- The feeders that were there before.
    abbrev Others : ℕ → World → World → Type 0
    Others f w v = f < w.heap.next_feeder → v.heap.feeder_at f ≡ w.heap.feeder_at f

    register_feeder-Others :
        (label : Bytes) (port : ℤ) (f : ℕ) (w : World)
        → w.kernel.feeder_locked ≡ false
        → Leads (Others f) (λ y. ⊥) w (register_feeder label port w)
    unfolding register_feeder
    register_feeder-Others label port f w h = elim (Option-cases (find label w.kernel.feeders)) [
      | inr (g, e) ↦ ground (arith, e, h)
      | inl e ↦ elim (Option-cases (attempt port w)) [
        | inr (what, a) ↦ ground (arith, e, a, h)
        | inl a ↦ ground (arith, e, a, h)
      ]
    ]

    -- A label that leads where it led is seen as before.
    kept-view :
        (j : Bytes) (w v : World)
        → ((l : Bytes) (f : ℕ) → Sound l f w)
        → ((f : ℕ) → Others f w v)
        → find j v.kernel.feeders ≡ find j w.kernel.feeders
        → view v j ≡ view w j
    kept-view j w v s r e = elim (Option-cases (find j w.kernel.feeders)) [
      | inl h ↦ ground (arith, h, e)
      | inr (f, h) ↦ ground (arith, h, e, r f, (s j f).live h, (s j f).fresh)
    ]

    register-Refines :
        (label : Bytes) (port : ℤ) (w : World)
        → w.kernel.feeder_locked ≡ false
        → ((l : Bytes) (f : ℕ) → Sound l f w)
        → Refines (register label port) w (register_feeder label port w)
    register-Refines label port w h s =
        pass (register_feeder label port w) (λ j. register_feeder-Registered label port j w h)
          (λ f. register_feeder-Others label port f w h)
      where
        pass :
            (x : Outcome Bool)
            → ((j : Bytes) → Registered label port j w x)
            → ((f : ℕ) → Leads (Others f) (λ y. ⊥) w x)
            → Refines (register label port) w x
        pass (ok true v) r o = (
          ground (arith, (r label).0),
          λ j. elim (Bool-cases (str_eq label j)) [
            | inl n ↦ ground (arith, n, (r j).2, (r j).3)
            | inr n ↦ ground (arith, n, kept-view j w v s o (ground (arith, n, (r j).2)))
          ],
        )
        pass (ok false v) r o = λ j. kept-view j w v s o (ap (λ k. find j (k.feeders)) (r j).0)
        pass (throws what v) r o = r label
        pass (dies f) r o = r label

    -- The operations as calls.
    abbrev pub run : Operation → M Bool
    run (register label port) = register_feeder label port
    run (drop label) = do do_remove_feeder label; pure true
    run (registered label) = is_feeder_registered label
    run (available port) = is_port_available port

    port_at-some :
        (w : World) (o : Option ℕ) (port : ℤ) → port_at w o ≡ some port → (f : ℕ) × (o ≡ some f)
    port_at-some w none port e = absurd (ground arith)
    port_at-some w (some f) port e = (f, refl)

    -- In a sound registry whose mutex is free, each operation answers and changes the book of ports
    -- as the book allows, and neither throws nor faults: to register a feeder opens the port of a
    -- new label, or refuses and leaves the book; to drop a label that is there closes its port
    -- alone; a label is registered exactly when it has a port; a port is available exactly when no
    -- label has it.
    pub run-Refines :
        (op : Operation) (w : World)
        → w.kernel.feeder_locked ≡ false
        → ((l : Bytes) (f : ℕ) → Sound l f w)
        → Allowed op (view w)
        → Refines op w (run op w)
    run-Refines (register label port) w h s a = register-Refines label port w h s
    run-Refines (drop label) w h s (port, e) =
        let (g, q) = port_at-some w (find label w.kernel.feeders) port e in
        drop-Refines label g w h s q
    run-Refines (registered label) w h s a = registered-Refines label w h (Sound-Proper w s)
    run-Refines (available port) w h s a = available-Refines port w (Sound-Proper w s)
