-- ===== src/Registry/Registering.antt =====
-- What `kernel::register_feeder` of src/kernel.cpp does on every branch.
use grind.Prelude.{
  ℕ, ℤ, ◌≡◌, ◌⊎◌, inl, inr, Bool, true, false, Option, Option-cases, none, some, [], ◌∷◌, ◌++◌,
  Bytes, str_eq, if◌then◌else◌, arith,
}
use grind.Utility.{int_to_decimal}
use grind.Lua.{Lua}
use grind.Host.{Host}
use grind.World.{Feeder, feeder_accept, World}
use grind.World.Monad.{Outcome, ok, throws, dies}
use grind.Registry.{find, register_feeder}
use grind.Registry.Maps.{find-insert}

module _ ⦃lua : Lua⦄ ⦃host : Host⦄ where
  -- What the next attempt to listen for a new feeder gives.
  abbrev pub attempt : ℤ → World → Option Bytes
  attempt port w = host.listen (w.io.now) (w.kernel.cfg.feeder_interface) (int_to_decimal port)

  -- A feeder that has just begun to listen, with its next connection.
  abbrev pub listening : Bytes → (port : ℤ) (conn : ℕ) → Feeder
  listening label port c = record {
    label = label;
    port = port;
    conn = some c;
    connections = [];
    conn_locked = false;
    acceptor_open = true;
  }

  -- The outcomes of registering a feeder, none of which is an exception or a fault; `j` is any
  -- label.
  abbrev pub Registered : (label : Bytes) → ℤ → (j : Bytes) → World → Outcome Bool → Type 0
  Registered label port j w (ok true v) =
      (find label w.kernel.feeders ≡ none)
      × (attempt port w ≡ none)
      × (find j v.kernel.feeders
          ≡ (if str_eq label j then some (w.heap.next_feeder) else find j w.kernel.feeders))
      × (v.heap.feeder_at (w.heap.next_feeder)
          ≡ some (listening label port (w.heap.next_connection)))
      × (v.io.pending ≡ w.io.pending ++ feeder_accept (w.heap.next_feeder) ∷ [])
  Registered label port j w (ok false v) =
      (v.kernel ≡ w.kernel)
      × (v.io.pending ≡ w.io.pending)
      × (((f : ℕ) × (find label w.kernel.feeders ≡ some f))
          ⊎ ((what : Bytes) × (attempt port w ≡ some what)))
  Registered label port j w (throws what v) = ⊥
  Registered label port j w (dies f) = ⊥

  -- While the mutex of the feeders is free, registering a feeder never throws and never faults. It
  -- returns true exactly when the label is
  -- new and the feeder can listen; then the label, and no other, leads to a new feeder with that
  -- label and port, whose acceptor is open and waits for one connection. Otherwise it returns
  -- false, and leaves the kernel and the waiting handlers as they were.
  pub register_feeder-Registered :
      (label : Bytes) (port : ℤ) (j : Bytes) (w : World)
      → w.kernel.feeder_locked ≡ false
      → Registered label port j w (register_feeder label port w)
  unfolding register_feeder
  register_feeder-Registered label port j w h = elim (Option-cases (find label w.kernel.feeders)) [
    | inr (f, e) ↦ ground (arith, e)
    | inl e ↦ elim (Option-cases (attempt port w)) [
      | inr (what, a) ↦ ground (arith, e, a)
      | inl a ↦ ground (arith, e, a, find-insert label j (w.heap.next_feeder) w.kernel.feeders e)
    ]
  ]
