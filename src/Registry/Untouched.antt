-- ===== src/Registry/Untouched.antt =====
-- What the registry leaves alone: the engine.
use grind.Prelude.{Bool, Option, ℕ, ℤ, ◌≡◌, ◌≢◌, refl, false, ◌∙◌, List, [], ◌∷◌, Bytes, arith}
use grind.Lua.{Lua}
use grind.Host.{Host}
use grind.World.{World}
use grind.World.Monad.{Fault, null_lua, deadlock, bad_cast, assertion, Outcome, ok, throws, dies}
use grind.World.Frame.{Leads, Order}
use grind.Registry.{
  accept, listen, is_feeder_registered, is_port_available, ports_differ, register_feeder,
}

-- The kernel's marks, watchers and mutexes, and whether the loop has been stopped.
pub record Outside : Type 0 where
  pub init : Bool
  pub running : Bool
  pub stopped : Bool
  pub connections : List ℕ
  pub new_watcher : Option ℕ
  pub conn_locked : Bool
  pub feeder_locked : Bool

module _ ⦃lua : Lua⦄ where
  abbrev pub outside : World → Outside
  outside w = record {
    init = w.kernel.init;
    running = w.kernel.running;
    stopped = w.io.stopped;
    connections = w.kernel.connections;
    new_watcher = w.kernel.new_watcher;
    conn_locked = w.kernel.conn_locked;
    feeder_locked = w.kernel.feeder_locked;
  }

  -- The engine stays as it is, and so do they.
  abbrev pub SameEngine : World → World → Type 0
  SameEngine v w = (w.engine ≡ v.engine) × (outside w ≡ outside v)

  -- Not a fault of the engine, and no deadlock unless the mutex of the feeders is held.
  abbrev pub Foreign : Outside → Fault → Type 0
  Foreign o f =
      (f ≢ null_lua) × (f ≢ bad_cast) × (f ≢ assertion) × (o.feeder_locked ≡ false → f ≢ deadlock)

  -- The same in a state.
  abbrev pub ForeignIn : World → Fault → Type 0
  ForeignIn w f = Foreign (outside w) f

  -- The call does not throw, and otherwise respects a relation.
  abbrev pub Quiet :
      {A : Type 0}
      → (World → World → Type 0)
      → (World → Fault → Type 0)
      → World
      → Outcome A
      → Type 0
  Quiet R D w (ok a v) = R w v
  Quiet R D w (throws e v) = ⊥
  Quiet R D w (dies f) = D w f

  pub SameEngine-Order : Order SameEngine
  SameEngine-Order = record { same = λ w. (refl, refl); trans = λ p q. (q.0 ∙ p.0, q.1 ∙ p.1) }

  accept-SameEngine : (f : ℕ) (w : World) → Leads SameEngine (ForeignIn w) w (accept f w)
  unfolding accept
  accept-SameEngine f w = ground arith

  pub is_feeder_registered-SameEngine :
      (l : Bytes) → (w : World) → Quiet SameEngine ForeignIn w (is_feeder_registered l w)
  unfolding is_feeder_registered
  is_feeder_registered-SameEngine l w = ground arith

  ports_differ-SameEngine :
      (p : ℤ) (m : List (Bytes × ℕ))
      → (w : World) → Quiet SameEngine ForeignIn w (ports_differ p m w)
  unfolding ports_differ
  ports_differ-SameEngine p [] w = (refl, refl)
  ports_differ-SameEngine p ((l, f) ∷ m) w = ground (arith, ports_differ-SameEngine p m w)

  pub is_port_available-SameEngine :
      (p : ℤ) → (w : World) → Quiet SameEngine ForeignIn w (is_port_available p w)
  unfolding is_port_available
  is_port_available-SameEngine p w = ports_differ-SameEngine p w.kernel.feeders w

  module _ ⦃host : Host⦄ where
    listen-SameEngine : (f : ℕ) (w : World) → Leads SameEngine (ForeignIn w) w (listen f w)
    unfolding listen
    listen-SameEngine f w = ground arith

    pub register_feeder-SameEngine :
        (l : Bytes) (p : ℤ) → (w : World) → Quiet SameEngine ForeignIn w (register_feeder l p w)
    unfolding register_feeder
    register_feeder-SameEngine l p w = ground arith
