-- ===== src/Kernel/Ending.antt =====
-- How `kernel::stop` of src/kernel.cpp ends.
use grind.Prelude.{◌≡◌, ◌⊎◌, Bool, true, false, none, []}
use grind.Lua.{Lua}
use grind.Host.{Host}
use grind.World.{Engine, World}
use grind.World.Monad.{
  Outcome, ok, throws, dies, M, ◌>>=◌, ◌>>◌, for_each, gets, modify, set_kernel,
}
use grind.Registry.Untouched.{Outside, outside}
use grind.Engine
use grind.Engine.Shutdown.{Stuck}
use grind.Connections
use grind.Kernel.{stop}
use grind.Kernel.Halting.{Open, Strange, closed}

module _ ⦃lua : Lua⦄ where
  -- What the kernel is when it has let go of its watchers and stopped its loop.
  abbrev pub halted : (running : Bool) → World → Outside
  halted running w = record {
    init = w.kernel.init;
    running = running;
    stopped = true;
    connections = [];
    new_watcher = none;
    conn_locked = w.kernel.conn_locked;
    feeder_locked = w.kernel.feeder_locked;
  }

  -- How a stop ends that began in `w`.
  abbrev pub Ended : World → Outcome (Unit {0}) → Type 0
  Ended w (ok _ v) =
      (v.engine ≡ record (w.engine) { lua_state = none; stopping = false })
      × (outside v ≡ halted false w)
  Ended w (throws what v) =
      ((Open w.engine v ⊎ (v.engine ≡ closed w.engine)) × (outside v ≡ outside w))
      ⊎ (Stuck v.engine × (outside v ≡ halted true w))
  Ended w (dies f) = Strange f

  module _ ⦃host : Host⦄ where
    -- The farewell to Lua, and what `stop` does behind it.
    farewell : M (Unit {0})
    farewell = do Engine.stop stop true; set_kernel λ k. record k { running = false }

    -- What `stop` does behind its loops.
    finish : M (Unit {0})
    unfolding farewell
    finish = do
      set_kernel λ k. record k { new_watcher = none; connections = [] }
      modify λ w. record w { io = record (w.io) { stopped = true } }
      farewell

    -- What `stop` does behind the test of its mark.
    shut_down : M (Unit {0})
    unfolding finish farewell
    shut_down w =
        (do
          for_each (Connections.stop stop) w.kernel.connections
          feeders ← gets (λ w. w.kernel.feeders)
          for_each (λ (l, f). Connections.stop_feeder stop f) feeders
          finish)
          w
