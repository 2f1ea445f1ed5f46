-- ===== src/Engine/Restarting.antt =====
-- `script_engine::restart` of src/script_engine.cpp.
use grind.Prelude.{◌≡◌, ◌⊎◌, inl, inr, true, false, none, some, Bytes, arith}
use grind.Lua.{Lua}
use grind.Host.{Host}
use grind.World.{catch_and_throw, Engine, World}
use grind.World.Monad.{Outcome, ok, throws, dies, M, ◌>>=◌, gets}
use grind.Registry.Untouched.{Outside, outside, Foreign}
use grind.Engine.{stop, start, restart}
use grind.Engine.Shutdown.{Stuck, Stopped, stop-Stopped}
use grind.Engine.Opening.{Opened, start-Opened}

module _ ⦃lua : Lua⦄ where
  -- How `restart` ends that began with the engine `e` and the outside `o`.
  abbrev pub Restarted : Engine → Outside → Outcome (Unit {0}) → Type 0
  Restarted e o (ok _ v) =
      (s : lua.State) × (path : Bytes) × (v.engine ≡ record e {
        lua_state = some (lua.pop 1 (lua.pop 1 s));
        cfg_path = path;
        running = lua.toboolean s;
      })
      × (outside v ≡ o)
  Restarted e o (throws what v) = (Stuck v.engine ⊎ (v.engine.lua_state ≡ none)) × (outside v ≡ o)
  Restarted e o (dies f) = Foreign o f

  -- The new start.
  again :
      (e f : Engine) (o p : Outside) (x : Outcome (Unit {0}))
      → f ≡ record e { lua_state = none; stopping = false }
      → e.stopping ≡ false
      → p ≡ o
      → Opened f p x
      → Restarted e o x
  again e f o p (ok _ v) h alive g (s, path, same, kept) =
      (s, path, ground (arith, same, h, alive), ground (arith, kept, g))
  again e f o p (throws what v) h alive g (path, running, same, _, kept) =
      (inr (ground (arith, same, h)), ground (arith, kept, g))
  again e f o p (dies y) h alive g r = rw (← g) r

  module _ ⦃host : Host⦄ (kernel_stop : M (Unit {0})) where
    -- What follows the stop.
    resumed : M (Unit {0})
    resumed = do path ← gets (λ w. w.engine.cfg_path); start kernel_stop path

    resumed-Restarted :
        (e : Engine) (o : Outside) (x : Outcome (Unit {0}))
        → e.stopping ≡ false
        → e.locked ≡ false
        → e.error_handling ≡ catch_and_throw
        → Stopped e o x
        → Restarted e o
            (elim x [ ok _ v ↦ resumed v | throws what v ↦ throws what v | dies f ↦ dies f ])
    unfolding resumed
    resumed-Restarted e o (ok _ v) alive free handling (same, kept) =
        again e v.engine o (outside v) _ same alive kept (
          start-Opened kernel_stop v.engine.cfg_path v (ground (arith, same)) (ground (arith, same))
            (ground (arith, same, free)) (ground (arith, same, handling)))
    resumed-Restarted e o (throws what v) alive free handling (stuck, kept) = (inl stuck, kept)
    resumed-Restarted e o (dies f) alive free handling r = r

    restart_cases :
        (e : Engine) (o : Outside) (w : World) (x : Outcome (Unit {0})) {s : lua.State}
        → e.lua_state ≡ some s
        → Restarted e o x
        → Restarted e o (elim e.lua_state [ none ↦ ok tt w | some s ↦ x ])
    restart_cases e o w x h r = rw h r

    -- `restart` on an open engine that is not being stopped, with its mutex free, either leaves Lua
    -- open again, and the engine counts as running exactly if the value is true that the new call of
    -- `grind.start` has left on the stack; or throws, and then the engine is stuck, if the farewell to the old scripts failed, or closed.
    -- Else only the path of the engine may change, of the kernel's marks and watchers none, and none
    -- of the engine's own faults occurs, nor a deadlock if the mutex of the feeders is free.
    pub restart-Restarted :
        (w : World) {s : lua.State}
        → w.engine.lua_state ≡ some s
        → w.engine.stopping ≡ false
        → w.engine.locked ≡ false
        → w.engine.error_handling ≡ catch_and_throw
        → Restarted w.engine (outside w) (restart kernel_stop w)
    unfolding restart resumed
    restart-Restarted w h alive free handling = restart_cases w.engine (outside w) w _ h (
        resumed-Restarted w.engine (outside w) (stop kernel_stop true w) alive free handling
          (stop-Stopped kernel_stop w h alive free handling))
