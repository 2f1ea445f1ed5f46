-- ===== src/Engine/Shutdown.antt =====
-- `script_engine::stop` in src/script_engine.cpp, when the farewell to Lua succeeds and when it
-- fails.
use grind.Prelude.{ℕ, ◌≡◌, ◌≢◌, refl, Bool, true, false, none, some, Bytes, lit, [], arith}
use grind.Lua.{Lua}
use grind.Host.{Host}
use grind.World.{catch_and_throw, Engine, World}
use grind.World.Monad.{Outcome, ok, throws, dies, M}
use grind.Registry.Untouched.{Outside, outside, Foreign}
use grind.Bridge.{push_arguments}
use grind.Engine.{stop_after, pass_to_lua, notify, stop}
use grind.Engine.Balance.{Called}
use grind.Engine.Calls.{pass_to_lua-Called}

module _ ⦃lua : Lua⦄ where
  -- Lua is open but can never be closed: the engine is marked as being stopped for good.
  pub record Stuck (e : Engine) : Type 0 where
    pub stopping : e.stopping ≡ true
    pub open_state : e.lua_state ≢ none
    pub halted : e.running ≡ false
    pub free : e.locked ≡ false

  -- How `stop` ends that began with the engine `e` and the outside `o`.
  abbrev pub Stopped : Engine → Outside → Outcome (Unit {0}) → Type 0
  Stopped e o (ok _ v) =
      (v.engine ≡ record e { lua_state = none; stopping = false }) × (outside v ≡ o)
  Stopped e o (throws what v) = Stuck v.engine × (outside v ≡ o)
  Stopped e o (dies f) = Foreign o f

module _ ⦃lua : Lua⦄ ⦃host : Host⦄ (kernel_stop : M (Unit {0})) where
  -- The result of a call is dropped.
  forget : Outcome Bool → Outcome (Unit {0})
  forget (ok b v) = ok tt v
  forget (throws what v) = throws what v
  forget (dies f) = dies f

  -- What follows the farewell.
  close : Outcome (Unit {0}) → Outcome (Unit {0})
  close (ok _ v) =
      ok tt (record v { engine = record (v.engine) { lua_state = none; stopping = false } })
  close (throws what v) = throws what v
  close (dies f) = dies f

  stop_after-close :
      (farewell : M (Unit {0})) (w : World) {s : lua.State}
      → w.engine.lua_state ≡ some s
      → w.engine.stopping ≡ false
      → stop_after farewell w
        ≡ close (farewell (record w { engine = record (w.engine) { stopping = true } }))
  unfolding stop_after close
  stop_after-close farewell w h n = ground arith

  notify-forget :
      (in_func : Bytes) (w : World)
      → notify kernel_stop in_func [] w ≡ forget (pass_to_lua kernel_stop in_func none 0 [] w)
  unfolding notify forget
  notify-forget in_func w = ground arith

  farewell_Stopped :
      (e : Engine) (o : Outside) (height : ℕ) (x : Outcome Bool)
      → e.stopping ≡ true
      → e.locked ≡ false
      → Called e o height x
      → Stopped e o (close (forget x))
  unfolding close forget
  farewell_Stopped e o height (ok b v) s n (_, t, same, _, kept) = (ground arith, kept)
  farewell_Stopped e o height (throws what v) s n (u, _, same, kept) = (
    record {
      stopping = ground arith;
      open_state = ground arith;
      halted = ground arith;
      free = ground arith;
    },
    kept,
  )
  farewell_Stopped e o height (dies f) s n c = c

  -- `stop` on an open engine that is not being stopped either closes Lua and leaves the rest of
  -- the engine as it was, also the flag of a running engine; or, where `grind.stop` fails in Lua,
  -- throws and leaves the engine stuck: Lua stays open, and the mark that it is being stopped stays.
  -- Either way the marks and the watchers of the kernel stay as they were. There is no deadlock if the
  -- mutex of the feeders is free.
  pub stop-Stopped :
      (w : World) {s : lua.State}
      → w.engine.lua_state ≡ some s
      → w.engine.stopping ≡ false
      → w.engine.locked ≡ false
      → w.engine.error_handling ≡ catch_and_throw
      → Stopped w.engine (outside w) (stop kernel_stop true w)
  unfolding stop push_arguments
  stop-Stopped w {s} h n f t =
      let marked = record w { engine = record (w.engine) { stopping = true } } in
      rw (stop_after-close (notify kernel_stop (lit "grind.stop") []) w h n) (
        rw (notify-forget (lit "grind.stop") marked) (
          farewell_Stopped (marked.engine) (outside w) (lua.gettop s) _ refl f
            (pass_to_lua-Called kernel_stop (lit "grind.stop") 0 [] marked h f t refl)))
