-- ===== src/Bridge/Scripts.antt =====
-- What a run of Lua code leaves behind.
use grind.Prelude.{ℕ, ◌≡◌, ◌∙◌, some, arith}
use grind.Lua.{Lua, Script, done, ask, Reply, Ends}
use grind.Host.{Host}
use grind.World.{Engine, World}
use grind.World.Monad.{Outcome, ok, throws, dies}
use grind.Registry.Untouched.{Outside, outside, SameEngine, Foreign, ForeignIn, Quiet}
use grind.Bridge.{callback, run_script}
use grind.Bridge.Untouched.{callback-SameEngine}

module _ ⦃lua : Lua⦄ ⦃host : Host⦄ where
  -- The run started with the engine `e` and the outside `o`, and ended with a code and a state that
  -- satisfy `P`; of the engine it has changed nothing but the state, and of the outside nothing.
  abbrev pub Ran : (ℕ → lua.State → Type 0) → Engine → Outside → Outcome ℕ → Type 0
  Ran P e o (ok rc v) =
      (t : lua.State) × (v.engine ≡ record e { lua_state = some t }) × P rc t × (outside v ≡ o)
  Ran P e o (throws what v) = ⊥
  Ran P e o (dies f) = Foreign o f

  -- `callback` and what follows it, on every outcome.
  Ran-callback :
      (P : ℕ → lua.State → Type 0) {e : Engine} {o : Outside}
      (k : Reply lua.Number → Script lua.Number lua.State) (w : World)
      (x : Outcome (Reply lua.Number))
      → w.engine ≡ e
      → outside w ≡ o
      → Quiet SameEngine ForeignIn w x
      → ((r : Reply lua.Number) (v : World)
          → v.engine ≡ e
          → outside v ≡ o
          → Ran P e o (run_script (k r) v))
      → Ran P e o (elim x [
        | ok reply w' ↦ run_script (k reply) w'
        | throws what w' ↦ throws what w'
        | dies x ↦ dies x
      ])
  Ran-callback P k w (ok r v) h g l next = next r v (l.0 ∙ h) (l.1 ∙ g)
  Ran-callback P k w (throws what v) h g l next = l
  Ran-callback P k w (dies f) h g l next = rw (← g) l

  pub run_script-Ran :
      (P : ℕ → lua.State → Type 0) (e : Engine) (o : Outside) (script : Script lua.Number lua.State)
      (w : World)
      → w.engine ≡ e
      → outside w ≡ o
      → Ends P script
      → Ran P e o (run_script script w)
  unfolding run_script
  run_script-Ran P e o (done rc s) w h g p = (s, ground arith, p, g)
  run_script-Ran P e o (ask c k) w h g p =
      Ran-callback P k w (callback c w) h g (callback-SameEngine c w)
        (λ r v same kept. run_script-Ran P e o (k r) v same kept (p r))
