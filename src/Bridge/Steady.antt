-- ===== src/Bridge/Steady.antt =====
-- A script's calls into the program keep the registry steady.
use grind.Prelude.{ℕ, refl, arith, Bytes}
use grind.Lua.{Lua, Callback, Script, done, ask}
use grind.Host.{Host}
use grind.World.{World, sending}
use grind.World.Monad.{Outcome, ok, throws, dies}
use grind.Registry.Steps.{post-Keeps}
use grind.World.Frame.{Leads, andthen}
use grind.Registry.Invariant.{Steady, Steady-Order, InMap}
use grind.Registry.Steady.{
  Safe, Safe-Unseen, is_port_available-Safe, is_feeder_registered-Safe, register_feeder-Safe,
}
use grind.Registry.Untouched.{
  SameEngine, ForeignIn, Quiet, is_port_available-SameEngine, is_feeder_registered-SameEngine,
  register_feeder-SameEngine,
}
use grind.Swig.Frame.{Frame}
use grind.Bridge.{callback, run_script}
use grind.Bridge.Untouched.{callback-Quietly}

module _ ⦃lua : Lua⦄ (l : Bytes) (f : ℕ) ⦃host : Host⦄ where
  -- A call that respects a relation, and throws nothing.
  Quiet-Leads :
      {A : Type 0} (w : World) (x : Outcome A)
      → Quiet SameEngine ForeignIn w x
      → Leads (Steady l f) InMap w x
      → Quiet (Steady l f) (λ v. InMap) w x
  Quiet-Leads w (ok a v) q r = r
  Quiet-Leads w (throws what v) q r = q
  Quiet-Leads w (dies y) q r = r

  Steady-Frame : Frame (Steady l f) (λ v. InMap)
  Steady-Frame = record {
    order = Steady-Order l f;
    null = λ w. ground arith;
    dangle = λ w. ground arith;
    delete = λ w. ground arith;
    back = λ r d. d;
    boxes = λ w b. Safe-Unseen l f w (ok tt (record w { boxes = b })) (ground arith);
    options = λ w cfg threshold.
        Safe-Unseen l f w
          (ok tt (record w { kernel = record (w.kernel) { cfg = cfg; threshold = threshold } }))
          (ground arith);
    connections = λ w at.
        Safe-Unseen l f w (ok tt (record w { heap = record (w.heap) { connection_at = at } }))
          (ground arith);
    sends = λ w c message. (post-Keeps l f (sending c message) refl refl).run w;
    available =
        λ p w. Quiet-Leads w _ (is_port_available-SameEngine p w) (is_port_available-Safe l f p w);
    registered = λ k w.
        Quiet-Leads w _ (is_feeder_registered-SameEngine k w) (is_feeder_registered-Safe l f k w);
    registers = λ k p w.
        Quiet-Leads w _ (register_feeder-SameEngine k p w) (register_feeder-Safe l f k p w);
  }

  Leads-Quiet :
      {A : Type 0} (w : World) (x : Outcome A)
      → Quiet (Steady l f) (λ v. InMap) w x
      → Leads (Steady l f) InMap w x
  Leads-Quiet w (ok a v) q = q
  Leads-Quiet w (throws what v) q = absurd q
  Leads-Quiet w (dies y) q = q

  pub callback-Safe : (c : Callback lua.Number) → Safe l f (callback c)
  callback-Safe c w = Leads-Quiet w (callback c w) ((callback-Quietly Steady-Frame c).run w)

  pub run_script-Safe : (script : Script lua.Number lua.State) → Safe l f (run_script script)
  unfolding run_script
  run_script-Safe (done rc s) w = Safe-Unseen l f w (run_script (done rc s) w) (ground arith)
  run_script-Safe (ask c k) w =
      andthen InMap (Steady-Order l f) _ _ (callback-Safe c w) (λ r v s. run_script-Safe (k r) v)
