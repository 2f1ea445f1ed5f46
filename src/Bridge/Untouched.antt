-- ===== src/Bridge/Untouched.antt =====
-- A script's calls into the program, and the engine that runs the script.
use grind.Prelude.{refl, arith}
use grind.Lua.{Lua, Callback, call, index, newindex, collect}
use grind.Host.{Host}
use grind.World.{World}
use grind.World.Monad.{Fault, Outcome, ok, throws, dies}
use grind.Swig.{invoke}
use grind.Swig.Classes.{class_get, class_set}
use grind.Swig.Classes.Quiet.{class_get-Quietly, class_set-Quietly}
use grind.Swig.Arguments.{Args, Result, gives, fails}
use grind.Swig.Frame.{Frame, Quietly}
use grind.Swig.Quiet.{invoke-Quietly, class_destruct-Quietly}
use grind.Bridge.{callback, reply}
use grind.Registry.Untouched.{
  SameEngine, SameEngine-Order, ForeignIn, Quiet, is_port_available-SameEngine,
  is_feeder_registered-SameEngine, register_feeder-SameEngine,
}

module _ ⦃lua : Lua⦄ ⦃host : Host⦄ where
  pub SameEngine-Frame : Frame SameEngine ForeignIn
  SameEngine-Frame = record {
    order = SameEngine-Order;
    null = λ w. ground arith;
    dangle = λ w. ground arith;
    delete = λ w. ground arith;
    back = λ r d. (d.0, d.1, d.2, λ e. d.3 (ground (arith, e, r.1)));
    boxes = λ w b. (refl, refl);
    options = λ w cfg threshold. (refl, refl);
    connections = λ w at. (refl, refl);
    sends = λ w c message. (refl, refl);
    available = is_port_available-SameEngine;
    registered = is_feeder_registered-SameEngine;
    registers = register_feeder-SameEngine;
  }

  module _ {R : World → World → Type 0} {D : World → Fault → Type 0} (frame : Frame R D) where
    reply-Quiet : (w : World) (x : Outcome (Result Args)) → Quiet R D w x → Quiet R D w (reply x)
    reply-Quiet w (ok (gives results) v) q = q
    reply-Quiet w (ok (fails message) v) q = q
    reply-Quiet w (throws what v) q = q
    reply-Quiet w (dies f) q = q

    -- What the wrappers respect, a script's calls respect.
    pub callback-Quietly : (c : Callback lua.Number) → Quietly frame (callback c)
    unfolding callback
    callback-Quietly (call f args) = record {
      run = λ w. reply-Quiet w (invoke f args w) ((invoke-Quietly frame f args).run w);
    }
    callback-Quietly (index o own key) = record {
      run = λ w. reply-Quiet w (class_get o own key w) ((class_get-Quietly frame o own key).run w);
    }
    callback-Quietly (newindex o own key v) = record {
      run = λ w.
          reply-Quiet w (class_set o own key v w) ((class_set-Quietly frame o own key v).run w);
    }
    callback-Quietly (collect o own) = record {
      run = λ w. ground (arith, (class_destruct-Quietly frame o own).run w);
    }

  -- Whatever a script calls with whatever arguments, reads, assigns or collects: the program throws
  -- nothing, leaves the engine, the marks, mutexes and watchers of the kernel and the mark of a stopped
  -- loop as they are, and dies of no null Lua state, bad cast or failed assertion, and of a deadlock
  -- only if the mutex of the feeders is held.
  pub callback-SameEngine :
      (c : Callback lua.Number) (w : World) → Quiet SameEngine ForeignIn w (callback c w)
  callback-SameEngine c = (callback-Quietly SameEngine-Frame c).run
