-- ===== src/Bridge/Tidy.antt =====
-- The calls of a script leave no mutex held, and wait for none.
use grind.Prelude.{ℕ, ℤ, ◌≡◌, ◌∙◌, ap, Bool, false, List, [], ◌∷◌, Bytes, arith}
use grind.Lua.{Lua, Callback, Script, done, ask, Reply}
use grind.Host.{Host}
use grind.World.{World}
use grind.World.Monad.{Fault, Outcome, ok, throws, dies}
use grind.World.Tidy.{held_at, Tidy, EndsTidy, then_EndsTidy, Free}
use grind.Registry.{ports_differ, is_port_available, is_feeder_registered, register_feeder}
use grind.Registry.Untouched.{SameEngine, ForeignIn, Outside, Quiet}
use grind.Swig.Frame.{Frame}
use grind.Bridge.{callback, run_script}
use grind.Bridge.Untouched.{callback-Quietly, callback-SameEngine}

module _ ⦃lua : Lua⦄ (g : ℕ) where
  -- The mutex of a feeder is not taken.
  abbrev Unheld : World → World → Type 0
  Unheld v w = held_at g v ≡ false → held_at g w ≡ false

  abbrev Whatever : World → Fault → Type 0
  Whatever w f = Unit {0}

  ports_differ-Unheld :
      (p : ℤ) (m : List (Bytes × ℕ)) (w : World) → Quiet Unheld Whatever w (ports_differ p m w)
  unfolding ports_differ
  ports_differ-Unheld p [] w = λ h. h
  ports_differ-Unheld p ((l, f) ∷ m) w = ground (arith, ports_differ-Unheld p m w)

  is_port_available-Unheld : (p : ℤ) (w : World) → Quiet Unheld Whatever w (is_port_available p w)
  unfolding is_port_available
  is_port_available-Unheld p w = ports_differ-Unheld p w.kernel.feeders w

  is_feeder_registered-Unheld :
      (label : Bytes) (w : World) → Quiet Unheld Whatever w (is_feeder_registered label w)
  unfolding is_feeder_registered
  is_feeder_registered-Unheld label w = ground arith

  module _ ⦃host : Host⦄ where
    register_feeder-Unheld :
        (label : Bytes) (p : ℤ) (w : World) → Quiet Unheld Whatever w (register_feeder label p w)
    unfolding register_feeder
    register_feeder-Unheld label p w = ground arith

    Unheld-Frame : Frame Unheld Whatever
    Unheld-Frame = record {
      order = record { same = λ w h. h; trans = λ r s h. s (r h) };
      null = λ w. tt;
      dangle = λ w. tt;
      delete = λ w. tt;
      back = λ r d. tt;
      boxes = λ w b h. h;
      options = λ w cfg threshold h. h;
      connections = λ w at h. h;
      sends = λ w c message h. h;
      available = is_port_available-Unheld;
      registered = is_feeder_registered-Unheld;
      registers = register_feeder-Unheld;
    }

    callback-Unheld : (c : Callback lua.Number) (w : World) → Quiet Unheld Whatever w (callback c w)
    callback-Unheld c = (callback-Quietly Unheld-Frame c).run

module _ ⦃lua : Lua⦄ ⦃host : Host⦄ where
  both :
      (b : Bool) (w : World) (x : Outcome (Reply lua.Number))
      → Tidy b w
      → Quiet SameEngine ForeignIn w x
      → ((g : ℕ) → Quiet (Unheld g) (Whatever g) w x)
      → EndsTidy b x
  both b w (ok a v) t (same, kept) h = (
    ground (arith, t.0, same),
    ground (arith, t.1, same),
    ap (λ (o : Outside). o.conn_locked) kept ∙ t.2,
    ap (λ (o : Outside). o.feeder_locked) kept ∙ t.3,
    λ g. h g (t.4 g),
  )
  both b w (throws what v) t q h = absurd q
  both b w (dies f) t q h = q.3 (t.3)

  pub run_script-Free :
      (b : Bool) (script : Script lua.Number lua.State) → Free b (run_script script)
  unfolding run_script
  run_script-Free b (done rc s) = record { run = λ w t. t }
  run_script-Free b (ask c k) = record {
    run = λ w t.
        then_EndsTidy b (callback c w) (λ reply. run_script (k reply))
          (both b w (callback c w) t (callback-SameEngine c w) (λ g. callback-Unheld g c w))
          (λ reply. run_script-Free b (k reply));
  }
