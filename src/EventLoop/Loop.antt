-- ===== src/EventLoop/Loop.antt =====
-- The registry over the whole run of the loop.
use grind.Prelude.{
  ℕ, ◌+◌, ◌≡◌, refl, arith, Bool, true, false, Option, none, some, List, [], ◌∷◌, Bytes,
}
use grind.Lua.{Lua}
use grind.Host.{Host}
use grind.World.{Pending, watcher_accept, feeder_accept, reading, closing, dropping, sending, World}
use grind.World.Monad.{Outcome, ok, throws, dies, M, for_each}
use grind.Registry.Invariant.{accepts, drops, one_accept, one_drop}
use grind.Connections.Steady.{on_read-Keeps, do_send-Keeps}
use grind.Kernel.Steady.{kernel_stop-Keeps, do_close-Keeps, on_watcher_accepted-Keeps}
use grind.EventLoop.{Event, take_out, dispatch, turn, work}
use grind.EventLoop.Turns.{
  IsSound, EndsSound, Keeps-EndsSound, without, without-Sound, accepts-take_out, drops-take_out,
}
use grind.EventLoop.Accepting.{on_accept-EndsSound}
use grind.EventLoop.Dropping.{do_remove_feeder-EndsSound}

module _ ⦃lua : Lua⦄ ⦃host : Host⦄ where
  dispatch-EndsSound :
      (p : Pending) (e : Event) (w : World) (ps : List Pending)
      → IsSound w
      → ((f : ℕ) → accepts f w.io.pending ≡ accepts f ps + one_accept f p)
      → ((l : Bytes) → drops l w.io.pending ≡ drops l ps + one_drop l p)
      → EndsSound (dispatch p e (without w ps))
  unfolding dispatch
  dispatch-EndsSound (feeder_accept g) e w ps s a d =
      on_accept-EndsSound e.failed g
        (record { sound = s; waited = a; left = λ l. omega (arith, d l) })
  dispatch-EndsSound (dropping k) e w ps s a d =
      do_remove_feeder-EndsSound k
        (record { sound = s; waited = λ f. omega (arith, a f); left = d })
  dispatch-EndsSound watcher_accept e w ps s a d =
      Keeps-EndsSound (dispatch watcher_accept e) (without w ps)
        (λ l f. without-Sound l f w ps (omega (arith, a f)) (omega (arith, d l)) (s l f))
        (λ l f. on_watcher_accepted-Keeps l f e.failed)
  dispatch-EndsSound (reading c) e w ps s a d =
      Keeps-EndsSound (dispatch (reading c) e) (without w ps)
        (λ l f. without-Sound l f w ps (omega (arith, a f)) (omega (arith, d l)) (s l f))
        (λ l f. on_read-Keeps l f (kernel_stop-Keeps l f) e.received c)
  dispatch-EndsSound (closing c) e w ps s a d =
      Keeps-EndsSound (dispatch (closing c) e) (without w ps)
        (λ l f. without-Sound l f w ps (omega (arith, a f)) (omega (arith, d l)) (s l f))
        (λ l f. do_close-Keeps l f c)
  dispatch-EndsSound (sending c message) e w ps s a d =
      Keeps-EndsSound (dispatch (sending c message) e) (without w ps)
        (λ l f. without-Sound l f w ps (omega (arith, a f)) (omega (arith, d l)) (s l f))
        (λ l f. do_send-Keeps l f (kernel_stop-Keeps l f) message c)

  turn-EndsSound : (e : Event) (w : World) → IsSound w → EndsSound (turn e w)
  unfolding turn
  turn-EndsSound e w s = turn_cases w.io.stopped (take_out e.index w.io.pending) refl
    where
      turn_cases :
          (b : Bool) (x : Option (Pending × List Pending))
          → take_out e.index w.io.pending ≡ x
          → EndsSound (elim b [
            | true ↦ ok tt w
            | false ↦ elim x [ none ↦ ok tt w | some (p, ps) ↦ dispatch p e (without w ps) ]
          ])
      turn_cases true x h = s
      turn_cases false none h = s
      turn_cases false (some (p, ps)) h =
          dispatch-EndsSound p e w ps s (λ f. accepts-take_out f e.index w.io.pending h)
            (λ l. drops-take_out l e.index w.io.pending h)

  -- A call, and then what follows it.
  pub then_EndsSound :
      {A B : Type 0} (x : Outcome A) (k : A → M B)
      → EndsSound x
      → ((a : A) (v : World) → IsSound v → EndsSound (k a v))
      → EndsSound (elim x [ ok a v ↦ k a v | throws e v ↦ throws e v | dies y ↦ dies y ])
  then_EndsSound (ok a v) k s h = h a v s
  then_EndsSound (throws e v) k s h = s
  then_EndsSound (dies y) k s h = s

  work_cases : (events : List Event) (w : World) → IsSound w → EndsSound (for_each turn events w)
  unfolding for_each
  work_cases [] w s = s
  work_cases (e ∷ events) w s =
      then_EndsSound (turn e w) (λ _. for_each turn events) (turn-EndsSound e w s)
        (λ _ v t. work_cases events v t)

  -- However the events fall, the loop, if no other fault ends it, leaves a sound registry sound,
  -- also when an exception ends it: every label leads to a live feeder of that label, and every
  -- feeder that waits for a connection is the one that its label leads to. It never reads past the
  -- end of the map, as `do_remove_feeder` would for a label that is not there.
  pub work-EndsSound : (events : List Event) (w : World) → IsSound w → EndsSound (work events w)
  unfolding work
  work-EndsSound = work_cases
