-- ===== src/EventLoop/Outliving.antt =====
-- What becomes of a connection whose feeder is gone (src/kernel.cpp, src/connection.cpp).
use grind.Prelude.{ℕ, ◌≡◌, true, false, Option, none, some, List, [], ◌∷◌, Bytes, length, arith}
use grind.Lua.{Lua}
use grind.Host.{Host}
use grind.World.{Feeder, Pending, feeder_accept, reading, World}
use grind.World.Monad.{Outcome, ok, throws, dies, dangling, M, for_each, carry}
use grind.Registry.{owned}
use grind.Registry.Closing.{Frees, do_remove_feeder-Frees}
use grind.EventLoop.{Event, take_out, dispatch, turn, work}
use grind.EventLoop.Turns.{IsSound, without}
use grind.EventLoop.Leaving.{failing_accept, ready, find-waiting, turn-failing, turn-dropping}
use grind.Connections
use grind.Kernel

module _ ⦃lua : Lua⦄ ⦃host : Host⦄ where
  -- Something arrives for a connection that has been freed.
  on_read-dangling :
      (ks : M (Unit {0})) (received : Option Bytes) (c : ℕ) (w : World)
      → w.heap.connection_at c ≡ none
      → Connections.on_read ks received c w ≡ dies dangling
  unfolding Connections.on_read Connections.stop
  on_read-dangling ks none c w e = ground (arith, e)
  on_read-dangling ks (some received) c w e = ground (arith, e)

  turn-dangling :
      (c : ℕ) (event : Event) (w : World) (ps : List Pending)
      → w.io.stopped ≡ false
      → take_out event.index w.io.pending ≡ some (reading c, ps)
      → w.heap.connection_at c ≡ none
      → turn event w ≡ dies dangling
  unfolding turn dispatch
  turn-dangling c event w ps h t e =
      ground (arith, h, t, on_read-dangling Kernel.stop event.received c (without w ps) e)

  -- The connection has data after its feeder has been dropped.
  last :
      (c : ℕ) (event : Event) (w : World) (ps : List Pending) (y : Outcome (Unit {0}))
      → w.io.stopped ≡ false
      → take_out event.index w.io.pending ≡ some (reading c, ps)
      → Frees c w y
      → (elim y [
        | ok _ v ↦ for_each turn (event ∷ []) v
        | throws what v ↦ throws what v
        | dies z ↦ dies z
      ])
        ≡ dies dangling
  unfolding for_each
  last c event w ps (ok _ v) h t d =
      ground
        (arith, turn-dangling c event v ps (ground (arith, h, d.1)) (ground (arith, t, d.1)) d.0)
  last c event w ps (throws what v) h t d = absurd d
  last c event w ps (dies z) h t d = absurd d

  -- In a sound registry with its mutex free, when the accept that a feeder waits for fails while a
  -- connection of this feeder waits for data, and the handler that this posts runs next, then
  -- whatever is read from the connection, or an error of it, is handled with a freed connection.
  pub work-dangling :
      (f n c : ℕ) (event : Event) (w : World) (x : Feeder) {ps qs : List Pending}
      → IsSound w
      → w.io.stopped ≡ false
      → w.kernel.feeder_locked ≡ false
      → w.heap.feeder_at f ≡ some x
      → owned c x ≡ true
      → take_out n w.io.pending ≡ some (feeder_accept f, ps)
      → take_out event.index ps ≡ some (reading c, qs)
      → work (failing_accept n ∷ ready (length ps) ∷ event ∷ []) w ≡ dies dangling
  unfolding work for_each
  work-dangling f n c event w x {ps} {qs} s h free e o t r =
      carry (λ z. z ≡ dies dangling) (λ _. for_each turn (ready (length ps) ∷ event ∷ []))
        (turn-failing f n w x h e t)
        (rw (turn-dropping w x.label ps h, for_each)
          (last c event (without w ps) qs _ h r (
            do_remove_feeder-Frees x.label f c (without w ps) x free (find-waiting f n w x s e t) e
              o)))
