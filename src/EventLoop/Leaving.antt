-- ===== src/EventLoop/Leaving.antt =====
-- What becomes of a feeder whose accept fails (src/kernel.cpp).
use grind.Prelude.{ℕ, ◌≡◌, refl, true, false, none, some, List, [], ◌∷◌, ◌++◌, Bytes, length, arith}
use grind.Lua.{Lua}
use grind.Host.{Host}
use grind.World.{Feeder, Pending, feeder_accept, dropping, World}
use grind.World.Monad.{Outcome, ok, throws, dies, for_each, carry}
use grind.Registry.{find, erase, remove_feeder, do_remove_feeder}
use grind.Registry.Invariant.{accepts, label_at, IsHome-some}
use grind.Registry.Closing.{Dropped, do_remove_feeder-Dropped}
use grind.EventLoop.{Event, take_out, dispatch, turn, work}
use grind.EventLoop.Turns.{IsSound, accepts-take_out, without}
use grind.Connections

-- An accept has failed, or a posted handler has its turn.
abbrev pub failing_accept : ℕ → Event
failing_accept n = record { index = n; failed = true; received = none }

abbrev pub ready : ℕ → Event
ready n = record { index = n; failed = false; received = none }

-- The last handler of a queue.
pub take_out-last :
    (ps : List Pending) (p : Pending) → take_out (length ps) (ps ++ p ∷ []) ≡ some (p, ps)
unfolding take_out
take_out-last [] p = refl
take_out-last (q ∷ ps) p = ground (arith, take_out-last ps p)

module _ ⦃lua : Lua⦄ where
  -- The feeder has gone, and its label with it.
  abbrev pub IsGone : Bytes → ℕ → Outcome (Unit {0}) → Type 0
  IsGone l f (ok _ v) = (find l v.kernel.feeders ≡ none) × (v.heap.feeder_at f ≡ none)
  IsGone l f (throws what v) = ⊥
  IsGone l f (dies y) = ⊥

  Dropped-IsGone :
      (l : Bytes) (f : ℕ) (w : World) (x : Outcome (Unit {0}))
      → find l (erase l w.kernel.feeders) ≡ none
      → Dropped l f f w x
      → IsGone l f x
  Dropped-IsGone l f w (ok _ v) e d = ground (arith, e, d.0, d.1)
  Dropped-IsGone l f w (throws what v) e d = d
  Dropped-IsGone l f w (dies y) e d = d

  -- A feeder that waits is found by its label.
  pub find-waiting :
      (f n : ℕ) (w : World) (x : Feeder) {ps : List Pending}
      → IsSound w
      → w.heap.feeder_at f ≡ some x
      → take_out n w.io.pending ≡ some (feeder_accept f, ps)
      → find x.label w.kernel.feeders ≡ some f
  find-waiting f n w x s e t =
      IsHome-some (label_at f w) f (accepts f w.io.pending) w.kernel.feeders x.label
        (ground (arith, e)) ((s x.label f).home)
        (ground (arith, accepts-take_out f n w.io.pending t))

  module _ ⦃host : Host⦄ where
    pub turn-failing :
        (f n : ℕ) (w : World) (x : Feeder) {ps : List Pending}
        → w.io.stopped ≡ false
        → w.heap.feeder_at f ≡ some x
        → take_out n w.io.pending ≡ some (feeder_accept f, ps)
        → turn (failing_accept n) w ≡ ok tt (without w (ps ++ dropping x.label ∷ []))
    unfolding turn dispatch Connections.on_accept remove_feeder
    turn-failing f n w x h e t = ground (arith, h, e, t)

    pub turn-dropping :
        (w : World) (l : Bytes) (ps : List Pending)
        → w.io.stopped ≡ false
        → turn (ready (length ps)) (without w (ps ++ dropping l ∷ []))
          ≡ do_remove_feeder l (without w ps)
    unfolding turn dispatch
    turn-dropping w l ps h = ground (arith, h, take_out-last ps (dropping l))

    last :
        (l : Bytes) (f : ℕ) (x : Outcome (Unit {0}))
        → IsGone l f x
        → IsGone l f (elim x [ ok _ v ↦ ok tt v | throws what v ↦ throws what v | dies y ↦ dies y ])
    last l f (ok _ v) h = h
    last l f (throws what v) h = h
    last l f (dies y) h = h

    -- In a sound registry with its mutex free, when the accept that a feeder waits for fails, the
    -- handler that this posts, run next, ends without an exception or a fault: the feeder has been
    -- deleted, and its label leads nowhere.
    pub work-IsGone :
        (f n : ℕ) (w : World) (x : Feeder) {ps : List Pending}
        → IsSound w
        → w.io.stopped ≡ false
        → w.kernel.feeder_locked ≡ false
        → w.heap.feeder_at f ≡ some x
        → take_out n w.io.pending ≡ some (feeder_accept f, ps)
        → IsGone x.label f (work (failing_accept n ∷ ready (length ps) ∷ []) w)
    unfolding work for_each
    work-IsGone f n w x {ps} s h free e t =
        carry (IsGone x.label f) (λ _. for_each turn (ready (length ps) ∷ []))
          (turn-failing f n w x h e t)
          (last x.label f _ (
            rw (turn-dropping w x.label ps h) (
              Dropped-IsGone x.label f (without w ps) _ ((s x.label f).unique) (
                do_remove_feeder-Dropped x.label f f (without w ps) free
                  (find-waiting f n w x s e t) (ground (arith, e))))))
