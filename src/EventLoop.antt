-- ===== src/EventLoop.antt =====
-- The loop of the io_service in `kernel::work` (src/kernel.cpp), as the worker thread runs it. Which
-- of the waiting handlers is ready, and with what outcome, is the environment's choice.
pub mod Turns
pub mod Accepting
pub mod Dropping
pub mod Loop
pub mod Leaving
pub mod Outliving
pub mod Tidy
use grind.Prelude.{ℕ, zero, suc, Bool, true, false, Option, none, some, List, [], ◌∷◌, Bytes}
use grind.Lua.{Lua}
use grind.Host.{Host}
use grind.World.{Pending, watcher_accept, feeder_accept, reading, closing, dropping, sending, World}
use grind.World.Monad.{Outcome, ok, M, for_each}
use grind.Registry.{do_remove_feeder}
use grind.Connections
use grind.Kernel

-- What the system reports: which of the waiting handlers is ready, whether its accept has failed,
-- and what has been received.
pub record Event : Type 0 where
  pub index : ℕ
  pub failed : Bool
  pub received : Option Bytes

-- A handler is taken off the queue.
unfoldable pub take_out : ℕ → List Pending → Option (Pending × List Pending)
take_out n [] = none
take_out zero (p ∷ ps) = some (p, ps)
take_out (suc n) (p ∷ ps) = elim (take_out n ps) [ none ↦ none | some (q, qs) ↦ some (q, p ∷ qs) ]

module _ ⦃lua : Lua⦄ ⦃host : Host⦄ where
  -- What a handler is bound to.
  unfoldable pub dispatch : Pending → Event → M (Unit {0})
  dispatch watcher_accept e = Kernel.on_watcher_accepted e.failed
  dispatch (feeder_accept f) e = Connections.on_accept Kernel.stop e.failed f
  dispatch (reading c) e = Connections.on_read Kernel.stop e.received c
  dispatch (closing c) e = Kernel.do_close c
  dispatch (dropping label) e = do_remove_feeder label
  dispatch (sending c message) e = Connections.do_send Kernel.stop message c

  -- One handler runs, unless the io_service has been stopped.
  unfoldable pub turn : Event → M (Unit {0})
  unfolding take_out dispatch
  turn e w = elim w.io.stopped [
    | true ↦ ok tt w
    | false ↦ elim (take_out e.index w.io.pending) [
      | none ↦ ok tt w
      | some (p, ps) ↦ dispatch p e (record w { io = record (w.io) { pending = ps } })
    ]
  ]

  -- `kernel::work`: an exception leaves it.
  unfoldable pub work : List Event → M (Unit {0})
  unfolding turn
  work events = for_each turn events
