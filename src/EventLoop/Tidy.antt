-- ===== src/EventLoop/Tidy.antt =====
-- The mutexes from one turn of the loop of the io_service to the next: src/kernel.cpp.
use grind.Prelude.{
  ℕ, ◌≡◌, ◌≢◌, refl, ◌++◌, Bool, true, false, Option, none, some, List, [], ◌∷◌, Bytes, arith,
}
use grind.Lua.{Lua}
use grind.Host.{Host}
use grind.World.{
  catch_and_throw, ConnectionType, watcher_connection, feeder_connection, kernel_close,
  feeder_close, Feeder, Pending, watcher_accept, feeder_accept, reading, closing, dropping, sending,
  World,
}
use grind.World.Monad.{
  Outcome, ok, throws, dies, dangling, end_iterator, deadlock, M, ◌>>=◌, ◌>>◌, feeder, gets, or_die,
  set_kernel, carry,
}
use grind.World.Mutex.{conn_mutex, feeder_mutex, lock, unlock, release, scoped}
use grind.World.Tidy.{
  held_at, Tidy, EndsTidy, Free, Free-if, Free-pure, Free-bind, Free-gets, Free-throw, Free-each,
  Free-or_die, Free-post, Free-feeder, Free-set_feeder, Free-set_kernel,
}
use grind.Objects.{new_connection}
use grind.Registry.{find, erase, delete_feeder, accept, remove_feeder, do_remove_feeder}
use grind.Connections.{remove}
use grind.Connections
use grind.Connections.Tidy.{
  destroy-Free, assign_close_handler-Free, start-Free, on_read-Free, do_send-Free,
}
use grind.Kernel.{closes, forget, accept_watcher, do_close, on_watcher_accepted, stop}
use grind.EventLoop.{Event, take_out, dispatch, turn, work}

module _ ⦃lua : Lua⦄ where
  new_connection-Free : (t : ConnectionType) (f : Option ℕ) → Free false (new_connection t f)
  unfolding new_connection
  new_connection-Free t f = record { run = λ w h. h }

  -- What is done with a live feeder, whose mutex is free.
  with_feeder-Free :
      {A : Type 0} (f : ℕ) {k : Feeder → M A}
      → ((x : Feeder) → x.conn_locked ≡ false → Free false (k x))
      → Free false (do x ← feeder f; k x)
  with_feeder-Free {A} f {k} h = record { run = λ w t. at w (w.heap.feeder_at f) t (t.4 f) }
    where
      at :
          (w : World) (o : Option Feeder)
          → Tidy false w
          → (elim o [ none ↦ false | some x ↦ x.conn_locked ]) ≡ false
          → EndsTidy false
              (elim (elim o as (λ _. Outcome Feeder) [ none ↦ dies dangling | some x ↦ ok x w ])
                as (λ _. Outcome A) [ ok x v ↦ k x v | throws e v ↦ throws e v | dies y ↦ dies y ])
      at w none t e = ground arith
      at w (some x) t e = (h x e).run w t

  accept-Free : (f : ℕ) → Free false (accept f)
  unfolding accept
  accept-Free f = Free-bind false (new_connection-Free feeder_connection (some f)) (λ c.
      with_feeder-Free f (λ x free.
        Free-bind false (Free-set_feeder false f (some (record x { conn = some c })) free) (λ _.
          Free-bind false (assign_close_handler-Free c (some (feeder_close f)))
            (λ _. Free-post false (feeder_accept f)))))

  remove_feeder-Free : (f : ℕ) → Free false (remove_feeder f)
  unfolding remove_feeder
  remove_feeder-Free f =
      Free-bind false (Free-feeder false f) (λ x. Free-post false (dropping x.label))

  pub accept_watcher-Free : Free false accept_watcher
  unfolding accept_watcher
  accept_watcher-Free = Free-bind false (new_connection-Free watcher_connection none) (λ c.
      Free-bind false
        (Free-set_kernel false (λ k. record k { new_watcher = some c }) (λ k. (refl, refl)))
        (λ _.
          Free-bind false (assign_close_handler-Free c (some kernel_close))
            (λ _. Free-post false watcher_accept)))

  closed : World → World
  closed w = record w { kernel = record (w.kernel) { conn_locked = true } }

  lock-closed : (w : World) → w.kernel.conn_locked ≡ false → lock conn_mutex w ≡ ok tt (closed w)
  unfolding lock closed
  lock-closed w h = ground (arith, h)

  forget_lem :
      (c : ℕ) (w : World)
      → w.kernel.conn_locked ≡ false
      → forget c w
        ≡ ok tt (record w {
          kernel = record (w.kernel) {
            connections = remove c w.kernel.connections;
            conn_locked = false;
          };
        })
  unfolding forget scoped unlock release closed
  forget_lem c w h =
      carry
        (λ x.
          x
          ≡ ok tt (record w {
            kernel = record (w.kernel) {
              connections = remove c w.kernel.connections;
              conn_locked = false;
            };
          }))
        (λ _ v.
          release conn_mutex
            (set_kernel (λ k. record k { connections = remove c k.connections }) v))
        (lock-closed w h) refl

  forget-Free : (c : ℕ) → Free false (forget c)
  forget-Free c = record { run = λ w t. rw (forget_lem c w (t.2)) (t.0, t.1, refl, t.3, t.4) }

  do_close-Free : (c : ℕ) → Free false (do_close c)
  unfolding do_close
  do_close-Free c = Free-bind false (forget-Free c) (λ _.
      Free-bind false (Free-gets false (λ w. w.io.pending))
        (λ pending. Free-if false (closes c pending) (Free-pure false tt) (destroy-Free (c ∷ []))))

  -- A call that ends tidily, as it is seen from one feeder.
  EndsTidyAt : ℕ → Outcome (Unit {0}) → Type 0
  EndsTidyAt g (ok _ v) =
      (v.engine.locked ≡ false)
      × (v.engine.error_handling ≡ catch_and_throw)
      × (v.kernel.conn_locked ≡ false)
      × (v.kernel.feeder_locked ≡ false)
      × (held_at g v ≡ false)
  EndsTidyAt g (throws what v) = ⊥
  EndsTidyAt g (dies f) = f ≢ deadlock

  everywhere-EndsTidy : (x : Outcome (Unit {0})) → ((g : ℕ) → EndsTidyAt g x) → EndsTidy false x
  unfolding EndsTidyAt
  everywhere-EndsTidy (ok _ v) h = ((h 0).0, (h 0).1, (h 0).2, (h 0).3, λ g. (h g).4)
  everywhere-EndsTidy (throws what v) h = absurd (h 0)
  everywhere-EndsTidy (dies f) h = h 0

  held : World → World
  held w = record w { kernel = record (w.kernel) { feeder_locked = true } }

  lock-free : (w : World) → w.kernel.feeder_locked ≡ false → lock feeder_mutex w ≡ ok tt (held w)
  unfolding lock held
  lock-free w h = ground (arith, h)

  after_lock :
      (g : ℕ) (v : World) (x : Outcome (Unit {0})) (k : M (Unit {0}))
      → x ≡ ok tt v
      → EndsTidyAt g (k v)
      → EndsTidyAt g (elim x [ ok _ v ↦ k v | throws e v ↦ throws e v | dies y ↦ dies y ])
  after_lock g v x k e d = rw e d

  drop_found : Bytes → M (Unit {0})
  unfolding find erase unlock delete_feeder
  drop_found label = do
    iter ← gets (λ w. find label w.kernel.feeders)
    g ← or_die iter end_iterator
    delete_feeder g
    set_kernel λ k. record k { feeders = erase label k.feeders }
    unlock feeder_mutex

  drop_found-EndsTidyAt :
      (label : Bytes) (g : ℕ) (w : World) → Tidy false w → EndsTidyAt g (drop_found label (held w))
  unfolding drop_found delete_feeder held unlock EndsTidyAt
  drop_found-EndsTidyAt label g w t = ground (arith, t.0, t.1, t.2, t.3, t.4 g)

  do_remove_feeder-Free : (label : Bytes) → Free false (do_remove_feeder label)
  unfolding do_remove_feeder drop_found
  do_remove_feeder-Free label = record {
    run = λ w t. everywhere-EndsTidy (do_remove_feeder label w) (λ g.
        after_lock g (held w) (lock feeder_mutex w) (drop_found label) (lock-free w (t.3))
          (drop_found-EndsTidyAt label g w t));
  }

  module _ ⦃host : Host⦄ where
    on_accept-Free : (failed : Bool) (f : ℕ) → Free false (Connections.on_accept stop failed f)
    unfolding Connections.on_accept
    on_accept-Free true f = remove_feeder-Free f
    on_accept-Free false f = with_feeder-Free f (λ x free.
        Free-bind false (Free-or_die false x.conn dangling (ground arith)) (λ c.
          Free-bind false
            (Free-set_feeder false f (some (record x { connections = x.connections ++ c ∷ [] }))
              free)
            (λ _. Free-bind false (start-Free stop c) (λ _. accept-Free f))))

    on_watcher_accepted-Free : (failed : Bool) → Free false (on_watcher_accepted failed)
    unfolding on_watcher_accepted
    on_watcher_accepted-Free true = Free-throw false _
    on_watcher_accepted-Free false =
        Free-bind false (Free-gets false (λ w. w.kernel.new_watcher)) (λ next.
          Free-bind false (Free-or_die false next dangling (ground arith)) (λ c.
            Free-bind false
              (Free-set_kernel false (λ k. record k { connections = k.connections ++ c ∷ [] })
                (λ k. (refl, refl)))
              (λ _. Free-bind false (start-Free stop c) (λ _. accept_watcher-Free))))

    dispatch-Free : (p : Pending) (e : Event) → Free false (dispatch p e)
    unfolding dispatch
    dispatch-Free watcher_accept e = on_watcher_accepted-Free e.failed
    dispatch-Free (feeder_accept f) e = on_accept-Free e.failed f
    dispatch-Free (reading c) e = on_read-Free stop e.received c
    dispatch-Free (closing c) e = do_close-Free c
    dispatch-Free (dropping label) e = do_remove_feeder-Free label
    dispatch-Free (sending c message) e = do_send-Free stop message c

    turn_cases :
        (e : Event) (w : World) (stopped : Bool) (o : Option (Pending × List Pending))
        → Tidy false w
        → EndsTidy false (elim stopped [
          | true ↦ ok tt w
          | false ↦ elim o [
            | none ↦ ok tt w
            | some (p, ps) ↦ dispatch p e (record w { io = record (w.io) { pending = ps } })
          ]
        ])
    turn_cases e w true o t = t
    turn_cases e w false none t = t
    turn_cases e w false (some (p, ps)) t =
        (dispatch-Free p e).run (record w { io = record (w.io) { pending = ps } }) t

    turn-Free : (e : Event) → Free false (turn e)
    unfolding turn
    turn-Free e = record {
      run = λ w t. turn_cases e w w.io.stopped (take_out e.index w.io.pending) t;
    }

    -- While errors of Lua are thrown and no mutex is held, no handler of the loop ever waits for a
    -- mutex that its own thread holds, whatever the events, Lua and its callbacks do; and each of them
    -- leaves every mutex of the engine, the kernel and the live feeders free, also by an exception.
    pub work-EndsTidy :
        (events : List Event) (w : World) → Tidy false w → EndsTidy false (work events w)
    unfolding work
    work-EndsTidy events = (Free-each false turn events turn-Free).run
