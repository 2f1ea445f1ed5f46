-- ===== src/Connections/Tidy.antt =====
-- The mutexes over what connections do: src/connection.cpp and the feeder methods of src/kernel.cpp.
use grind.Prelude.{
  List, [], ℕ, ◌≡◌, ◌++◌, true, false, Option-cases, inl, inr, Bytes, lit, ◌∷◌, Option, none, some,
  arith,
}
use grind.Utility.{to_decimal}
use grind.Lua.{Lua}
use grind.Host.{Host}
use grind.World.{
  Connection, ConnectionType, feeder_connection, watcher_connection, CloseHandler, kernel_close,
  feeder_close, Feeder, World, update, reading, closing, blank,
}
use grind.World.Monad.{ok, M, pure, dies, dangling}
use grind.World.Mutex.{lock, unlock, release, scoped}
use grind.World.Tidy.{
  held_at, Free, Free-bind, Free-pure, Free-if, Free-post, Free-os, Free-connection, Free-or_throw,
  Free-raise_if, Free-set_connection,
}
use grind.Objects.{assign_close_handler, close_watcher}
use grind.Engine
use grind.Engine.Tidy.{notify-Free, relay-Free, handle_cmd-Free}
use grind.Connections.{
  remove, close_feed, run_close_handler, read, notify_watcher, announce, start, stop, fill, text_of,
  on_read, do_send, destroy,
}

module _ ⦃lua : Lua⦄ where
  -- What `feeder::close` leaves: the mutex has been taken and freed.
  closed : (f c : ℕ) → Feeder → World → World
  closed f c x w =
      let at = w.heap.feeder_at in
      let y : Feeder = record x { conn_locked = true } in
      let z : Feeder = record y { connections = remove c x.connections } in
      record w {
        heap = record (w.heap) {
          feeder_at =
              update (update (update at f (some y)) f (some z)) f
                (some (record z { conn_locked = false }));
        };
      }

  close_feed-closed :
      (f c : ℕ) (w : World) (x : Feeder)
      → w.heap.feeder_at f ≡ some x
      → x.conn_locked ≡ false
      → close_feed f c w ≡ ok tt (closed f c x w)
  unfolding close_feed scoped lock unlock release closed
  close_feed-closed f c w x e h = ground (arith, e, h)

  close_feed-dangling :
      (f c : ℕ) (w : World) → w.heap.feeder_at f ≡ none → close_feed f c w ≡ dies dangling
  unfolding close_feed scoped lock unlock release
  close_feed-dangling f c w e = ground (arith, e)

  held_at-closed :
      (f c g : ℕ) (w : World) (x : Feeder)
      → held_at g w ≡ false
      → held_at g (closed f c x w) ≡ false
  unfolding closed
  held_at-closed f c g w x h = ground (arith, h)

  close_feed-Free : (f c : ℕ) → Free false (close_feed f c)
  unfolding closed
  close_feed-Free f c = record {
    run = λ w t. elim (Option-cases (w.heap.feeder_at f)) [
      | inl e ↦ rw (close_feed-dangling f c w e) (ground arith)
      | inr (x, e) ↦
          rw (close_feed-closed f c w x e (ground (arith, e, t.4 f)))
            (t.0, t.1, t.2, t.3, λ g. held_at-closed f c g w x (t.4 g))
    ];
  }

  pub destroy-Free : (cs : List ℕ) → Free false (destroy cs)
  unfolding destroy
  destroy-Free cs = record { run = λ w t. t }

  run_close_handler-Free : (h : Option CloseHandler) (c : ℕ) → Free false (run_close_handler h c)
  unfolding run_close_handler close_watcher
  run_close_handler-Free none c = Free-pure false tt
  run_close_handler-Free (some kernel_close) c = Free-post false (closing c)
  run_close_handler-Free (some (feeder_close g)) c =
      Free-bind false (close_feed-Free g c) (λ _. destroy-Free (c ∷ []))

  pub assign_close_handler-Free :
      (c : ℕ) (h : Option CloseHandler) → Free false (assign_close_handler c h)
  unfolding assign_close_handler
  assign_close_handler-Free c h =
      Free-bind false (Free-connection false c) (λ x. Free-set_connection false c _)

  read-Free : (c : ℕ) → Free false (read c)
  unfolding read
  read-Free c = Free-bind false (Free-connection false c) (λ x.
      Free-bind false (Free-set_connection false c (record x { buffer = blank }))
        (λ _. Free-post false (reading c)))

  module _ ⦃host : Host⦄ (kernel_stop : M (Unit {0})) where
    notify_watcher-Free :
        (in_func : Bytes) (c : ℕ) → Free false (notify_watcher kernel_stop in_func c)
    unfolding notify_watcher
    notify_watcher-Free in_func c = notify-Free kernel_stop in_func _

    announce-Free : (c : ℕ) → Free false (announce kernel_stop c)
    unfolding announce
    announce-Free c = Free-bind false (Free-os false (λ now. host.remote_endpoint now c)) (λ peer.
        Free-bind false (Free-or_throw false peer (lit "remote_endpoint")) (λ (address, early).
          Free-bind false (Free-os false (λ now. host.remote_endpoint now c)) (λ peer.
            Free-bind false (Free-or_throw false peer (lit "remote_endpoint")) (λ (late, port).
              Free-bind false (Free-connection false c) (λ x.
                Free-bind false
                  (Free-set_connection false c (record x {
                    remote_host = address;
                    remote_port = port;
                    whois = address ++ b':' ∷ to_decimal port;
                  }))
                  (λ _. notify_watcher-Free (lit "grind.add_watcher") c))))))

    -- What is done for a watcher only.
    watcher_only-Free :
        (t : ConnectionType) {m : M (Unit {0})}
        → Free false m
        → Free false (elim t [ watcher_connection ↦ m | feeder_connection ↦ pure tt ])
    watcher_only-Free watcher_connection h = h
    watcher_only-Free feeder_connection h = Free-pure false tt

    pub start-Free : (c : ℕ) → Free false (start kernel_stop c)
    unfolding start
    start-Free c = Free-bind false (Free-os false (λ now. host.configure now c)) (λ problem.
        Free-bind false (Free-raise_if false problem) (λ _.
          Free-bind false (Free-connection false c)
            (λ x. Free-bind false (watcher_only-Free x.type (announce-Free c)) (λ _. read-Free c))))

    pub stop-Free : (c : ℕ) → Free false (stop kernel_stop c)
    unfolding stop
    stop-Free c = Free-bind false (Free-connection false c) (λ x.
        Free-bind false
          (watcher_only-Free x.type (notify_watcher-Free (lit "grind.remove_watcher") c))
          (λ _. Free-bind false (Free-os false (λ now. host.cancel now c)) (λ problem.
            Free-bind false (Free-raise_if false problem) (λ _.
              Free-bind false (Free-connection false c) (λ x.
                Free-bind false (Free-set_connection false c (record x { is_shut = true }))
                  (λ _. run_close_handler-Free x.close_handler c))))))

    data_cases :
        (t : ConnectionType) {m n : M (Unit {0})}
        → Free false m
        → Free false n
        → Free false (elim t [ watcher_connection ↦ m | feeder_connection ↦ n ])
    data_cases watcher_connection h k = h
    data_cases feeder_connection h k = k

    handle_data-Free :
        (y : Connection) (c : ℕ)
        → Free false (elim y.type [
          | watcher_connection ↦ Engine.handle_cmd kernel_stop (text_of kernel_stop y) c
          | feeder_connection ↦ Engine.relay kernel_stop (text_of kernel_stop y) y.feeder
        ])
    handle_data-Free y c =
        data_cases y.type (handle_cmd-Free kernel_stop _ c) (relay-Free kernel_stop _ y.feeder)

    pub on_read-Free :
        (received : Option Bytes) (c : ℕ) → Free false (on_read kernel_stop received c)
    unfolding on_read
    on_read-Free none c = stop-Free c
    on_read-Free (some received) c = Free-bind false (Free-connection false c) (λ x.
        let y : Connection = record x { buffer = fill kernel_stop received x.buffer; behind = 0 } in
        Free-bind false (Free-set_connection false c y)
          (λ _. Free-bind false (handle_data-Free y c) (λ _. read-Free c)))

    pub do_send-Free : (message : Bytes) (c : ℕ) → Free false (do_send kernel_stop message c)
    unfolding do_send
    do_send-Free message c = Free-bind false (Free-connection false c) (λ x.
        Free-bind false (Free-os false (λ now. host.write_fails now c message))
          (λ failed. Free-if false failed (stop-Free c) (Free-pure false tt)))
