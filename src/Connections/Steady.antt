-- ===== src/Connections/Steady.antt =====
-- What connections do keeps the registry steady.
use grind.Prelude.{List, ℕ, ◌++◌, refl, true, Bytes, lit, [], ◌∷◌, Option, none, some}
use grind.Utility.{to_decimal}
use grind.Lua.{Lua}
use grind.Host.{Host}
use grind.World.{
  Connection, ConnectionType, feeder_connection, watcher_connection, CloseHandler, kernel_close,
  feeder_close, reading, closing, blank,
}
use grind.World.Monad.{M, pure}
use grind.World.Mutex.{feeder_conn_mutex}
use grind.Registry.Steady.{Safe-Unseen}
use grind.Registry.Steps.{
  Keeps, Keeps-bind, Keeps-pure, Keeps-if, Keeps-each, post-Keeps, os-Keeps, feeder-Keeps,
  connection-Keeps, or_throw-Keeps, raise_if-Keeps, set_connection-Keeps, set_feeder-Keeps,
  scoped-Keeps,
}
use grind.Objects.{assign_close_handler, close_watcher}
use grind.Engine
use grind.Engine.Steady.{notify-Keeps, relay-Keeps, handle_cmd-Keeps}
use grind.Connections.{
  remove, close_feed, run_close_handler, read, notify_watcher, announce, start, stop, fill, text_of,
  on_read, do_send, disengage, stop_feeder, destroy,
}

module _ ⦃lua : Lua⦄ (l : Bytes) (f : ℕ) where
  close_feed-Keeps : (g c : ℕ) → Keeps l f (close_feed g c)
  unfolding close_feed
  close_feed-Keeps g c =
      scoped-Keeps l f (feeder_conn_mutex g) (
        set_feeder-Keeps l f g (λ x. record x { connections = remove c x.connections }) (λ x. refl))

  pub destroy-Keeps : (cs : List ℕ) → Keeps l f (destroy cs)
  unfolding destroy
  destroy-Keeps cs = record {
    run = λ w. Safe-Unseen l f w (destroy cs w) (refl, refl, refl, refl, refl);
  }

  run_close_handler-Keeps : (h : Option CloseHandler) (c : ℕ) → Keeps l f (run_close_handler h c)
  unfolding run_close_handler close_watcher
  run_close_handler-Keeps none c = Keeps-pure l f tt
  run_close_handler-Keeps (some kernel_close) c = post-Keeps l f (closing c) refl refl
  run_close_handler-Keeps (some (feeder_close g)) c =
      Keeps-bind l f (close_feed-Keeps g c) (λ _. destroy-Keeps (c ∷ []))

  pub assign_close_handler-Keeps :
      (c : ℕ) (h : Option CloseHandler) → Keeps l f (assign_close_handler c h)
  unfolding assign_close_handler
  assign_close_handler-Keeps c h =
      Keeps-bind l f (connection-Keeps l f c) (λ x. set_connection-Keeps l f c _)

  read-Keeps : (c : ℕ) → Keeps l f (read c)
  unfolding read
  read-Keeps c = Keeps-bind l f (connection-Keeps l f c) (λ x.
      Keeps-bind l f (set_connection-Keeps l f c (record x { buffer = blank }))
        (λ _. post-Keeps l f (reading c) refl refl))

  module _ ⦃host : Host⦄ {kernel_stop : M (Unit {0})} (safe_stop : Keeps l f kernel_stop) where
    notify_watcher-Keeps :
        (in_func : Bytes) (c : ℕ) → Keeps l f (notify_watcher kernel_stop in_func c)
    unfolding notify_watcher
    notify_watcher-Keeps in_func c = notify-Keeps l f safe_stop in_func _

    announce-Keeps : (c : ℕ) → Keeps l f (announce kernel_stop c)
    unfolding announce
    announce-Keeps c = Keeps-bind l f (os-Keeps l f (λ now. host.remote_endpoint now c)) (λ peer.
        Keeps-bind l f (or_throw-Keeps l f peer (lit "remote_endpoint")) (λ (address, early).
          Keeps-bind l f (os-Keeps l f (λ now. host.remote_endpoint now c)) (λ peer.
            Keeps-bind l f (or_throw-Keeps l f peer (lit "remote_endpoint")) (λ (late, port).
              Keeps-bind l f (connection-Keeps l f c) (λ x.
                Keeps-bind l f
                  (set_connection-Keeps l f c (record x {
                    remote_host = address;
                    remote_port = port;
                    whois = address ++ b':' ∷ to_decimal port;
                  }))
                  (λ _. notify_watcher-Keeps (lit "grind.add_watcher") c))))))

    -- What is done for a watcher only.
    watcher_only-Keeps :
        (t : ConnectionType) {m : M (Unit {0})}
        → Keeps l f m
        → Keeps l f (elim t [ watcher_connection ↦ m | feeder_connection ↦ pure tt ])
    watcher_only-Keeps watcher_connection h = h
    watcher_only-Keeps feeder_connection h = Keeps-pure l f tt

    pub start-Keeps : (c : ℕ) → Keeps l f (start kernel_stop c)
    unfolding start
    start-Keeps c = Keeps-bind l f (os-Keeps l f (λ now. host.configure now c)) (λ problem.
        Keeps-bind l f (raise_if-Keeps l f problem) (λ _.
          Keeps-bind l f (connection-Keeps l f c) (λ x.
            Keeps-bind l f (watcher_only-Keeps x.type (announce-Keeps c)) (λ _. read-Keeps c))))

    pub stop-Keeps : (c : ℕ) → Keeps l f (stop kernel_stop c)
    unfolding stop
    stop-Keeps c = Keeps-bind l f (connection-Keeps l f c) (λ x.
        Keeps-bind l f
          (watcher_only-Keeps x.type (notify_watcher-Keeps (lit "grind.remove_watcher") c))
          (λ _. Keeps-bind l f (os-Keeps l f (λ now. host.cancel now c)) (λ problem.
            Keeps-bind l f (raise_if-Keeps l f problem) (λ _.
              Keeps-bind l f (connection-Keeps l f c) (λ x.
                Keeps-bind l f (set_connection-Keeps l f c (record x { is_shut = true }))
                  (λ _. run_close_handler-Keeps x.close_handler c))))))

    data_cases :
        (t : ConnectionType) {m n : M (Unit {0})}
        → Keeps l f m
        → Keeps l f n
        → Keeps l f (elim t [ watcher_connection ↦ m | feeder_connection ↦ n ])
    data_cases watcher_connection h k = h
    data_cases feeder_connection h k = k

    handle_data-Keeps :
        (y : Connection) (c : ℕ)
        → Keeps l f (elim y.type [
          | watcher_connection ↦ Engine.handle_cmd kernel_stop (text_of kernel_stop y) c
          | feeder_connection ↦ Engine.relay kernel_stop (text_of kernel_stop y) y.feeder
        ])
    handle_data-Keeps y c =
        data_cases y.type (handle_cmd-Keeps l f safe_stop _ c)
          (relay-Keeps l f safe_stop _ y.feeder)

    pub on_read-Keeps :
        (received : Option Bytes) (c : ℕ) → Keeps l f (on_read kernel_stop received c)
    unfolding on_read
    on_read-Keeps none c = stop-Keeps c
    on_read-Keeps (some received) c = Keeps-bind l f (connection-Keeps l f c) (λ x.
        let y : Connection = record x { buffer = fill kernel_stop received x.buffer; behind = 0 } in
        Keeps-bind l f (set_connection-Keeps l f c y)
          (λ _. Keeps-bind l f (handle_data-Keeps y c) (λ _. read-Keeps c)))

    pub do_send-Keeps : (message : Bytes) (c : ℕ) → Keeps l f (do_send kernel_stop message c)
    unfolding do_send
    do_send-Keeps message c = Keeps-bind l f (connection-Keeps l f c) (λ x.
        Keeps-bind l f (os-Keeps l f (λ now. host.write_fails now c message))
          (λ failed. Keeps-if l f failed (stop-Keeps c) (Keeps-pure l f tt)))

    pub stop_feeder-Keeps : (g : ℕ) → Keeps l f (stop_feeder kernel_stop g)
    unfolding stop_feeder disengage
    stop_feeder-Keeps g = scoped-Keeps l f (feeder_conn_mutex g) (
        Keeps-bind l f (feeder-Keeps l f g) (λ x.
          Keeps-bind l f
            (Keeps-each l f x.connections
              (λ c. Keeps-bind l f (assign_close_handler-Keeps c none) (λ _. stop-Keeps c)))
            (λ _. Keeps-bind l f (feeder-Keeps l f g) (λ x.
              Keeps-bind l f (destroy-Keeps x.connections)
                (λ _. set_feeder-Keeps l f g (λ x. record x { connections = [] }) (λ x. refl))))))
