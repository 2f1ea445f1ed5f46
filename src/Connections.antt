-- ===== src/Connections.antt =====
-- src/connection.cpp: the life of a connection, and the `feeder` methods of src/kernel.cpp that
-- start, close and stop connections. Messages to the log are left out. `kernel_stop` is what a
-- failing Lua call may end in; see `Engine`.
pub mod Steady
pub mod Tidy
pub mod Buffer
pub mod Disengaging
use grind.Prelude.{
  ℕ, Bool, true, false, Option, none, some, List, [], ◌∷◌, ◌++◌, Bytes, lit, c_str, length, drop,
  ◌==◌, if◌then◌else◌,
}
use grind.Utility.{to_decimal}
use grind.Lua.{Lua, connection_at}
use grind.Host.{Host}
use grind.World.{
  Connection, feeder_connection, watcher_connection, CloseHandler, kernel_close, feeder_close,
  reading, blank,
}
use grind.World.Monad.{
  dangling, M, pure, or_die, or_throw, raise_if, ◌>>=◌, ◌>>◌, for_each, modify, os, post, feeder,
  connection, set_feeder, set_connection,
}
use grind.World.Mutex.{feeder_conn_mutex, scoped}
use grind.Bridge.{object_at}
use grind.Objects.{assign_close_handler, close_watcher}
use grind.Engine
use grind.Registry

-- `list::remove`.
unfoldable pub remove : ℕ → List ℕ → List ℕ
remove c [] = []
remove c (d ∷ ds) = if d == c then remove c ds else d ∷ remove c ds

module _ ⦃lua : Lua⦄ where
  -- `feeder::close`: it takes the feeder's mutex.
  unfoldable pub close_feed : ℕ → ℕ → M (Unit {0})
  unfolding scoped remove
  close_feed f c =
      scoped (feeder_conn_mutex f)
        do x ← feeder f; set_feeder f (some (record x { connections = remove c x.connections }))

  -- What goes when the last pointers to connections do.
  unfoldable pub destroy : List ℕ → M (Unit {0})
  unfolding Registry.holds
  destroy cs = modify λ w. record w {
    heap = record (w.heap) {
      connection_at = λ c. if Registry.holds c cs then none else w.heap.connection_at c;
    };
  }

  -- `close_handler_(shared_from_this())`. Only its feeder owns a connection of a feeder, which goes
  -- with the pointer that the call was made with; a watcher's is kept by the handler that is posted.
  unfoldable pub run_close_handler : Option CloseHandler → ℕ → M (Unit {0})
  unfolding close_feed close_watcher destroy
  run_close_handler none c = pure tt
  run_close_handler (some kernel_close) c = close_watcher c
  run_close_handler (some (feeder_close f)) c = do close_feed f c; destroy (c ∷ [])

  -- `connection::read`: the buffer is cleared and handed to the socket.
  unfoldable pub read : ℕ → M (Unit {0})
  read c = do x ← connection c; set_connection c (record x { buffer = blank }); post (reading c)

  module _ ⦃host : Host⦄ (kernel_stop : M (Unit {0})) where
    -- A call that hands the connection to Lua.
    unfoldable pub notify_watcher : Bytes → ℕ → M (Unit {0})
    notify_watcher in_func c =
        Engine.notify kernel_stop in_func
          (record { type = lit "grind::connection"; value = object_at (connection_at c) } ∷ [])

    -- The branch of `connection::start` for a watcher.
    unfoldable pub announce : ℕ → M (Unit {0})
    unfolding notify_watcher
    announce c = do
      peer ← os (λ now. host.remote_endpoint now c)
      (address, early) ← or_throw peer (lit "remote_endpoint")
      peer ← os (λ now. host.remote_endpoint now c)
      (late, port) ← or_throw peer (lit "remote_endpoint")
      x ← connection c
      set_connection c (record x {
        remote_host = address;
        remote_port = port;
        whois = address ++ b':' ∷ to_decimal port;
      })
      notify_watcher (lit "grind.add_watcher") c

    -- `connection::start`.
    unfoldable pub start : ℕ → M (Unit {0})
    unfolding announce read
    start c = do
      problem ← os (λ now. host.configure now c)
      raise_if problem
      x ← connection c
      elim x.type [ watcher_connection ↦ announce c | feeder_connection ↦ pure tt ]
      read c

    -- `connection::stop`.
    unfoldable pub stop : ℕ → M (Unit {0})
    unfolding notify_watcher run_close_handler
    stop c = do
      x ← connection c
      elim x.type [
        | watcher_connection ↦ notify_watcher (lit "grind.remove_watcher") c
        | feeder_connection ↦ pure tt
      ]
      problem ← os (λ now. host.cancel now c)
      raise_if problem
      x ← connection c
      set_connection c (record x { is_shut = true })
      run_close_handler x.close_handler c

    -- What the socket writes into the buffer: the bytes that came, over the cleared ones.
    unfoldable pub fill : Bytes → Bytes → Bytes
    fill received buffer = received ++ drop (length received) buffer

    -- `data_[BUFSZ] = '\0'; string_t data(data_);`: the write is to the byte behind the array.
    unfoldable pub text_of : Connection → Bytes
    text_of x = c_str (x.buffer ++ x.behind ∷ [])

    -- `connection::on_read`; no bytes stand for an error.
    unfoldable pub on_read : Option Bytes → ℕ → M (Unit {0})
    unfolding fill text_of read stop
    on_read none c = stop c
    on_read (some received) c = do
      x ← connection c
      let y : Connection = record x { buffer = fill received x.buffer; behind = 0 }
      set_connection c y
      elim y.type [
        | watcher_connection ↦ Engine.handle_cmd kernel_stop (text_of y) c
        | feeder_connection ↦ Engine.relay kernel_stop (text_of y) y.feeder
      ]
      read c

    -- `connection::do_send`.
    unfoldable pub do_send : Bytes → ℕ → M (Unit {0})
    unfolding stop
    do_send message c = do
      x ← connection c
      failed ← os (λ now. host.write_fails now c message)
      if failed then stop c else pure tt

    -- `feeder::on_accept`.
    unfoldable pub on_accept : (failed : Bool) → ℕ → M (Unit {0})
    unfolding start
    on_accept true f = Registry.remove_feeder f
    on_accept false f = do
      x ← feeder f
      c ← or_die x.conn dangling
      set_feeder f (some (record x { connections = x.connections ++ c ∷ [] }))
      start c
      Registry.accept f

    -- The body of the loop in `feeder::stop`.
    unfoldable pub disengage : ℕ → M (Unit {0})
    unfolding stop assign_close_handler
    disengage c = do assign_close_handler c none; stop c

    -- `feeder::stop`.
    unfoldable pub stop_feeder : ℕ → M (Unit {0})
    unfolding scoped disengage destroy
    stop_feeder f = scoped (feeder_conn_mutex f) do
      x ← feeder f
      for_each disengage x.connections
      x ← feeder f
      destroy x.connections
      x ← feeder f
      set_feeder f (some (record x { connections = [] }))
