-- ===== src/Objects.antt =====
-- Making connections and feeders (the constructors in src/connection.cpp and src/kernel.cpp), and
-- the accessors and posts that need no other part.
use grind.Prelude.{ℕ, ℤ, suc, false, Option, none, some, [], Bytes}
use grind.Lua.{Lua}
use grind.World.{Connection, ConnectionType, CloseHandler, Feeder, closing, sending, blank, update}
use grind.World.Monad.{M, pure, ◌>>=◌, ◌>>◌, gets, modify, post, connection, set_connection}

-- `connection::connection`; the parts that it leaves unset are cleared.
unfoldable pub initial_connection : ConnectionType → Option ℕ → Connection
initial_connection t f = record {
  type = t;
  close_handler = none;
  remote_host = [];
  remote_port = 0;
  whois = [];
  feeder = f;
  buffer = blank;
  behind = 0;
  is_shut = false;
}

-- `feeder::feeder`.
pub initial_feeder : Bytes → ℤ → Feeder
initial_feeder label port = record {
  label = label;
  port = port;
  conn = none;
  connections = [];
  conn_locked = false;
  acceptor_open = false;
}

module _ ⦃lua : Lua⦄ where
  -- `new connection(...)`: the object stands at a fresh address.
  unfoldable pub new_connection : ConnectionType → Option ℕ → M ℕ
  unfolding initial_connection
  new_connection t f = do
    c ← gets (λ w. w.heap.next_connection)
    modify λ w. record w {
      heap = record (w.heap) {
        connection_at = update (w.heap.connection_at) c (some (initial_connection t f));
        next_connection = suc c;
      };
    }
    pure c

  -- `new feeder(...)`.
  unfoldable pub new_feeder : Bytes → ℤ → M ℕ
  unfolding initial_feeder
  new_feeder label port = do
    f ← gets (λ w. w.heap.next_feeder)
    modify λ w. record w {
      heap = record (w.heap) {
        feeder_at = update (w.heap.feeder_at) f (some (initial_feeder label port));
        next_feeder = suc f;
      };
    }
    pure f

  -- `connection::assign_close_handler`; a handler of 0 is none.
  unfoldable pub assign_close_handler : ℕ → Option CloseHandler → M (Unit {0})
  assign_close_handler c h = do x ← connection c; set_connection c (record x { close_handler = h })

  -- `connection::whois`.
  unfoldable pub whois : ℕ → M Bytes
  whois c = do x ← connection c; pure x.whois

  -- `connection::send`: the message is written later, from the connection's strand.
  unfoldable pub send : ℕ → Bytes → M (Unit {0})
  send c message = post (sending c message)

  -- `kernel::close`: the connection is taken off the list later, from the kernel's strand.
  unfoldable pub close_watcher : ℕ → M (Unit {0})
  close_watcher c = post (closing c)
