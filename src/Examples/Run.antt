-- ===== src/Examples/Run.antt =====
-- The run of the whole program, the buffer of a connection and the end of a feeder, at concrete
-- inputs.
use grind.Prelude.{
  ◌≡◌, refl, pos, arith, length, c_str, none, some, [], ◌∷◌, List, Bytes, lit, false, true,
}
use grind.EventLoop.{Event}
use grind.EventLoop.Turns.{EndsSound}
use grind.World.{Connection, watcher_connection, bufsz, blank, reading}
use grind.Objects.{initial_connection}
use grind.Connections.{read, on_read}
use grind.Connections.Buffer.{delivered, filled, on_read-read}
use grind.World.{feeder_connection, feeder_close, Feeder, World, update}
use grind.Connections.{stop_feeder}
use grind.Connections.Disengaging.{IsStopped, stop_feeder-IsStopped}
use grind.Kernel
use grind.CommandLine.{Options}
use grind.Program.{serve}
use grind.Program.Lifetime.{serve-EndsSound}
use grind.Program.Tidy.{serve-EndsTidy}
use grind.World.Tidy.{EndsTidy}
use grind.Examples.Stub.{host}
use grind.Examples.Calls.{registering}

-- The script registers a feeder whenever it is called. The feeder's first accept fails, the feeder is dropped, a watcher comes and sends a command.
abbrev visit : List Event
visit =
    record { index = 0; failed = true; received = none }
    ∷ record { index = 1; failed = false; received = none }
    ∷ record { index = 0; failed = false; received = none }
    ∷ record { index = 1; failed = false; received = some (lit "list") }
    ∷ []

-- `grind -c grind.cfg -l E`.
abbrev chosen : Options
chosen = record { config_file = lit "grind.cfg"; log_level = b'E' }

serve-EndsSound_example :
    EndsSound ⦃lua = registering⦄
      (serve ⦃lua = registering⦄ ⦃host = host⦄ chosen visit (Kernel.initial ⦃lua = registering⦄))
serve-EndsSound_example = serve-EndsSound ⦃lua = registering⦄ ⦃host = host⦄ chosen visit

serve-EndsTidy_example :
    EndsTidy ⦃lua = registering⦄ false
      (serve ⦃lua = registering⦄ ⦃host = host⦄ chosen visit (Kernel.initial ⦃lua = registering⦄))
serve-EndsTidy_example = serve-EndsTidy ⦃lua = registering⦄ ⦃host = host⦄ chosen visit

-- A watcher that has sent nothing yet.
abbrev watcher : Connection
watcher = initial_connection watcher_connection none

-- The watcher at the address 0, with the rest of an earlier command in its buffer.
abbrev reader : Connection
reader = record watcher { buffer = lit "an earlier command"; behind = 7 }

abbrev waits : World ⦃lua = registering⦄
waits =
    let w = Kernel.initial ⦃lua = registering⦄ in
    record w { heap = record (w.heap) { connection_at = update (λ c. none) 0 (some reader) } }

abbrev reads : World ⦃lua = registering⦄
reads = record waits {
  heap = record (waits.heap) {
    connection_at = update (waits.heap.connection_at) 0 (some (record reader { buffer = blank }));
  };
  io = record (waits.io) { pending = reading 0 ∷ [] };
}

on_read-read_example :
    (buffer : Bytes) × (length buffer ≡ bufsz)
    × (on_read ⦃lua = registering⦄ ⦃host = host⦄
          (Kernel.stop ⦃lua = registering⦄ ⦃host = host⦄)
          (some (lit "list"))
          0
          reads
        ≡ delivered ⦃lua = registering⦄ ⦃host = host⦄
            (Kernel.stop ⦃lua = registering⦄ ⦃host = host⦄)
            0
            (record reader { buffer = blank })
            (c_str (lit "list"))
            (filled ⦃lua = registering⦄ ⦃host = host⦄
              (Kernel.stop ⦃lua = registering⦄ ⦃host = host⦄)
              0
              (record reader { buffer = blank })
              buffer
              reads))
unfolding read Kernel.initial
on_read-read_example =
    on_read-read ⦃lua = registering⦄ ⦃host = host⦄ (Kernel.stop ⦃lua = registering⦄ ⦃host = host⦄) 0
      reader (lit "list") waits reads reads refl refl refl (omega arith)

-- A feeder with one connection, which would call it back.
abbrev apache : Feeder
apache = record {
  label = lit "apache";
  port = pos 5140;
  conn = none;
  connections = 0 ∷ [];
  conn_locked = false;
  acceptor_open = true;
}

abbrev feeding : World ⦃lua = registering⦄
feeding =
    let w = Kernel.initial ⦃lua = registering⦄ in
    let c : Connection = initial_connection feeder_connection (some 0) in
    record w {
      heap = record (w.heap) {
        feeder_at = update (λ f. none) 0 (some apache);
        next_feeder = 1;
        connection_at =
            update (λ c. none) 0 (some (record c { close_handler = some (feeder_close 0) }));
        next_connection = 1;
      };
    }

stop_feeder-IsStopped_example :
    IsStopped ⦃lua = registering⦄ ⦃host = host⦄
      (Kernel.stop ⦃lua = registering⦄ ⦃host = host⦄)
      0
      apache
      feeding
      (stop_feeder ⦃lua = registering⦄ ⦃host = host⦄
        (Kernel.stop ⦃lua = registering⦄ ⦃host = host⦄)
        0
        feeding)
unfolding initial_connection
stop_feeder-IsStopped_example =
    stop_feeder-IsStopped ⦃lua = registering⦄ ⦃host = host⦄
      (Kernel.stop ⦃lua = registering⦄ ⦃host = host⦄) (λ now c. refl) 0 feeding apache refl refl
      (
        (
          record (initial_connection feeder_connection (some 0)) {
            close_handler = some (feeder_close 0);
          },
          refl,
          refl,
        ),
        tt,
      )
