-- ===== src/Examples/Lifecycle.antt =====
-- The kernel and the engine from their start to their end, at concrete states.
use grind.Prelude.{refl, true, false, none, some, List, [], ◌∷◌, lit}
use grind.World.{World, Connection, watcher_connection, kernel_close, update}
use grind.World.Monad.{M, pure}
use grind.Objects.{initial_connection}
use grind.Registry.Untouched.{outside}
use grind.Engine
use grind.Engine.Opening.{Opened, start-Opened}
use grind.Engine.Restarting.{Restarted, restart-Restarted}
use grind.Kernel
use grind.Kernel.Readiness.{Ready, init-Ready}
use grind.EventLoop.{Event}
use grind.CommandLine.{Options}
use grind.Program.{main}
use grind.Program.Exit.{Clean, Fits, main-Clean}
use grind.Examples.Stub.{host}
use grind.Examples.Calls.{calm, failing, registering, online}

-- A kernel with a watcher, whose scripts fail.
abbrev watched : World ⦃lua = failing⦄
watched =
    let w = online failing [] in
    let c : Connection = initial_connection watcher_connection none in
    record w {
      kernel = record (w.kernel) { running = true; connections = 0 ∷ [] };
      heap = record (w.heap) {
        connection_at =
            update (λ c. none) 0 (some (record c { close_handler = some kernel_close }));
        next_connection = 1;
      };
    }

abbrev nothing_to_stop : M ⦃lua = registering⦄ (Unit {0})
nothing_to_stop = pure ⦃lua = registering⦄ tt

abbrev offline : World ⦃lua = registering⦄
offline = Kernel.initial ⦃lua = registering⦄

start-Opened_example :
    Opened ⦃lua = registering⦄ offline.engine
      (outside ⦃lua = registering⦄ offline)
      (Engine.start ⦃lua = registering⦄ ⦃host = host⦄ nothing_to_stop (lit "grind.cfg") offline)
unfolding Kernel.initial
start-Opened_example =
    start-Opened ⦃lua = registering⦄ ⦃host = host⦄ nothing_to_stop (lit "grind.cfg") offline refl
      refl refl refl

restart-Restarted_example :
    Restarted ⦃lua = registering⦄
      (online registering []).engine
      (outside ⦃lua = registering⦄ (online registering []))
      (Engine.restart ⦃lua = registering⦄ ⦃host = host⦄ nothing_to_stop (online registering []))
unfolding Kernel.initial
restart-Restarted_example =
    restart-Restarted ⦃lua = registering⦄ ⦃host = host⦄ nothing_to_stop (online registering []) refl
      refl refl refl

init-Ready_example :
    Ready ⦃lua = registering⦄ offline
      (Kernel.init ⦃lua = registering⦄ ⦃host = host⦄ (lit "grind.cfg") offline)
unfolding Kernel.initial
init-Ready_example =
    init-Ready ⦃lua = registering⦄ ⦃host = host⦄ (lit "grind.cfg") offline refl refl refl refl refl

-- A watcher comes and sends a command.
abbrev visit : List Event
visit =
    record { index = 0; failed = false; received = none }
    ∷ record { index = 0; failed = false; received = some (lit "list") }
    ∷ []

-- `grind -c grind.cfg -l E`.
abbrev chosen : Options
chosen = record { config_file = lit "grind.cfg"; log_level = b'E' }

abbrev started : World ⦃lua = calm⦄
started =
    let w = Kernel.initial ⦃lua = calm⦄ in
    record w { kernel = record (w.kernel) { cfg = record (w.kernel.cfg) { log_level = b'E' } } }

main-Clean_example :
    Clean ⦃lua = calm⦄
      (Fits ⦃lua = calm⦄ ⦃host = host⦄
        (Kernel.init ⦃lua = calm⦄ ⦃host = host⦄ (lit "grind.cfg") started))
      (main ⦃lua = calm⦄ ⦃host = host⦄ chosen visit (Kernel.initial ⦃lua = calm⦄))
main-Clean_example = main-Clean ⦃lua = calm⦄ ⦃host = host⦄ chosen visit
