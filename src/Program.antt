-- ===== src/Program.antt =====
-- `main` in src/main.cpp behind its arguments: what its own thread and the kernel's threads do, one
-- after the other. The signal that ends the program comes when the loop has nothing more to do.
pub mod Lifetime
pub mod Tidy
pub mod Exit
use grind.Prelude.{ℕ, Bool, true, false, not, List, Bytes, if◌then◌else◌}
use grind.Lua.{Lua}
use grind.Host.{Host}
use grind.World.{World}
use grind.World.Monad.{M, pure, ◌>>=◌, ◌>>◌, gets, set_kernel}
use grind.EventLoop.{Event, work}
use grind.Kernel
use grind.CommandLine.{Options}

module _ ⦃lua : Lua⦄ ⦃host : Host⦄ where
  -- `kernel.cfg.log_level = ...`, for the option `-l` or its default.
  abbrev pub with_level : ℕ → M (Unit {0})
  with_level level = set_kernel λ k. record k { cfg = record (k.cfg) { log_level = level } }

  -- With the options that the argument loop has found, the kernel is initialised, started, and runs
  -- its loop; or it could not be initialised.
  unfoldable pub serve : Options → List Event → M Bool
  serve options events = do
    with_level options.log_level
    done ← Kernel.init options.config_file
    is_init ← gets (λ w. w.kernel.init)
    if not is_init then pure false else do Kernel.start; work events; pure true

  -- The end of `main`, with its exit code.
  unfoldable pub main : Options → List Event → M ℕ
  unfolding serve
  main options events = do
    served ← serve options events
    if not served then (do Kernel.cleanup; pure 1) else do
      is_running ← gets (λ w. w.kernel.running)
      if is_running then Kernel.stop else pure tt
      Kernel.cleanup
      pure 0
