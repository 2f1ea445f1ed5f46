-- ===== src/Kernel.antt =====
-- src/kernel.cpp: the kernel's own life, and its watchers. Messages to the log are left out.
pub mod Steady
pub mod Stopping
pub mod Halting
pub mod Ending
pub mod Readiness
use grind.Prelude.{
  ℕ, zero, suc, ◌==◌, Bool, true, false, not, none, some, List, [], ◌∷◌, ◌++◌, Bytes, lit,
  if◌then◌else◌,
}
use grind.Lua.{Lua}
use grind.Host.{Host}
use grind.World.{
  closing, Pending, watcher_connection, kernel_close, catch_and_throw, watcher_accept, World,
}
use grind.World.Monad.{
  dangling, out_of_fuel, ok, dies, M, pure, throw, or_die, raise_if, ◌>>=◌, ◌>>◌, gets, modify,
  try_catch, for_each, os, post, set_kernel,
}
use grind.World.Mutex.{conn_mutex, scoped}
use grind.Registry.{delete_feeder}
use grind.Objects.{new_connection, assign_close_handler}
use grind.Connections.{remove, destroy}
use grind.Connections
use grind.Engine

-- Whether a posted handler is to close a connection.
unfoldable pub closes : ℕ → List Pending → Bool
closes c [] = false
closes c (closing d ∷ ps) = let rest = closes c ps in if d == c then true else rest
closes c (p ∷ ps) = closes c ps

module _ ⦃lua : Lua⦄ where
  -- `kernel::kernel` and `script_engine::script_engine`; `threshold` is the logger's static one.
  unfoldable pub initial : World
  initial = record {
    kernel = record {
      cfg = record {
        feeder_interface = lit "0.0.0.0";
        watcher_interface = lit "0.0.0.0";
        watcher_port = lit "11142";
        log_level = b'D';
      };
      threshold = b'D';
      running = false;
      init = false;
      feeders = [];
      connections = [];
      new_watcher = none;
      conn_locked = false;
      feeder_locked = false;
    };
    engine = record {
      lua_state = none;
      stopping = false;
      running = false;
      cfg_path = [];
      error_handling = catch_and_throw;
      locked = false;
    };
    heap = record {
      feeder_at = λ f. none;
      next_feeder = 0;
      connection_at = λ c. none;
      next_connection = 0;
    };
    boxes = record { string_at = λ s. none; cfg_at = λ c. none; next_box = 0 };
    io = record { pending = []; stopped = false; now = 0 };
  }

  -- `kernel::accept_watcher`.
  unfoldable pub accept_watcher : M (Unit {0})
  unfolding new_connection assign_close_handler
  accept_watcher = do
    c ← new_connection watcher_connection none
    set_kernel λ k. record k { new_watcher = some c }
    assign_close_handler c (some kernel_close)
    post watcher_accept

  -- The body of `kernel::do_close`.
  unfoldable pub forget : ℕ → M (Unit {0})
  unfolding scoped remove
  forget c = scoped conn_mutex do set_kernel λ k. record k { connections = remove c k.connections }

  -- `kernel::do_close`. The connection goes with the last handler that holds a pointer to it.
  unfoldable pub do_close : ℕ → M (Unit {0})
  unfolding forget closes destroy
  do_close c = do
    forget c
    pending ← gets (λ w. w.io.pending)
    if closes c pending then pure tt else destroy (c ∷ [])

  -- `delete pair->second` for every feeder.
  unfoldable pub delete_feeders : List (Bytes × ℕ) → M (Unit {0})
  unfolding delete_feeder
  delete_feeders feeders = for_each (λ (l, f). delete_feeder f) feeders

  module _ ⦃host : Host⦄ where
    -- `kernel::stop`, with what a Lua call that fails in it ends in.
    unfoldable pub stop_by : M (Unit {0}) → M (Unit {0})
    stop_by kernel_stop w =
        if not w.kernel.running
        then ok tt w
        else (do
          for_each (Connections.stop kernel_stop) w.kernel.connections
          feeders ← gets (λ w. w.kernel.feeders)
          for_each (λ (l, f). Connections.stop_feeder kernel_stop f) feeders
          set_kernel λ k. record k { new_watcher = none; connections = [] }
          modify λ w. record w { io = record (w.io) { stopped = true } }
          Engine.stop kernel_stop true
          set_kernel λ k. record k { running = false })
            w

    -- The stop inside a stop inside ... of `CATCH_AND_DIE`.
    unfoldable pub nested_stop : ℕ → M (Unit {0})
    unfolding stop_by
    nested_stop zero w = dies out_of_fuel
    nested_stop (suc n) w = stop_by (nested_stop n) w

    -- Two levels are enough: a stop that is made while Lua is called comes back to Lua only with
    -- the engine's mutex locked.
    unfoldable pub stop : M (Unit {0})
    unfolding nested_stop
    stop = nested_stop 2

    -- `kernel::init`.
    unfoldable pub init : Bytes → M Bool
    unfolding stop
    init path_to_config = do
      set_kernel λ k. record k { threshold = k.cfg.log_level }
      try_catch
          (do
            Engine.start stop path_to_config
            set_init ← gets (λ w. w.engine.running)
            set_kernel λ k. record k { init = set_init }
            pure set_init)
          (λ what. pure false)

    -- `kernel::start`, up to the worker thread that runs the io_service.
    unfoldable pub start : M (Unit {0})
    unfolding accept_watcher
    start = do
      address ← gets (λ w. w.kernel.cfg.watcher_interface)
      port ← gets (λ w. w.kernel.cfg.watcher_port)
      problem ← os (λ now. host.listen now address port)
      raise_if problem
      accept_watcher
      set_kernel λ k. record k { running = true }

    -- `kernel::cleanup`.
    unfoldable pub cleanup : M (Unit {0})
    unfolding stop delete_feeders
    cleanup = do
      running ← gets (λ w. w.kernel.running)
      if running then stop else pure tt
      feeders ← gets (λ w. w.kernel.feeders)
      delete_feeders feeders
      set_kernel λ k. record k { feeders = []; init = false }

    -- `kernel::on_watcher_accepted`.
    unfoldable pub on_watcher_accepted : (failed : Bool) → M (Unit {0})
    unfolding stop accept_watcher
    on_watcher_accepted true = throw (lit "unable to accept connection, see log for more info")
    on_watcher_accepted false = do
      next ← gets (λ w. w.kernel.new_watcher)
      c ← or_die next dangling
      set_kernel λ k. record k { connections = k.connections ++ c ∷ [] }
      Connections.start stop c
      accept_watcher
