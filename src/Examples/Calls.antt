-- ===== src/Examples/Calls.antt =====
-- Calls of Lua, and the registry.
use grind.Prelude.{◌≡◌, refl, ℤ, pos, true, false, none, some, List, [], ◌∷◌, lit, str_eq, arith}
use grind.Lua.{
  Lua, call, Value, userdata, string, number, kernel_register_feeder, the_kernel, connection_at,
}
use grind.World.{World}
use grind.World.Monad.{M, pure}
use grind.Bridge.{Argument, string_at, object_at, push_argument, push_arguments}
use grind.Engine.{pass_to_lua, stop}
use grind.Engine.Balance.{Called}
use grind.Engine.Calls.{named, pass_to_lua-Called}
use grind.Engine.Shutdown.{Stopped, stop-Stopped}
use grind.World.{update}
use grind.Engine.{relay, notify}
use grind.Engine.Arguments.{relay_arguments}
use grind.Registry.{register_feeder}
use grind.Registry.Untouched.{outside}
use grind.Registry.Registering.{Registered, register_feeder-Registered}
use grind.Kernel.{initial}
use grind.Examples.Stub.{stub, host}

-- `kernel:register_feeder("apache", 5140)`.
abbrev pub registration : List (Value ℤ)
registration = userdata the_kernel false ∷ string (lit "apache") ∷ number (pos 5140) ∷ []

-- Scripts that return, that fail, and that register a feeder.
abbrev pub calm : Lua
calm = stub false none

abbrev pub failing : Lua
failing = stub true none

abbrev pub registering : Lua
registering = stub false (some (call kernel_register_feeder registration))

-- The program with Lua open.
abbrev pub online : (lua : Lua) → lua.State → World ⦃lua = lua⦄
online lua s =
    let w : World ⦃lua = lua⦄ = initial ⦃lua = lua⦄ in
    record w { engine = record (w.engine) { lua_state = some s; running = true } }

abbrev nothing_to_stop : (lua : Lua) → M ⦃lua = lua⦄ (Unit {0})
nothing_to_stop lua = pure ⦃lua = lua⦄ tt

abbrev greeting : List Argument
greeting =
    record { type = lit "std::string"; value = string_at (lit "100") }
    ∷ record { type = lit "grind::connection"; value = object_at (connection_at 7) }
    ∷ []

pass_to_lua-Called_example :
    Called ⦃lua = failing⦄
      (online failing []).engine
      (outside ⦃lua = failing⦄ (online failing []))
      0
      (pass_to_lua ⦃lua = failing⦄ ⦃host = host⦄
        (nothing_to_stop failing)
        (lit "grind.handle_cmd")
        none
        0
        greeting
        (online failing []))
unfolding initial push_arguments push_argument str_eq
pass_to_lua-Called_example =
    pass_to_lua-Called ⦃lua = failing⦄ ⦃host = host⦄ (nothing_to_stop failing)
      (lit "grind.handle_cmd") 0 greeting (online failing []) refl refl refl refl

stop-Stopped_example :
    Stopped ⦃lua = failing⦄
      (online failing []).engine
      (outside ⦃lua = failing⦄ (online failing []))
      (stop ⦃lua = failing⦄ ⦃host = host⦄ (nothing_to_stop failing) true (online failing []))
unfolding initial
stop-Stopped_example =
    stop-Stopped ⦃lua = failing⦄ ⦃host = host⦄ (nothing_to_stop failing) (online failing []) refl
      refl refl refl

-- The feeder `apache` at the address 0.
abbrev fed : World ⦃lua = calm⦄
fed =
    let w = online calm [] in
    record w {
      heap = record (w.heap) {
        feeder_at =
            update (λ f. none) 0
              (some (record {
                label = lit "apache";
                port = pos 5140;
                conn = none;
                connections = [];
                conn_locked = false;
                acceptor_open = true;
              }));
      };
    }

relay_arguments_example :
    (arguments : List Argument) × (relay ⦃lua = calm⦄ ⦃host = host⦄
        (nothing_to_stop calm)
        (lit "10:00 GET /")
        (some 0)
        fed
      ≡ notify ⦃lua = calm⦄ ⦃host = host⦄ (nothing_to_stop calm) (lit "grind.handle") arguments fed)
    × (t : calm.State) × (push_arguments ⦃lua = calm⦄ arguments
          (named ⦃lua = calm⦄ (lit "grind.handle") [])
        ≡ some t)
    × (calm.tostring 0 t ≡ some (lit "apache"))
    × (calm.tostring 1 t ≡ some (lit "10:00 GET /"))
    × (calm.tostring 2 t ≡ some (lit "grind.handle"))
relay_arguments_example =
    relay_arguments ⦃lua = calm⦄ ⦃host = host⦄ (nothing_to_stop calm) (lit "10:00 GET /") 0
      (record {
        label = lit "apache";
        port = pos 5140;
        conn = none;
        connections = [];
        conn_locked = false;
        acceptor_open = true;
      })
      fed [] refl (omega arith) (omega arith) (omega arith) (omega arith)

register_feeder-Registered_example :
    Registered ⦃lua = calm⦄ ⦃host = host⦄
      (lit "apache")
      (pos 5140)
      (lit "syslog")
      (online calm [])
      (register_feeder ⦃lua = calm⦄ ⦃host = host⦄ (lit "apache") (pos 5140) (online calm []))
unfolding initial
register_feeder-Registered_example =
    register_feeder-Registered ⦃lua = calm⦄ ⦃host = host⦄ (lit "apache") (pos 5140) (lit "syslog")
      (online calm []) refl
