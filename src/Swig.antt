-- ===== src/Swig.antt =====
-- src/bindings/SWIG/wrappers/lua_grind_wrap.cxx: the functions through which Lua code reaches the
-- kernel, its options, connections and strings. Not modelled are kernels that a script makes of its
-- own, and how SWIG links the types of several modules.
pub mod Arguments
pub mod Strings
pub mod Options
pub mod Methods
pub mod Classes
pub mod Modules
pub mod Frame
pub mod Quiet
pub mod Signature
pub mod Typed
pub mod Nil
pub mod Texts
use grind.Prelude.{ℕ, Bool, true, false, Option, none, some, List, [], ◌∷◌, Bytes, lit}
use grind.Lua.{
  Lua, Object, the_kernel, connection_at, kernel_cfg, cfg_at, boxed_string, Value, Function,
  new_string, string_size, string_length, string_empty, string_c_str, string_data, string_assign,
  feeder_interface_set, feeder_interface_get, watcher_interface_set, watcher_interface_get,
  watcher_port_set, watcher_port_get, log_level_set, log_level_get, new_kernel_cfg_t,
  kernel_cfg_set, kernel_cfg_get, kernel_is_running, kernel_is_port_available,
  kernel_is_feeder_registered, kernel_register_feeder, kernel_set_logging_threshold,
  connection_send, connection_whois,
}
use grind.Host.{Host}
use grind.World.{Heap, World, update}
use grind.World.Monad.{dangling, bad_delete, Outcome, ok, dies, M}
use grind.Swig.Arguments.{
  SwigType, connection_type, kernel_type, kernel_cfg_type, string_type, Args, Wrap,
}
use grind.Swig.Strings.{
  wrap_new_string, wrap_string_size, wrap_string_length, wrap_string_empty, wrap_string_c_str,
  wrap_string_data, wrap_string_assign, swig_delete_string,
}
use grind.Swig.Options.{
  wrap_feeder_interface_set, wrap_feeder_interface_get, wrap_watcher_interface_set,
  wrap_watcher_interface_get, wrap_watcher_port_set, wrap_watcher_port_get, wrap_log_level_set,
  wrap_log_level_get, wrap_new_kernel_cfg_t, swig_delete_kernel_cfg_t,
}
use grind.Swig.Methods.{
  wrap_kernel_cfg_set, wrap_kernel_cfg_get, wrap_kernel_is_running, wrap_kernel_is_port_available,
  wrap_kernel_is_feeder_registered, wrap_kernel_register_feeder, wrap_kernel_set_logging_threshold,
  wrap_connection_send, wrap_connection_whois,
}

-- A function that makes objects. `_wrap_new_kernel` is a function of the module, but the kernels that
-- it makes are left out.
pub data Constructor : Type 0 where
  made_by : Function → Constructor
  new_kernel : Constructor

-- A `swig_lua_class`: the constructor of its objects, its methods, and its attributes with getter
-- and setter.
pub record SwigClass : Type 0 where
  pub name : Bytes
  pub constructor : Option Constructor
  pub methods : List (Bytes × Function)
  pub attributes : List (Bytes × Function × Function)

-- The four classes, from the tables of their methods and attributes.
unfoldable pub class_of : SwigType → SwigClass
class_of string_type = record {
  name = lit "string";
  constructor = some (made_by new_string);
  methods =
      (lit "size", string_size)
      ∷ (lit "length", string_length)
      ∷ (lit "empty", string_empty)
      ∷ (lit "c_str", string_c_str)
      ∷ (lit "data", string_data)
      ∷ (lit "assign", string_assign)
      ∷ [];
  attributes = [];
}
class_of kernel_cfg_type = record {
  name = lit "kernel_cfg_t";
  constructor = some (made_by new_kernel_cfg_t);
  methods = [];
  attributes =
      (lit "feeder_interface", feeder_interface_get, feeder_interface_set)
      ∷ (lit "watcher_interface", watcher_interface_get, watcher_interface_set)
      ∷ (lit "watcher_port", watcher_port_get, watcher_port_set)
      ∷ (lit "log_level", log_level_get, log_level_set)
      ∷ [];
}
class_of kernel_type = record {
  name = lit "kernel";
  constructor = some new_kernel;
  methods =
      (lit "is_running", kernel_is_running)
      ∷ (lit "is_port_available", kernel_is_port_available)
      ∷ (lit "is_feeder_registered", kernel_is_feeder_registered)
      ∷ (lit "register_feeder", kernel_register_feeder)
      ∷ (lit "set_logging_threshold", kernel_set_logging_threshold)
      ∷ [];
  attributes = (lit "cfg", kernel_cfg_get, kernel_cfg_set) ∷ [];
}
class_of connection_type = record {
  name = lit "connection";
  constructor = none;
  methods = (lit "send", connection_send) ∷ (lit "whois", connection_whois) ∷ [];
  attributes = [];
}

module _ ⦃lua : Lua⦄ where
  -- `swig_delete_connection`, `swig_delete_kernel` and the others. The program's kernel is an
  -- object of `main`, and its options are a member of it.
  unfoldable pub destructor : Object → M (Unit {0})
  unfolding swig_delete_string swig_delete_kernel_cfg_t
  destructor the_kernel w = dies bad_delete
  destructor kernel_cfg w = dies bad_delete
  destructor (connection_at c) w = elim (w.heap.connection_at c) [
    | none ↦ dies dangling
    | some x ↦ ok tt (record w {
      heap = record (w.heap) { connection_at = update (w.heap.connection_at) c none };
    })
  ]
  destructor (cfg_at c) w = swig_delete_kernel_cfg_t c w
  destructor (boxed_string b) w = swig_delete_string b w

  -- `SWIG_Lua_class_destruct`, which Lua calls for a userdata that it collects.
  unfoldable pub class_destruct : Object → (own : Bool) → M (Unit {0})
  unfolding destructor
  class_destruct o true = destructor o
  class_destruct o false = λ w. ok tt w

  module _ ⦃host : Host⦄ where
    -- The wrapper that a name stands for.
    unfoldable pub invoke : Function → Args → Wrap Args
    invoke new_string = wrap_new_string
    invoke string_size = wrap_string_size
    invoke string_length = wrap_string_length
    invoke string_empty = wrap_string_empty
    invoke string_c_str = wrap_string_c_str
    invoke string_data = wrap_string_data
    invoke string_assign = wrap_string_assign
    invoke feeder_interface_set = wrap_feeder_interface_set
    invoke feeder_interface_get = wrap_feeder_interface_get
    invoke watcher_interface_set = wrap_watcher_interface_set
    invoke watcher_interface_get = wrap_watcher_interface_get
    invoke watcher_port_set = wrap_watcher_port_set
    invoke watcher_port_get = wrap_watcher_port_get
    invoke log_level_set = wrap_log_level_set
    invoke log_level_get = wrap_log_level_get
    invoke new_kernel_cfg_t = wrap_new_kernel_cfg_t
    invoke kernel_cfg_set = wrap_kernel_cfg_set
    invoke kernel_cfg_get = wrap_kernel_cfg_get
    invoke kernel_is_running = wrap_kernel_is_running
    invoke kernel_is_port_available = wrap_kernel_is_port_available
    invoke kernel_is_feeder_registered = wrap_kernel_is_feeder_registered
    invoke kernel_register_feeder = wrap_kernel_register_feeder
    invoke kernel_set_logging_threshold = wrap_kernel_set_logging_threshold
    invoke connection_send = wrap_connection_send
    invoke connection_whois = wrap_connection_whois
