-- ===== src/Swig/Quiet.antt =====
-- What each wrapper of src/bindings/SWIG/wrappers/lua_grind_wrap.cxx leaves alone.
use grind.Prelude.{ℕ, ℤ, Bool, true, false, Option, none, some, [], ◌∷◌, Bytes, arith}
use grind.Lua.{
  Lua, Object, the_kernel, connection_at, kernel_cfg, cfg_at, boxed_string, Function, new_string,
  string_size, string_length, string_empty, string_c_str, string_data, string_assign,
  feeder_interface_set, feeder_interface_get, watcher_interface_set, watcher_interface_get,
  watcher_port_set, watcher_port_get, log_level_set, log_level_get, new_kernel_cfg_t,
  kernel_cfg_set, kernel_cfg_get, kernel_is_running, kernel_is_port_available,
  kernel_is_feeder_registered, kernel_register_feeder, kernel_set_logging_threshold,
  connection_send, connection_whois,
}
use grind.Host.{Host}
use grind.World.{Cfg, World, update}
use grind.World.Monad.{Fault, dangling, ok, dies, gets}
use grind.Registry.{is_port_available, is_feeder_registered, register_feeder}
use grind.Registry.Untouched.{Quiet}
use grind.Swig.{invoke, class_destruct, destructor}
use grind.Swig.Arguments.{Args}
use grind.Swig.Frame.{Frame, Quietly, quiet_rules}
use grind.Swig.Strings
use grind.Swig.Options
use grind.Swig.Methods
use grind.Objects

module _ ⦃lua : Lua⦄ ⦃host : Host⦄ {R : World → World → Type 0} {D : World → Fault → Type 0}
    (frame : Frame R D) where
  new_boxed-Quietly : (s : Bytes) → Quietly frame (Strings.new_boxed s)
  unfolding Strings.new_boxed
  new_boxed-Quietly s = record { run = λ w. frame.boxes w _ }

  load_string-Quietly : (o : Object) → Quietly frame (Strings.load_string o)
  unfolding Strings.load_string
  load_string-Quietly (boxed_string b) = record {
    run = λ w. ground (arith, frame.dangle w, frame.order.same w);
  }
  load_string-Quietly o = record { run = λ w. frame.dangle w }

  store_string-Quietly : (o : Object) (s : Bytes) → Quietly frame (Strings.store_string o s)
  unfolding Strings.store_string
  store_string-Quietly (boxed_string b) s = record {
    run = λ w. ground (
      arith,
      frame.dangle w,
      frame.boxes w (record (w.boxes) { string_at = update (w.boxes.string_at) b (some s) }),
    );
  }
  store_string-Quietly o s = record { run = λ w. frame.dangle w }

  new_cfg-Quietly : Quietly frame Options.new_cfg
  unfolding Options.new_cfg
  new_cfg-Quietly = record { run = λ w. frame.boxes w _ }

  load_cfg-Quietly : (o : Object) → Quietly frame (Options.load_cfg o)
  unfolding Options.load_cfg
  load_cfg-Quietly kernel_cfg = record { run = λ w. frame.order.same w }
  load_cfg-Quietly (cfg_at c) = record {
    run = λ w. ground (arith, frame.dangle w, frame.order.same w);
  }
  load_cfg-Quietly o = record { run = λ w. frame.dangle w }

  update_cfg-Quiet :
      (change : Cfg → Cfg) (c : ℕ) (w : World) (x : Option Cfg)
      → Quiet R D w (elim x [
        | none ↦ dies dangling
        | some y ↦ ok tt (record w {
          boxes = record (w.boxes) { cfg_at = update (w.boxes.cfg_at) c (some (change y)) };
        })
      ])
  update_cfg-Quiet change c w none = frame.dangle w
  update_cfg-Quiet change c w (some y) = frame.boxes w _

  update_if-Quietly :
      (change : Cfg → Cfg) (o : Option Object) → Quietly frame (Options.update_if change o)
  unfolding Options.update_if Options.update_cfg
  update_if-Quietly change none = record { run = λ w. frame.order.same w }
  update_if-Quietly change (some kernel_cfg) = record {
    run = λ w. frame.options w (change (w.kernel.cfg)) (w.kernel.threshold);
  }
  update_if-Quietly change (some (cfg_at c)) = record {
    run = λ w. update_cfg-Quiet change c w (w.boxes.cfg_at c);
  }
  update_if-Quietly change (some o) = record { run = λ w. frame.dangle w }

  string_query-Quietly :
      (func_name func : Bytes) (results : Bytes → Args) (args : Args)
      → Quietly frame (Strings.string_query func_name func results args)
  unfolding Strings.string_query
  string_query-Quietly func_name func results args =
      search (quiet_rules, load_string-Quietly) depth 20

  new_string_0-Quietly : (args : Args) → Quietly frame (Strings.wrap_new_string_0 args)
  unfolding Strings.wrap_new_string_0
  new_string_0-Quietly args = search (quiet_rules, new_boxed-Quietly) depth 20

  new_string_1-Quietly : (args : Args) → Quietly frame (Strings.wrap_new_string_1 args)
  unfolding Strings.wrap_new_string_1
  new_string_1-Quietly args = search (quiet_rules, new_boxed-Quietly) depth 20

  new_string-Quietly : (args : Args) → Quietly frame (Strings.wrap_new_string args)
  unfolding Strings.wrap_new_string
  new_string-Quietly [] = record { run = λ w. (new_string_0-Quietly []).run w }
  new_string-Quietly (v ∷ []) = record {
    run = λ w. ground (arith, (new_string_1-Quietly (v ∷ [])).run w, frame.order.same w);
  }
  new_string-Quietly (v ∷ u ∷ args) = record { run = λ w. frame.order.same w }

  string_assign-Quietly : (args : Args) → Quietly frame (Strings.wrap_string_assign args)
  unfolding Strings.wrap_string_assign
  string_assign-Quietly args = search (quiet_rules, store_string-Quietly) depth 30

  text_set-Quietly :
      (func_name func : Bytes) (change : Bytes → Cfg → Cfg) (args : Args)
      → Quietly frame (Options.text_set func_name func change args)
  unfolding Options.text_set
  text_set-Quietly func_name func change args = search (quiet_rules, update_if-Quietly) depth 30

  cfg_get-Quietly :
      (func_name func : Bytes) (result : Cfg → Bytes) (args : Args)
      → Quietly frame (Options.cfg_get func_name func result args)
  unfolding Options.cfg_get
  cfg_get-Quietly func_name func result args = search (quiet_rules, load_cfg-Quietly) depth 30

  log_level_set-Quietly : (args : Args) → Quietly frame (Options.wrap_log_level_set args)
  unfolding Options.wrap_log_level_set
  log_level_set-Quietly args = search (quiet_rules, update_if-Quietly) depth 30

  new_kernel_cfg_t-Quietly : (args : Args) → Quietly frame (Options.wrap_new_kernel_cfg_t args)
  unfolding Options.wrap_new_kernel_cfg_t
  new_kernel_cfg_t-Quietly args = search (quiet_rules, new_cfg-Quietly) depth 20

  set_cfg-Quietly : (c : Cfg) → Quietly frame (Methods.set_cfg c)
  unfolding Methods.set_cfg
  set_cfg-Quietly c = record { run = λ w. frame.options w c (w.kernel.threshold) }

  assign_cfg-Quietly : (p q : Option Object) → Quietly frame (Methods.assign_cfg p q)
  unfolding Methods.assign_cfg
  assign_cfg-Quietly none q = search quiet_rules
  assign_cfg-Quietly (some o) q = search (quiet_rules, load_cfg-Quietly, set_cfg-Quietly) depth 20

  self-Quietly : (func : Bytes) (args : Args) → Quietly frame (Methods.self func args)
  unfolding Methods.self
  self-Quietly func args = search quiet_rules depth 20

  running-Quietly : Quietly frame (gets λ w. w.kernel.running)
  running-Quietly = record { run = λ w. frame.order.same w }

  is_port_available-Quietly : (p : ℤ) → Quietly frame (is_port_available p)
  is_port_available-Quietly p = record { run = frame.available p }

  is_feeder_registered-Quietly : (label : Bytes) → Quietly frame (is_feeder_registered label)
  is_feeder_registered-Quietly label = record { run = frame.registered label }

  register_feeder-Quietly : (label : Bytes) (p : ℤ) → Quietly frame (register_feeder label p)
  register_feeder-Quietly label p = record { run = frame.registers label p }

  set_logging_threshold-Quietly : (c : ℕ) → Quietly frame (Methods.set_logging_threshold c)
  unfolding Methods.set_logging_threshold
  set_logging_threshold-Quietly c = record {
    run = λ w. frame.options w (record (w.kernel.cfg) { log_level = c }) c;
  }

  send-Quietly : (o : Object) (message : Bytes) → Quietly frame (Methods.connection_send o message)
  unfolding Methods.connection_send Objects.send
  send-Quietly (connection_at c) message = record {
    run = λ w. ground (arith, frame.dangle w, frame.sends w c message);
  }
  send-Quietly o message = record { run = λ w. frame.dangle w }

  whois-Quietly : (o : Object) → Quietly frame (Methods.connection_whois o)
  unfolding Methods.connection_whois Objects.whois
  whois-Quietly (connection_at c) = record {
    run = λ w. ground (arith, frame.dangle w, frame.order.same w);
  }
  whois-Quietly o = record { run = λ w. frame.dangle w }

  -- Every wrapper respects the relation, and throws nothing.
  pub invoke-Quietly : (f : Function) (args : Args) → Quietly frame (invoke f args)
  unfolding invoke Strings.wrap_string_size Strings.wrap_string_length Strings.wrap_string_empty
      Strings.wrap_string_c_str Strings.wrap_string_data Options.wrap_feeder_interface_set
      Options.wrap_feeder_interface_get Options.wrap_watcher_interface_set
      Options.wrap_watcher_interface_get Options.wrap_watcher_port_set Options.wrap_watcher_port_get
      Options.wrap_log_level_get Methods.wrap_kernel_cfg_set Methods.wrap_kernel_cfg_get
      Methods.wrap_kernel_is_running Methods.wrap_kernel_is_port_available
      Methods.wrap_kernel_is_feeder_registered Methods.wrap_kernel_register_feeder
      Methods.wrap_kernel_set_logging_threshold Methods.wrap_connection_send
      Methods.wrap_connection_whois
  invoke-Quietly new_string args = new_string-Quietly args
  invoke-Quietly string_size args = string_query-Quietly _ _ _ args
  invoke-Quietly string_length args = string_query-Quietly _ _ _ args
  invoke-Quietly string_empty args = string_query-Quietly _ _ _ args
  invoke-Quietly string_c_str args = string_query-Quietly _ _ _ args
  invoke-Quietly string_data args = string_query-Quietly _ _ _ args
  invoke-Quietly string_assign args = string_assign-Quietly args
  invoke-Quietly feeder_interface_set args = text_set-Quietly _ _ _ args
  invoke-Quietly feeder_interface_get args = cfg_get-Quietly _ _ _ args
  invoke-Quietly watcher_interface_set args = text_set-Quietly _ _ _ args
  invoke-Quietly watcher_interface_get args = cfg_get-Quietly _ _ _ args
  invoke-Quietly watcher_port_set args = text_set-Quietly _ _ _ args
  invoke-Quietly watcher_port_get args = cfg_get-Quietly _ _ _ args
  invoke-Quietly log_level_set args = log_level_set-Quietly args
  invoke-Quietly log_level_get args = cfg_get-Quietly _ _ _ args
  invoke-Quietly new_kernel_cfg_t args = new_kernel_cfg_t-Quietly args
  invoke-Quietly kernel_cfg_set args = search (quiet_rules, assign_cfg-Quietly) depth 30
  invoke-Quietly kernel_cfg_get args = search (quiet_rules, self-Quietly) depth 30
  invoke-Quietly kernel_is_running args =
      search (quiet_rules, self-Quietly, running-Quietly) depth 30
  invoke-Quietly kernel_is_port_available args =
      search (quiet_rules, self-Quietly, is_port_available-Quietly) depth 30
  invoke-Quietly kernel_is_feeder_registered args =
      search (quiet_rules, is_feeder_registered-Quietly) depth 30
  invoke-Quietly kernel_register_feeder args =
      search (quiet_rules, register_feeder-Quietly) depth 30
  invoke-Quietly kernel_set_logging_threshold args =
      search (quiet_rules, set_logging_threshold-Quietly) depth 30
  invoke-Quietly connection_send args = search (quiet_rules, send-Quietly) depth 30
  invoke-Quietly connection_whois args = search (quiet_rules, whois-Quietly) depth 30

  destructor-Quietly : (o : Object) → Quietly frame (destructor o)
  unfolding destructor Strings.swig_delete_string Options.swig_delete_kernel_cfg_t
  destructor-Quietly the_kernel = record { run = λ w. frame.delete w }
  destructor-Quietly kernel_cfg = record { run = λ w. frame.delete w }
  destructor-Quietly (connection_at c) = record {
    run = λ w.
        ground (arith, frame.dangle w, frame.connections w (update (w.heap.connection_at) c none));
  }
  destructor-Quietly (cfg_at c) = record {
    run = λ w. ground (
      arith,
      frame.dangle w,
      frame.boxes w (record (w.boxes) { cfg_at = update (w.boxes.cfg_at) c none }),
    );
  }
  destructor-Quietly (boxed_string b) = record {
    run = λ w. ground (
      arith,
      frame.dangle w,
      frame.boxes w (record (w.boxes) { string_at = update (w.boxes.string_at) b none }),
    );
  }

  -- So does the collection of an object.
  pub class_destruct-Quietly : (o : Object) (own : Bool) → Quietly frame (class_destruct o own)
  unfolding class_destruct
  class_destruct-Quietly o true = destructor-Quietly o
  class_destruct-Quietly o false = record { run = λ w. frame.order.same w }
