-- ===== src/Swig/Nil.antt =====
-- What the wrappers of src/bindings/SWIG/wrappers/lua_grind_wrap.cxx do with nil.
use grind.Prelude.{[], ◌∷◌, ◌≡◌, Bool, true, false, arith}
use grind.Lua.{
  Value, nil, Lua, Function, new_string, string_size, string_length, string_empty, string_c_str,
  string_data, string_assign, feeder_interface_set, feeder_interface_get, watcher_interface_set,
  watcher_interface_get, watcher_port_set, watcher_port_get, log_level_set, log_level_get,
  new_kernel_cfg_t, kernel_cfg_set, kernel_cfg_get, kernel_is_running, kernel_is_port_available,
  kernel_is_feeder_registered, kernel_register_feeder, kernel_set_logging_threshold,
  connection_send, connection_whois,
}
use grind.Host.{Host}
use grind.World.{World}
use grind.World.Monad.{ok, null_pointer, dies}
use grind.Swig.{invoke}
use grind.Swig.Arguments.{
  gives, Args, arg, check_num_args, check_arg, convert_ptr, pointer, is_ptr_type, is_string,
  is_nil_string, is_number, to_string,
}
use grind.Swig.Signature.{signatures, fits, fit, takes, has_nil}
use grind.Swig.Strings
use grind.Swig.Options
use grind.Swig.Methods
use grind.Objects

-- The setters of an option.
unfoldable pub is_setter : Function → Bool
is_setter feeder_interface_set = true
is_setter watcher_interface_set = true
is_setter watcher_port_set = true
is_setter log_level_set = true
is_setter kernel_cfg_set = true
is_setter _ = false

module _ ⦃lua : Lua⦄ ⦃host : Host⦄ where
  -- Of the functions that take nil among their arguments, all but the setters of options then read
  -- through the null pointer, whatever else they are given.
  pub invoke-nil :
      (f : Function) (args : Args) (w : World)
      → is_setter f ≡ false
      → takes (signatures f) args ≡ true
      → has_nil args ≡ true
      → invoke f args w ≡ dies null_pointer
  unfolding invoke signatures takes fit fits has_nil check_num_args check_arg pointer convert_ptr
      arg is_ptr_type is_string is_nil_string is_number to_string Strings.wrap_new_string
      Strings.wrap_new_string_0 Strings.wrap_new_string_1 Strings.new_boxed Strings.wrap_string_size
      Strings.wrap_string_length Strings.wrap_string_empty Strings.wrap_string_c_str
      Strings.wrap_string_data Strings.string_query Strings.load_string Strings.wrap_string_assign
      Strings.store_string Options.wrap_feeder_interface_set Options.wrap_feeder_interface_get
      Options.wrap_watcher_interface_set Options.wrap_watcher_interface_get
      Options.wrap_watcher_port_set Options.wrap_watcher_port_get Options.wrap_log_level_set
      Options.wrap_log_level_get Options.text_set Options.cfg_get Options.update_if
      Options.update_cfg Options.load_cfg Options.new_cfg Options.wrap_new_kernel_cfg_t
      Methods.wrap_kernel_cfg_set Methods.wrap_kernel_cfg_get Methods.assign_cfg Methods.set_cfg
      Methods.self Methods.wrap_kernel_is_running Methods.wrap_kernel_is_port_available
      Methods.wrap_kernel_is_feeder_registered Methods.wrap_kernel_register_feeder
      Methods.wrap_kernel_set_logging_threshold Methods.set_logging_threshold
      Methods.wrap_connection_send Methods.wrap_connection_whois Methods.connection_send
      Methods.connection_whois Objects.send Objects.whois is_setter
  invoke-nil new_string args w n h e = ground (arith, h, e)
  invoke-nil string_size args w n h e = ground (arith, h, e)
  invoke-nil string_length args w n h e = ground (arith, h, e)
  invoke-nil string_empty args w n h e = ground (arith, h, e)
  invoke-nil string_c_str args w n h e = ground (arith, h, e)
  invoke-nil string_data args w n h e = ground (arith, h, e)
  invoke-nil string_assign args w n h e = ground (arith, h, e)
  invoke-nil feeder_interface_get args w n h e = ground (arith, h, e)
  invoke-nil watcher_interface_get args w n h e = ground (arith, h, e)
  invoke-nil watcher_port_get args w n h e = ground (arith, h, e)
  invoke-nil log_level_get args w n h e = ground (arith, h, e)
  invoke-nil new_kernel_cfg_t args w n h e = ground (arith, h, e)
  invoke-nil kernel_cfg_get args w n h e = ground (arith, h, e)
  invoke-nil kernel_is_running args w n h e = ground (arith, h, e)
  invoke-nil kernel_is_port_available args w n h e = ground (arith, h, e)
  invoke-nil kernel_is_feeder_registered args w n h e = ground (arith, h, e)
  invoke-nil kernel_register_feeder args w n h e = ground (arith, h, e)
  invoke-nil kernel_set_logging_threshold args w n h e = ground (arith, h, e)
  invoke-nil connection_send args w n h e = ground (arith, h, e)
  invoke-nil connection_whois args w n h e = ground (arith, h, e)
  invoke-nil f args w n h e = absurd (ground (arith, n))

  -- A setter that is called on nil with a value that it takes, and that is not nil itself, returns
  -- nothing and does nothing.
  pub invoke-is_setter :
      (f : Function) (v : Value lua.Number) (w : World)
      → is_setter f ≡ true
      → takes (signatures f) (nil ∷ v ∷ []) ≡ true
      → has_nil (v ∷ []) ≡ false
      → invoke f (nil ∷ v ∷ []) w ≡ ok (gives []) w
  unfolding invoke is_setter signatures takes fit fits has_nil check_num_args check_arg pointer
      convert_ptr arg is_ptr_type is_string is_nil_string to_string
      Options.wrap_feeder_interface_set Options.wrap_watcher_interface_set
      Options.wrap_watcher_port_set Options.wrap_log_level_set Options.text_set Options.update_if
      Methods.wrap_kernel_cfg_set Methods.assign_cfg
  invoke-is_setter feeder_interface_set v w n h e = ground (arith, h, e)
  invoke-is_setter watcher_interface_set v w n h e = ground (arith, h, e)
  invoke-is_setter watcher_port_set v w n h e = ground (arith, h, e)
  invoke-is_setter log_level_set v w n h e = ground (arith, h, e)
  invoke-is_setter kernel_cfg_set v w n h e = ground (arith, h, e)
  invoke-is_setter f v w n h e = absurd (ground (arith, n))
