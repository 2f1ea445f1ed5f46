-- ===== src/Swig/Typed.antt =====
-- How the wrappers of src/bindings/SWIG/wrappers/lua_grind_wrap.cxx treat the arguments they get.
use grind.Prelude.{
  ℕ, ℤ, ◌≡◌, refl, Bool, true, false, Option-cases, List, [], ◌∷◌, Bytes, inl, inr, arith,
}
use grind.Lua.{
  Lua, Function, new_string, string_size, string_length, string_empty, string_c_str, string_data,
  string_assign, feeder_interface_set, feeder_interface_get, watcher_interface_set,
  watcher_interface_get, watcher_port_set, watcher_port_get, log_level_set, log_level_get,
  new_kernel_cfg_t, kernel_cfg_set, kernel_cfg_get, kernel_is_running, kernel_is_port_available,
  kernel_is_feeder_registered, kernel_register_feeder, kernel_set_logging_threshold,
  connection_send, connection_whois,
}
use grind.Host.{Host}
use grind.World.{World}
use grind.World.Monad.{dangling, deadlock, Outcome, ok, throws, dies}
use grind.Swig.{invoke}
use grind.Swig.Arguments.{
  Args, arg, check_num_args, check_arg, convert_ptr, pointer, is_ptr_type, is_string, is_nil_string,
  is_number, to_string, to_number,
}
use grind.Swig.Signature.{signatures, arity, fits, fit, takes, has_nil, Typed}
use grind.Swig.Strings
use grind.Swig.Options
use grind.Swig.Methods
use grind.Objects
use grind.Registry.{ports_differ, is_feeder_registered, register_feeder}
use grind.Registry.Registering.{Registered, register_feeder-Registered}
use grind.Registry
use grind.Registry.Untouched.{Quiet}

module _ ⦃lua : Lua⦄ where
  -- Nothing is thrown, and only the mutex of the feeders, held already, stops the call.
  abbrev Prompt : {A : Type 0} → World → Outcome A → Type 0
  Prompt w x = Quiet (λ v u. Unit {0}) (λ v f. (f ≡ deadlock) × (v.kernel.feeder_locked ≡ true)) w x

  is_feeder_registered-Prompt :
      (b : Bool) (label : Bytes) (w : World)
      → w.kernel.feeder_locked ≡ b
      → Prompt w (is_feeder_registered label w)
  unfolding is_feeder_registered
  is_feeder_registered-Prompt true label w e = rw e (refl, refl)
  is_feeder_registered-Prompt false label w e = rw e tt

  -- Only a dangling pointer or the mutex of the feeders stops the query.
  ports_differ-Tame :
      (port : ℤ) (m : List (Bytes × ℕ)) (w : World)
      → Quiet (λ v u. Unit {0}) (λ v f. f ≡ dangling) w (ports_differ port m w)
  unfolding ports_differ
  ports_differ-Tame port [] w = tt
  ports_differ-Tame port ((l, f) ∷ m) w = ground (arith, ports_differ-Tame port m w)

  module _ ⦃host : Host⦄ where
    register_feeder-Prompt :
        (b : Bool) (label : Bytes) (port : ℤ) (w : World)
        → w.kernel.feeder_locked ≡ b
        → Prompt w (register_feeder label port w)
    unfolding register_feeder
    register_feeder-Prompt true label port w e = rw e (refl, refl)
    register_feeder-Prompt false label port w e =
        Registered-Prompt (register_feeder label port w)
          (register_feeder-Registered label port [] w e)
      where
        Registered-Prompt : (x : Outcome Bool) → Registered label port [] w x → Prompt w x
        Registered-Prompt (ok true v) r = tt
        Registered-Prompt (ok false v) r = tt
        Registered-Prompt (throws what v) r = r
        Registered-Prompt (dies f) r = absurd r

    -- A function either takes its arguments, or raises an error and changes nothing. If it takes
    -- them, it returns as many results as it should: it neither raises an error nor lets an exception
    -- out; it dies only of a dangling pointer, of the null pointer when one of the arguments is nil,
    -- or of a deadlock when the mutex of the feeders is held.
    pub invoke-Typed :
        (f : Function) (args : Args) (w : World)
        → Typed (takes (signatures f) args) (arity f) args w (invoke f args w)
    unfolding invoke signatures arity takes fit fits has_nil check_num_args check_arg pointer
        convert_ptr arg is_ptr_type is_string is_nil_string is_number to_string
        Strings.wrap_new_string Strings.wrap_new_string_0 Strings.wrap_new_string_1
        Strings.new_boxed Strings.wrap_string_size Strings.wrap_string_length
        Strings.wrap_string_empty Strings.wrap_string_c_str Strings.wrap_string_data
        Strings.string_query Strings.load_string Strings.wrap_string_assign Strings.store_string
        Options.wrap_feeder_interface_set Options.wrap_feeder_interface_get
        Options.wrap_watcher_interface_set Options.wrap_watcher_interface_get
        Options.wrap_watcher_port_set Options.wrap_watcher_port_get Options.wrap_log_level_set
        Options.wrap_log_level_get Options.text_set Options.cfg_get Options.update_if
        Options.update_cfg Options.load_cfg Options.new_cfg Options.wrap_new_kernel_cfg_t
        Methods.wrap_kernel_cfg_set Methods.wrap_kernel_cfg_get Methods.assign_cfg Methods.set_cfg
        Methods.self Methods.wrap_kernel_is_running Methods.wrap_kernel_is_port_available
        Methods.wrap_kernel_is_feeder_registered Methods.wrap_kernel_register_feeder
        Methods.wrap_kernel_set_logging_threshold Methods.set_logging_threshold
        Methods.wrap_connection_send Methods.wrap_connection_whois Methods.connection_send
        Methods.connection_whois Objects.send Objects.whois Registry.is_port_available
    invoke-Typed new_string args w = ground arith
    invoke-Typed string_size args w = ground arith
    invoke-Typed string_length args w = ground arith
    invoke-Typed string_empty args w = ground arith
    invoke-Typed string_c_str args w = ground arith
    invoke-Typed string_data args w = ground arith
    invoke-Typed string_assign args w = ground arith
    invoke-Typed feeder_interface_set args w = ground arith
    invoke-Typed feeder_interface_get args w = ground arith
    invoke-Typed watcher_interface_set args w = ground arith
    invoke-Typed watcher_interface_get args w = ground arith
    invoke-Typed watcher_port_set args w = ground arith
    invoke-Typed watcher_port_get args w = ground arith
    invoke-Typed log_level_set args w = ground arith
    invoke-Typed log_level_get args w = ground arith
    invoke-Typed new_kernel_cfg_t args w = ground arith
    invoke-Typed kernel_cfg_set args w = ground arith
    invoke-Typed kernel_cfg_get args w = ground arith
    invoke-Typed kernel_is_running args w = ground arith
    invoke-Typed kernel_is_port_available args w =
        ground (arith, ports_differ-Tame (to_number (arg args 2)) w.kernel.feeders w)
    invoke-Typed kernel_is_feeder_registered args w = elim (Option-cases (to_string (arg args 2))) [
      | inl e ↦ ground (arith, e)
      | inr (label, e) ↦
          ground (arith, e, is_feeder_registered-Prompt (w.kernel.feeder_locked) label w refl)
    ]
    invoke-Typed kernel_register_feeder args w = elim (Option-cases (to_string (arg args 2))) [
      | inl e ↦ ground (arith, e)
      | inr (label, e) ↦
          let port = to_number (arg args 3) in
          ground (arith, e, register_feeder-Prompt (w.kernel.feeder_locked) label port w refl)
    ]
    invoke-Typed connection_send args w = ground arith
    invoke-Typed connection_whois args w = ground arith
    invoke-Typed kernel_set_logging_threshold args w = ground arith
