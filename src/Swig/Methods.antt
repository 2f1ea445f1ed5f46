-- ===== src/Swig/Methods.antt =====
-- The wrappers of `grind::kernel` and `grind::connection` in
-- src/bindings/SWIG/wrappers/lua_grind_wrap.cxx. A script reaches the one kernel of the program.
use grind.Prelude.{ℕ, false, Option, none, some, [], ◌∷◌, Bytes, lit}
use grind.Lua.{Lua, Object, connection_at, kernel_cfg, boolean, string, userdata}
use grind.Host.{Host}
use grind.World.{Cfg}
use grind.World.Monad.{dangling, ok, throws, dies, M, gets, set_kernel, connection}
use grind.Swig.Arguments.{
  connection_type, kernel_type, kernel_cfg_type, Args, Wrap, ◌>>=◌, ◌>>◌, give, lift, arg,
  is_ptr_type, is_string, is_nil_string, is_number, to_string, to_number, check_num_args, check_arg,
  pointer, deref,
}
use grind.Swig.Options.{load_cfg, first_char}
use grind.Objects
use grind.Registry

module _ ⦃lua : Lua⦄ where
  -- The argument that the methods of the kernel have in common.
  unfoldable pub self : (func : Bytes) → Args → Wrap Object
  self func args = do p ← pointer func 1 kernel_type args; deref p

  unfoldable pub set_cfg : Cfg → M (Unit {0})
  set_cfg c = set_kernel λ k. record k { cfg = c }

  -- `if (arg1) (arg1)->cfg = *arg2;`.
  unfoldable pub assign_cfg : Option Object → Option Object → Wrap (Unit {0})
  unfolding load_cfg set_cfg
  assign_cfg none arg2 = give tt
  assign_cfg (some o) arg2 = do c ← deref arg2; x ← lift (load_cfg c); lift (set_cfg x)

  unfoldable pub wrap_kernel_cfg_set : Args → Wrap Args
  unfolding assign_cfg
  wrap_kernel_cfg_set args = do
    check_num_args (lit "grind::kernel::cfg") 2 2 args
    check_arg is_ptr_type (lit "grind::kernel::cfg") 1 (lit "grind::kernel *") args
    check_arg is_ptr_type (lit "grind::kernel::cfg") 2 (lit "grind::kernel_cfg_t *") args
    arg1 ← pointer (lit "kernel_cfg_set") 1 kernel_type args
    arg2 ← pointer (lit "kernel_cfg_set") 2 kernel_cfg_type args
    assign_cfg arg1 arg2
    give []

  -- The address of a member of the null pointer is undefined.
  unfoldable pub wrap_kernel_cfg_get : Args → Wrap Args
  unfolding self
  wrap_kernel_cfg_get args = do
    check_num_args (lit "grind::kernel::cfg") 1 1 args
    check_arg is_ptr_type (lit "grind::kernel::cfg") 1 (lit "grind::kernel *") args
    arg1 ← self (lit "kernel_cfg_get") args
    give (userdata kernel_cfg false ∷ [])

  unfoldable pub wrap_kernel_is_running : Args → Wrap Args
  unfolding self
  wrap_kernel_is_running args = do
    check_num_args (lit "grind::kernel::is_running") 1 1 args
    check_arg is_ptr_type (lit "grind::kernel::is_running") 1 (lit "grind::kernel const *") args
    arg1 ← self (lit "kernel_is_running") args
    result ← lift (gets λ w. w.kernel.running)
    give (boolean result ∷ [])

  unfoldable pub wrap_kernel_is_port_available : Args → Wrap Args
  unfolding self to_number
  wrap_kernel_is_port_available args = do
    check_num_args (lit "grind::kernel::is_port_available") 2 2 args
    check_arg is_ptr_type (lit "grind::kernel::is_port_available") 1 (lit "grind::kernel const *")
        args
    check_arg is_number (lit "grind::kernel::is_port_available") 2 (lit "int") args
    arg1 ← self (lit "kernel_is_port_available") args
    result ← lift (Registry.is_port_available (to_number (arg args 2)))
    give (boolean result ∷ [])

  unfoldable pub wrap_kernel_is_feeder_registered : Args → Wrap Args
  unfolding self to_string
  wrap_kernel_is_feeder_registered args = do
    check_num_args (lit "grind::kernel::is_feeder_registered") 2 2 args
    check_arg is_ptr_type (lit "grind::kernel::is_feeder_registered") 1 (lit "grind::kernel *") args
    check_arg is_string (lit "grind::kernel::is_feeder_registered") 2 (lit "string_t const &") args
    p ← pointer (lit "kernel_is_feeder_registered") 1 kernel_type args
    temp2 ← deref (to_string (arg args 2))
    arg1 ← deref p
    result ← lift (Registry.is_feeder_registered temp2)
    give (boolean result ∷ [])

  -- `kernel::set_logging_threshold`.
  unfoldable pub set_logging_threshold : ℕ → M (Unit {0})
  set_logging_threshold c =
      set_kernel λ k. record k { cfg = record (k.cfg) { log_level = c }; threshold = c }

  unfoldable pub wrap_kernel_set_logging_threshold : Args → Wrap Args
  unfolding to_string first_char set_logging_threshold
  wrap_kernel_set_logging_threshold args = do
    check_num_args (lit "grind::kernel::set_logging_threshold") 2 2 args
    check_arg is_ptr_type (lit "grind::kernel::set_logging_threshold") 1 (lit "grind::kernel *")
        args
    check_arg is_nil_string (lit "grind::kernel::set_logging_threshold") 2 (lit "char") args
    p ← pointer (lit "kernel_set_logging_threshold") 1 kernel_type args
    text ← deref (to_string (arg args 2))
    arg1 ← deref p
    lift (set_logging_threshold (first_char text))
    give []

  -- The method is called through the connection's address.
  unfoldable pub connection_send : Object → Bytes → M (Unit {0})
  unfolding Objects.send
  connection_send (connection_at c) message w = elim (connection c w) [
    | ok x v ↦ Objects.send c message v
    | throws e v ↦ throws e v
    | dies y ↦ dies y
  ]
  connection_send o message w = dies dangling

  unfoldable pub wrap_connection_send : Args → Wrap Args
  unfolding to_string connection_send
  wrap_connection_send args = do
    check_num_args (lit "grind::connection::send") 2 2 args
    check_arg is_ptr_type (lit "grind::connection::send") 1 (lit "grind::connection *") args
    check_arg is_string (lit "grind::connection::send") 2 (lit "string_t") args
    p ← pointer (lit "connection_send") 1 connection_type args
    arg2 ← deref (to_string (arg args 2))
    arg1 ← deref p
    lift (connection_send arg1 arg2)
    give []

  unfoldable pub connection_whois : Object → M Bytes
  unfolding Objects.whois
  connection_whois (connection_at c) w = Objects.whois c w
  connection_whois o w = dies dangling

  unfoldable pub wrap_connection_whois : Args → Wrap Args
  unfolding connection_whois
  wrap_connection_whois args = do
    check_num_args (lit "grind::connection::whois") 1 1 args
    check_arg is_ptr_type (lit "grind::connection::whois") 1 (lit "grind::connection const *") args
    p ← pointer (lit "connection_whois") 1 connection_type args
    arg1 ← deref p
    result ← lift (connection_whois arg1)
    give (string result ∷ [])

  module _ ⦃host : Host⦄ where
    unfoldable pub wrap_kernel_register_feeder : Args → Wrap Args
    unfolding to_string to_number
    wrap_kernel_register_feeder args = do
      check_num_args (lit "grind::kernel::register_feeder") 3 3 args
      check_arg is_ptr_type (lit "grind::kernel::register_feeder") 1 (lit "grind::kernel *") args
      check_arg is_string (lit "grind::kernel::register_feeder") 2 (lit "string_t const &") args
      check_arg is_number (lit "grind::kernel::register_feeder") 3 (lit "int") args
      p ← pointer (lit "kernel_register_feeder") 1 kernel_type args
      temp2 ← deref (to_string (arg args 2))
      arg1 ← deref p
      result ← lift (Registry.register_feeder temp2 (to_number (arg args 3)))
      give (boolean result ∷ [])
