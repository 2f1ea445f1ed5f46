-- ===== src/Lua/Values.antt =====
-- What Lua code hands to the functions of src/bindings/SWIG/wrappers/lua_grind_wrap.cxx, and gets
-- back. Numbers are Lua's, that is C doubles, and a parameter.
use grind.Prelude.{ℕ, Bool, List, Bytes}

-- What a SWIG userdata points to. Strings and options that scripts have made are named by address.
pub data Object : Type 0 where
  the_kernel : Object
  connection_at : ℕ → Object
  -- The member `cfg` of the kernel.
  kernel_cfg : Object
  cfg_at : ℕ → Object
  boxed_string : ℕ → Object

-- The wrappers, by what they wrap.
pub data Function : Type 0 where
  new_string string_size string_length string_empty string_c_str string_data : Function
  string_assign : Function
  feeder_interface_set feeder_interface_get watcher_interface_set watcher_interface_get : Function
  watcher_port_set watcher_port_get log_level_set log_level_get new_kernel_cfg_t : Function
  kernel_cfg_set kernel_cfg_get kernel_is_running kernel_is_port_available : Function
  kernel_is_feeder_registered kernel_register_feeder kernel_set_logging_threshold : Function
  connection_send connection_whois : Function

pub data Value (N : Type 0) : Type 0 where
  nil : Value N
  boolean : Bool → Value N
  number : N → Value N
  string : Bytes → Value N
  -- A `swig_lua_userdata`, with its flag `own`.
  userdata : Object → Bool → Value N
  -- A wrapper.
  function : Function → Value N
  -- A table, a thread or another function, by the name of its type.
  other : Bytes → Value N

-- A wrapper is called, a member of a userdata is read or assigned, or a userdata is collected.
pub data Callback (N : Type 0) : Type 0 where
  call : Function → List (Value N) → Callback N
  index : Object → (own : Bool) → (key : Value N) → Callback N
  newindex : Object → (own : Bool) → (key value : Value N) → Callback N
  collect : Object → (own : Bool) → Callback N

-- The results on Lua's stack, or the message of `lua_error`.
pub data Reply (N : Type 0) : Type 0 where
  returns : List (Value N) → Reply N
  raises : Bytes → Reply N

-- A run of Lua code: it ends with a return code and a state, or calls back and goes on with the
-- reply.
pub data Script (N S : Type 0) : Type 0 where
  done : ℕ → S → Script N S
  ask : Callback N → (Reply N → Script N S) → Script N S

-- Every end of the run satisfies `P`, whatever the replies are.
abbrev pub Ends : {N S : Type 0} → (ℕ → S → Type 0) → Script N S → Type 0
Ends P (done rc s) = P rc s
Ends {N} P (ask c k) = (r : Reply N) → Ends P (k r)

pub Ends-mono :
    {N S : Type 0} {P Q : ℕ → S → Type 0}
    → ((rc : ℕ) (s : S) → P rc s → Q rc s)
    → (script : Script N S) → Ends P script
    → Ends Q script
Ends-mono weaken (done rc s) p = weaken rc s p
Ends-mono weaken (ask c k) p = λ r. Ends-mono weaken (k r) (p r)
