-- ===== src/Swig/Signature.antt =====
-- What the wrappers of src/bindings/SWIG/wrappers/lua_grind_wrap.cxx promise to Lua code: which
-- arguments each of them takes, and how many results it returns.
use grind.Prelude.{
  ℕ, Bool, true, false, ◌&&◌, ◌||◌, none, some, List, [], ◌∷◌, ◌≡◌, length, Bytes, ◌⊎◌,
}
use grind.Lua.{
  Lua, Object, the_kernel, connection_at, kernel_cfg, cfg_at, boxed_string, Value, nil, number,
  string, userdata, Function, new_string, string_size, string_length, string_empty, string_c_str,
  string_data, string_assign, feeder_interface_set, feeder_interface_get, watcher_interface_set,
  watcher_interface_get, watcher_port_set, watcher_port_get, log_level_set, log_level_get,
  new_kernel_cfg_t, kernel_cfg_set, kernel_cfg_get, kernel_is_running, kernel_is_port_available,
  kernel_is_feeder_registered, kernel_register_feeder, kernel_set_logging_threshold,
  connection_send, connection_whois,
}
use grind.World.{World}
use grind.World.Monad.{Fault, null_pointer, dangling, deadlock, Outcome, ok, throws, dies}
use grind.Swig.Arguments.{
  SwigType, connection_type, kernel_type, kernel_cfg_type, string_type, Args, Result, gives, fails,
}

pub data Kind : Type 0 where
  -- An object of a class, or nil.
  instance_of : SwigType → Kind
  -- A string, or a number.
  text : Kind
  text_or_nil : Kind
  -- A number, or a string that stands for one.
  integer : Kind

-- The lists of arguments that a function takes.
unfoldable pub signatures : Function → List (List Kind)
signatures new_string = [] ∷ (text_or_nil ∷ []) ∷ []
signatures string_size = (instance_of string_type ∷ []) ∷ []
signatures string_length = (instance_of string_type ∷ []) ∷ []
signatures string_empty = (instance_of string_type ∷ []) ∷ []
signatures string_c_str = (instance_of string_type ∷ []) ∷ []
signatures string_data = (instance_of string_type ∷ []) ∷ []
signatures string_assign = (instance_of string_type ∷ text_or_nil ∷ []) ∷ []
signatures feeder_interface_set = (instance_of kernel_cfg_type ∷ text ∷ []) ∷ []
signatures feeder_interface_get = (instance_of kernel_cfg_type ∷ []) ∷ []
signatures watcher_interface_set = (instance_of kernel_cfg_type ∷ text ∷ []) ∷ []
signatures watcher_interface_get = (instance_of kernel_cfg_type ∷ []) ∷ []
signatures watcher_port_set = (instance_of kernel_cfg_type ∷ text ∷ []) ∷ []
signatures watcher_port_get = (instance_of kernel_cfg_type ∷ []) ∷ []
signatures log_level_set = (instance_of kernel_cfg_type ∷ text_or_nil ∷ []) ∷ []
signatures log_level_get = (instance_of kernel_cfg_type ∷ []) ∷ []
signatures new_kernel_cfg_t = [] ∷ []
signatures kernel_cfg_set = (instance_of kernel_type ∷ instance_of kernel_cfg_type ∷ []) ∷ []
signatures kernel_cfg_get = (instance_of kernel_type ∷ []) ∷ []
signatures kernel_is_running = (instance_of kernel_type ∷ []) ∷ []
signatures kernel_is_port_available = (instance_of kernel_type ∷ integer ∷ []) ∷ []
signatures kernel_is_feeder_registered = (instance_of kernel_type ∷ text ∷ []) ∷ []
signatures kernel_register_feeder = (instance_of kernel_type ∷ text ∷ integer ∷ []) ∷ []
signatures kernel_set_logging_threshold = (instance_of kernel_type ∷ text_or_nil ∷ []) ∷ []
signatures connection_send = (instance_of connection_type ∷ text ∷ []) ∷ []
signatures connection_whois = (instance_of connection_type ∷ []) ∷ []

-- The number of its results.
unfoldable pub arity : Function → ℕ
arity string_assign = 0
arity feeder_interface_set = 0
arity watcher_interface_set = 0
arity watcher_port_set = 0
arity log_level_set = 0
arity kernel_cfg_set = 0
arity kernel_set_logging_threshold = 0
arity connection_send = 0
arity _ = 1

abbrev pub is_instance : Object → SwigType → Bool
is_instance the_kernel kernel_type = true
is_instance (connection_at c) connection_type = true
is_instance kernel_cfg kernel_cfg_type = true
is_instance (cfg_at c) kernel_cfg_type = true
is_instance (boxed_string b) string_type = true
is_instance o t = false

module _ ⦃lua : Lua⦄ where
  unfoldable pub fits : Kind → Value lua.Number → Bool
  fits (instance_of t) nil = true
  fits (instance_of t) (userdata o own) = is_instance o t
  fits text (number n) = true
  fits text (string s) = true
  fits text_or_nil nil = true
  fits text_or_nil (number n) = true
  fits text_or_nil (string s) = true
  fits integer (number n) = true
  fits integer (string s) = elim (lua.of_text s) [ none ↦ false | some n ↦ true ]
  fits k v = false

  unfoldable pub fit : List Kind → Args → Bool
  unfolding fits
  fit [] [] = true
  fit (k ∷ ks) (v ∷ vs) = fits k v && fit ks vs
  fit ks vs = false

  unfoldable pub takes : List (List Kind) → Args → Bool
  unfolding fit
  takes [] args = false
  takes (ks ∷ rest) args = fit ks args || takes rest args

  unfoldable pub has_nil : Args → Bool
  has_nil [] = false
  has_nil (nil ∷ vs) = true
  has_nil (v ∷ vs) = has_nil vs

  -- The faults that a call may die of: a pointer dangles, the null pointer has come in as nil, or
  -- the mutex of the feeders is held already.
  abbrev pub Crash : Args → World → Fault → Type 0
  Crash args w f =
      (f ≡ dangling)
      ⊎ (f ≡ null_pointer) × (has_nil args ≡ true)
      ⊎ (f ≡ deadlock) × (w.kernel.feeder_locked ≡ true)

  -- A call with arguments that fit or do not: it raises an error and has changed nothing, or it
  -- returns `n` results.
  abbrev pub Typed : Bool → ℕ → Args → World → Outcome (Result Args) → Type 0
  Typed false n args w x = (message : Bytes) × (x ≡ ok (fails message) w)
  Typed true n args w (ok (gives results) v) = length results ≡ n
  Typed true n args w (ok (fails message) v) = ⊥
  Typed true n args w (throws what v) = ⊥
  Typed true n args w (dies f) = Crash args w f
