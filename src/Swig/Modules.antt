-- ===== src/Swig/Modules.antt =====
-- How src/bindings/SWIG/wrappers/lua_grind_wrap.cxx sets the module up in Lua (`SWIG_init`), and how
-- its table is read and assigned. Lua's tables are lists whose keys are strings.
pub mod Table
use grind.Prelude.{
  ℕ, zero, ℤ, ◌-◌, Bool, true, false, Option, none, some, List, [], ◌∷◌, Bytes, lit, ◌==◌,
  if◌then◌else◌,
}
use grind.Lua.{
  Lua, Object, the_kernel, connection_at, kernel_cfg, cfg_at, boxed_string, Value, nil, boolean,
  number, string, userdata, function, other, Function, Script, done, ask,
}
use grind.Host.{Host}
use grind.Swig.{Constructor, made_by, new_kernel, SwigClass, class_of}
use grind.Swig.Arguments.{
  SwigType, connection_type, kernel_type, kernel_cfg_type, string_type, Args, Wrap, ◌>>=◌, give,
  arg, typename,
}
use grind.Swig.Classes.{
  Entry, wrapper, raw_get, raw_set, Metatable, class_register, call_entry, one_result,
}

-- Whether two pointers are equal. No two objects stand at one address.
unfoldable pub same_ptr : Object → Object → Bool
same_ptr the_kernel the_kernel = true
same_ptr (connection_at c) (connection_at d) = c == d
same_ptr kernel_cfg kernel_cfg = true
same_ptr (cfg_at c) (cfg_at d) = c == d
same_ptr (boxed_string s) (boxed_string t) = s == t
same_ptr o p = false

-- The functions that `SWIG_init` makes global.
pub data GlobalFunction : Type 0 where
  swig_type swig_equals : GlobalFunction

-- `swig_types`, in its order.
abbrev pub swig_types : List SwigType
swig_types = connection_type ∷ kernel_type ∷ kernel_cfg_type ∷ string_type ∷ []

module _ ⦃lua : Lua⦄ where
  -- `SWIG_Lua_NewPointerObj`; a null pointer is none.
  unfoldable pub new_pointer_obj : Option Object → (own : Bool) → Value lua.Number
  new_pointer_obj none own = nil
  new_pointer_obj (some o) own = userdata o own

  -- `SWIG_Lua_type`.
  unfoldable pub type_results : Args → Args
  unfolding arg typename
  type_results args = string (typename (arg args 1)) ∷ []

  abbrev pub compare : (u v : Value lua.Number) → Args
  compare (userdata o own) (userdata p own_too) = boolean (same_ptr o p) ∷ []
  compare u v = []

  -- `SWIG_Lua_equal`.
  unfoldable pub equal_results : Args → Args
  unfolding arg same_ptr
  equal_results args = compare (arg args 1) (arg args 2)

  unfoldable pub call_global : GlobalFunction → Args → Args
  call_global swig_type = type_results
  call_global swig_equals = equal_results

  -- A `swig_lua_const_info`.
  pub data Constant : Type 0 where
    int_constant : ℤ → Constant
    float_constant : lua.Number → Constant
    char_constant : ℕ → Constant
    string_constant : Bytes → Constant
    pointer_constant : Option Object → Constant
    binary_constant : Constant

  -- The tables that `SWIG_init` fills: the globals, the module, the tables `.get` and `.set` of its
  -- metatable, and the classes in the registry.
  pub record Session : Type 0 where
    pub globals : List (Bytes × GlobalFunction)
    pub members : List (Bytes × Value lua.Number)
    pub getters : List (Bytes × Entry)
    pub setters : List (Bytes × Entry)
    pub registry : List (Bytes × Metatable)

  -- `SWIG_Lua_add_function` on the table of globals.
  unfoldable pub add_global : Bytes → GlobalFunction → Session → Session
  unfolding raw_set
  add_global name f s = record s { globals = raw_set name f (s.globals) }

  -- `SWIG_Lua_module_begin`: a new module.
  unfoldable pub module_begin : Session → Session
  module_begin s = record s { members = []; getters = []; setters = [] }

  -- `SWIG_Lua_module_add_function`.
  unfoldable pub module_add_function : Bytes → Value lua.Number → Session → Session
  unfolding raw_set
  module_add_function name f s = record s { members = raw_set name f (s.members) }

  -- A constructor as a value of Lua; of the kernel's no more is said than that it is a function.
  unfoldable pub constructor_value : Constructor → Value lua.Number
  constructor_value (made_by f) = function f
  constructor_value new_kernel = other (lit "function")

  -- `SWIG_Lua_module_add_variable`; a setter of 0 is none.
  unfoldable pub module_add_variable : Bytes → Function → Option Function → Session → Session
  unfolding raw_set
  module_add_variable name get set s = record s {
    getters = raw_set name (wrapper get) (s.getters);
    setters = elim set [ none ↦ s.setters | some f ↦ raw_set name (wrapper f) (s.setters) ];
  }

  -- `SWIG_Lua_class_register`: the constructor is a function of the module, and the metatable an
  -- entry of the registry.
  unfoldable pub register : SwigClass → Session → Session
  unfolding raw_set class_register module_add_function constructor_value
  register clss s =
      let t : Session = elim (clss.constructor) [
        | none ↦ s
        | some f ↦ module_add_function (clss.name) (constructor_value f) s
      ] in
      record t { registry = raw_set (clss.name) (class_register clss) (t.registry) }

  -- `SWIG_Lua_get_class_metatable`.
  unfoldable pub get_class_metatable : Bytes → Session → Option Metatable
  unfolding raw_get
  get_class_metatable cname s = raw_get cname (s.registry)

  -- The conversion of a C `long` to `lua_Number` is a parameter.
  unfoldable pub constant_value : (of_long : ℤ → lua.Number) → Constant → Value lua.Number
  unfolding new_pointer_obj
  constant_value of_long (int_constant n) = number (of_long n)
  constant_value of_long (float_constant n) = number n
  constant_value of_long (char_constant c) = string (if c == 0 then [] else c ∷ [])
  constant_value of_long (string_constant s) = string s
  constant_value of_long (pointer_constant p) = new_pointer_obj p false
  constant_value of_long binary_constant = other (lit "userdata")

  -- `SWIG_Lua_InstallConstants`.
  unfoldable pub install_constants :
      (of_long : ℤ → lua.Number) → List (Bytes × Constant) → Session → Session
  unfolding raw_set constant_value
  install_constants of_long [] s = s
  install_constants of_long ((name, c) ∷ rest) s =
      install_constants of_long rest
        (record s { members = raw_set name (constant_value of_long c) (s.members) })

  -- The loops of `SWIG_init`.
  unfoldable pub add_commands : List (Bytes × Function) → Session → Session
  unfolding module_add_function
  add_commands [] s = s
  add_commands ((name, f) ∷ rest) s = add_commands rest (module_add_function name (function f) s)

  unfoldable pub add_variables : List (Bytes × Function × Option Function) → Session → Session
  unfolding module_add_variable
  add_variables [] s = s
  add_variables ((name, get, set) ∷ rest) s =
      add_variables rest (module_add_variable name get set s)

  unfoldable pub register_classes : List SwigType → Session → Session
  unfolding register class_of
  register_classes [] s = s
  register_classes (t ∷ rest) s = register_classes rest (register (class_of t) s)

  -- `swig_commands`, `swig_variables` and `swig_constants` hold nothing but their ends.
  abbrev pub swig_commands : List (Bytes × Function)
  swig_commands = []

  abbrev pub swig_variables : List (Bytes × Function × Option Function)
  swig_variables = []

  abbrev pub swig_constants : List (Bytes × Constant)
  swig_constants = []

  -- `SWIG_init`, without the links to the types of other modules. No class has a base, and there is
  -- no Lua code to run at its end.
  unfoldable pub swig_init : (of_long : ℤ → lua.Number) → Session → Session
  unfolding add_global module_begin add_commands add_variables register_classes install_constants
  swig_init of_long s = install_constants of_long swig_constants (
      register_classes swig_types (
        add_variables swig_variables (
          add_commands swig_commands (
            module_begin (
              add_global (lit "swig_equals") swig_equals
                (add_global (lit "swig_type") swig_type s))))))

  -- `lua_settop(L, top)` at the end of a run that has not gone below it.
  abbrev settle : ℕ → Script lua.Number lua.State → Script lua.Number lua.State
  settle top (done rc l) = done rc (lua.pop (lua.gettop l - top) l)
  settle top (ask c k) = ask c (λ r. settle top (k r))

  -- `SWIG_Lua_dostring`, without the message on `stderr`; `luaL_dostring` is a parameter.
  unfoldable pub dostring :
      (run : Bytes → lua.State → Script lua.Number lua.State)
      → Bytes
      → lua.State
      → Script lua.Number lua.State
  dostring run [] l = done 0 l
  dostring run (c ∷ code) l = elim (c == 0) [
    | true ↦ done 0 l
    | false ↦ settle (lua.gettop l) (run (c ∷ code) l)
  ]

  module _ ⦃host : Host⦄ where
    -- `SWIG_Lua_module_get`, with the name that the table lacks.
    unfoldable pub module_get : Session → (name : Bytes) → Wrap Args
    unfolding raw_get call_entry one_result
    module_get s name = elim (raw_get name (s.getters)) [
      | some get ↦ do results ← call_entry get []; give (one_result results)
      | none ↦ give (nil ∷ [])
    ]

    -- `SWIG_Lua_module_set`, with the name that the table lacks, and the new value.
    unfoldable pub module_set : Session → (name : Bytes) → Value lua.Number → Wrap Session
    unfolding raw_get raw_set call_entry
    module_set s name v = elim (raw_get name (s.setters)) [
      | some set ↦ do results ← call_entry set (v ∷ []); give s
      | none ↦ give (record s { members = raw_set name v (s.members) })
    ]
