-- ===== src/Swig/Classes.antt =====
-- The metatables of the classes in src/bindings/SWIG/wrappers/lua_grind_wrap.cxx: how
-- `SWIG_Lua_class_register` fills them, and how `SWIG_Lua_class_get` and `SWIG_Lua_class_set` find
-- the wrapper of a member. No class has a base.
pub mod Members
pub mod Roundtrip
pub mod Quiet
use grind.Prelude.{
  ℕ, Bool, true, false, ◌&&◌, Option, none, some, List, [], ◌∷◌, Bytes, lit, str_eq, ◌==◌,
  if◌then◌else◌,
}
use grind.Lua.{Lua, Object, Value, nil, string, userdata, function, other, Function}
use grind.Host.{Host}
use grind.Swig.{SwigClass, class_of, invoke}
use grind.Swig.Arguments.{type_of, Args, Wrap, ◌>>=◌, ◌>>◌, give}

-- A value of a table: a wrapper, or `SWIG_Lua_class_disown`. That function changes only a flag in
-- Lua's memory, which Lua brings along when it collects the userdata.
pub data Entry : Type 0 where
  wrapper : Function → Entry
  class_disown : Entry

-- `lua_rawget` and `lua_rawset` on a table whose keys are strings.
unfoldable pub raw_get : {A : Type 0} → Bytes → List (Bytes × A) → Option A
raw_get key [] = none
raw_get key ((k, f) ∷ t) = if str_eq k key then some f else raw_get key t

unfoldable pub raw_set : {A : Type 0} → Bytes → A → List (Bytes × A) → List (Bytes × A)
raw_set key g [] = (key, g) ∷ []
raw_set key g ((k, f) ∷ t) =
    let rest = raw_set key g t in if str_eq k key then (k, g) ∷ t else (k, f) ∷ rest

pub record Metatable : Type 0 where
  pub type : Bytes
  -- `.get`, `.set` and `.fn`.
  pub getters : List (Bytes × Entry)
  pub setters : List (Bytes × Entry)
  pub functions : List (Bytes × Entry)
  -- The operators that a class overloads.
  pub overloads : List (Bytes × Entry)

-- `SWIG_Lua_add_class_variable`.
unfoldable pub add_class_variable : Bytes → (get set : Function) → Metatable → Metatable
unfolding raw_set
add_class_variable name get set t = record t {
  getters = raw_set name (wrapper get) (t.getters);
  setters = raw_set name (wrapper set) (t.setters);
}

unfoldable pub add_attributes : List (Bytes × Function × Function) → Metatable → Metatable
unfolding add_class_variable
add_attributes [] t = t
add_attributes ((name, get, set) ∷ rest) t = add_attributes rest (add_class_variable name get set t)

unfoldable pub add_methods : List (Bytes × Function) → Metatable → Metatable
unfolding raw_set
add_methods [] t = t
add_methods ((name, f) ∷ rest) t =
    add_methods rest (record t { functions = raw_set name (wrapper f) (t.functions) })

-- Whether the name of a method begins with two underscores.
unfoldable pub is_overload : Bytes → Bool
is_overload (a ∷ b ∷ rest) = (a == b'_') && (b == b'_')
is_overload name = false

unfoldable pub add_overloads : List (Bytes × Function) → Metatable → Metatable
unfolding raw_set is_overload
add_overloads [] t = t
add_overloads ((name, f) ∷ rest) t = add_overloads rest (
    if is_overload name then record t { overloads = raw_set name (wrapper f) (t.overloads) } else t)

-- `SWIG_Lua_add_class_details`.
unfoldable pub add_class_details : SwigClass → Metatable → Metatable
unfolding add_attributes add_methods add_overloads
add_class_details clss t =
    add_overloads clss.methods (add_methods clss.methods (add_attributes clss.attributes t))

-- The metatable that `SWIG_Lua_class_register` makes.
unfoldable pub class_register : SwigClass → Metatable
unfolding add_class_details raw_set
class_register clss = add_class_details clss (record {
  type = clss.name;
  getters = [];
  setters = [];
  functions = raw_set (lit "__disown") class_disown [];
  overloads = [];
})

module _ ⦃lua : Lua⦄ where
  -- The metatable that a userdata has got from `SWIG_Lua_NewPointerObj`.
  unfoldable pub metatable : Object → Metatable
  unfolding class_of class_register
  metatable o = class_register (class_of (type_of o))

  -- What a key leads to. Only strings are keys.
  abbrev pub at_key : Value lua.Number → List (Bytes × Entry) → Option Entry
  at_key (string key) t = raw_get key t
  at_key v t = none

  -- A function as a value.
  unfoldable pub push_entry : Entry → Value lua.Number
  push_entry (wrapper f) = function f
  push_entry class_disown = other (lit "function")

  module _ ⦃host : Host⦄ where
    -- `lua_call` of a C function. To disown an object leaves the program alone.
    unfoldable pub call_entry : Entry → Args → Wrap Args
    call_entry (wrapper f) args = invoke f args
    call_entry class_disown args = give []

    -- The results of `lua_call(L, n, 1)`.
    unfoldable pub one_result : Args → Args
    one_result [] = nil ∷ []
    one_result (v ∷ vs) = v ∷ []

    unfoldable pub class_get : Object → (own : Bool) → (key : Value lua.Number) → Wrap Args
    unfolding raw_get push_entry call_entry one_result metatable
    class_get o own key = elim (at_key key (metatable o).getters) [
      | some get ↦ do results ← call_entry get (userdata o own ∷ []); give (one_result results)
      | none ↦ elim (at_key key (metatable o).functions) [
        | some f ↦ give (push_entry f ∷ [])
        | none ↦ elim (raw_get (lit "__getitem") (metatable o).overloads) [
          | some get ↦ do
            results ← call_entry get (userdata o own ∷ key ∷ [])
            give (one_result results)
          | none ↦ give []
        ]
      ]
    ]

    unfoldable pub class_set : Object → (own : Bool) → (key value : Value lua.Number) → Wrap Args
    unfolding raw_get call_entry metatable
    class_set o own key v = elim (at_key key (metatable o).setters) [
      | some set ↦ do results ← call_entry set (userdata o own ∷ v ∷ []); give []
      | none ↦ elim (raw_get (lit "__setitem") (metatable o).overloads) [
        | some set ↦ do results ← call_entry set (userdata o own ∷ key ∷ v ∷ []); give []
        | none ↦ give []
      ]
    ]
