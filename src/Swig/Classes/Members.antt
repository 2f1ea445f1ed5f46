-- ===== src/Swig/Classes/Members.antt =====
-- Which members the objects of a class have, by the tables of
-- src/bindings/SWIG/wrappers/lua_grind_wrap.cxx.
use grind.Prelude.{
  ◌≡◌, refl, Bool, Bool-cases, inl, inr, Option, none, some, List, [], ◌∷◌, Bytes, lit, str_eq,
  if◌then◌else◌, arith,
}
use grind.Lua.{
  Lua, Object, the_kernel, connection_at, kernel_cfg, cfg_at, boxed_string, Value, string, userdata,
  function, other, Function,
}
use grind.Host.{Host}
use grind.World.{World}
use grind.World.Monad.{Outcome}
use grind.Swig.{class_of, invoke}
use grind.Swig.Arguments.{type_of, Args, Result, ◌>>=◌, give}
use grind.Swig.Classes.{
  Entry, wrapper, class_disown, metatable, raw_get, class_register, add_class_details,
  add_attributes, add_class_variable, raw_set, add_methods, add_overloads, is_overload, push_entry,
  call_entry, one_result, class_get, class_set,
}

module _ ⦃lua : Lua⦄ where
  -- The first attribute, or method, with a name; no key but a string names any.
  abbrev attribute :
      Value lua.Number → List (Bytes × Function × Function) → Option (Function × Function)
  attribute (string key) [] = none
  attribute (string key) ((name, get, set) ∷ rest) =
      if str_eq name key then some (get, set) else attribute (string key) rest
  attribute v members = none

  abbrev method : Value lua.Number → List (Bytes × Function) → Option Function
  method (string key) [] = none
  method (string key) ((name, f) ∷ rest) =
      if str_eq name key then some f else method (string key) rest
  method v members = none

  -- What a key reads where it names no attribute. Every class has `__disown`.
  abbrev function_at : Value lua.Number → List (Bytes × Function) → Args
  function_at (string key) methods =
      if str_eq (lit "__disown") key
      then other (lit "function") ∷ []
      else (elim (method (string key) methods) [ some f ↦ function f ∷ [] | none ↦ [] ])
  function_at v methods = []

  abbrev getters : List (Bytes × Function × Function) → List (Bytes × Entry)
  getters [] = []
  getters ((name, get, set) ∷ rest) = (name, wrapper get) ∷ getters rest

  abbrev setters : List (Bytes × Function × Function) → List (Bytes × Entry)
  setters [] = []
  setters ((name, get, set) ∷ rest) = (name, wrapper set) ∷ setters rest

  abbrev functions : List (Bytes × Function) → List (Bytes × Entry)
  functions [] = []
  functions ((name, f) ∷ rest) = (name, wrapper f) ∷ functions rest

  -- The table that registration makes of a class.
  metatable-class :
      (o : Object)
      → (metatable o).getters ≡ getters (class_of (type_of o)).attributes
        × (metatable o).setters ≡ setters (class_of (type_of o)).attributes
        × (metatable o).functions
          ≡ (lit "__disown", class_disown) ∷ functions (class_of (type_of o)).methods
        × (metatable o).overloads ≡ []
  unfolding metatable class_of class_register add_class_details add_attributes add_class_variable
      raw_set add_methods add_overloads is_overload str_eq
  metatable-class the_kernel = (refl, refl, refl, refl)
  metatable-class (connection_at c) = (refl, refl, refl, refl)
  metatable-class kernel_cfg = (refl, refl, refl, refl)
  metatable-class (cfg_at c) = (refl, refl, refl, refl)
  metatable-class (boxed_string b) = (refl, refl, refl, refl)

  raw_get-getters :
      (key : Bytes) (attributes : List (Bytes × Function × Function))
      → raw_get key (getters attributes) ≡ (elim (attribute (string key) attributes) [
        | none ↦ none
        | some (get, set) ↦ some (wrapper get)
      ])
  unfolding raw_get
  raw_get-getters key [] = refl
  raw_get-getters key ((name, get, set) ∷ rest) = elim (Bool-cases (str_eq name key)) [
    | inl e ↦ rw e refl
    | inr e ↦ rw e (raw_get-getters key rest)
  ]

  raw_get-setters :
      (key : Bytes) (attributes : List (Bytes × Function × Function))
      → raw_get key (setters attributes) ≡ (elim (attribute (string key) attributes) [
        | none ↦ none
        | some (get, set) ↦ some (wrapper set)
      ])
  unfolding raw_get
  raw_get-setters key [] = refl
  raw_get-setters key ((name, get, set) ∷ rest) = elim (Bool-cases (str_eq name key)) [
    | inl e ↦ rw e refl
    | inr e ↦ rw e (raw_get-setters key rest)
  ]

  raw_get-functions :
      (key : Bytes) (methods : List (Bytes × Function))
      → raw_get key (functions methods)
        ≡ (elim (method (string key) methods) [ none ↦ none | some f ↦ some (wrapper f) ])
  unfolding raw_get
  raw_get-functions key [] = refl
  raw_get-functions key ((name, f) ∷ rest) = ground (arith, raw_get-functions key rest)

  module _ ⦃host : Host⦄ where
    -- A key reads the getter of an attribute, or else a method as a function, or else nothing.
    abbrev pub Reads : Object → (own : Bool) → Value lua.Number → World → Outcome (Result Args)
    Reads o own key w = elim (attribute key (class_of (type_of o)).attributes) [
      | some (get, set) ↦
          (do results ← invoke get (userdata o own ∷ []); give (one_result results)) w
      | none ↦ give (function_at key (class_of (type_of o)).methods) w
    ]

    -- An assignment runs the setter of an attribute, or else does nothing.
    abbrev pub Writes :
        Object → (own : Bool) → (key v : Value lua.Number) → World → Outcome (Result Args)
    Writes o own key v w = elim (attribute key (class_of (type_of o)).attributes) [
      | some (get, set) ↦ (do results ← invoke set (userdata o own ∷ v ∷ []); give []) w
      | none ↦ give [] w
    ]

    pub class_get-Reads :
        (o : Object) (own : Bool) (key : Value lua.Number) (w : World)
        → class_get o own key w ≡ Reads o own key w
    unfolding class_get call_entry push_entry raw_get
    class_get-Reads o own (string key) w = ground (
      arith,
      metatable-class o,
      raw_get-getters key (class_of (type_of o)).attributes,
      raw_get-functions key (class_of (type_of o)).methods,
    )
    class_get-Reads o own key w = ground (arith, metatable-class o)

    pub class_set-Writes :
        (o : Object) (own : Bool) (key v : Value lua.Number) (w : World)
        → class_set o own key v w ≡ Writes o own key v w
    unfolding class_set call_entry raw_get
    class_set-Writes o own (string key) v w =
        ground (arith, metatable-class o, raw_get-setters key (class_of (type_of o)).attributes)
    class_set-Writes o own key v w = ground (arith, metatable-class o)

    -- To read a member runs the getter of the attribute with that name, or else gives the method
    -- with that name as a function (`__disown` first), or else nothing; to assign a member runs the
    -- setter of the attribute with that name, and silently does nothing where the class has none.
    pub members :
        (o : Object) (own : Bool) (key v : Value lua.Number) (w : World)
        → (class_get o own key w ≡ Reads o own key w)
          × (class_set o own key v w ≡ Writes o own key v w)
    members o own key v w = (class_get-Reads o own key w, class_set-Writes o own key v w)
