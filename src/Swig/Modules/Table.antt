-- ===== src/Swig/Modules/Table.antt =====
-- What scripts find in the module and the globals that `SWIG_init` of
-- src/bindings/SWIG/wrappers/lua_grind_wrap.cxx has set up.
use grind.Prelude.{
  ℤ, ◌≡◌, ◌↔◌, refl, Bool, true, false, Bool-cases, inl, inr, Option, none, some, List, [], ◌∷◌,
  Bytes, lit, str_eq, str_eq_refl, eq_of_str_eq, if◌then◌else◌, arith,
}
use grind.Lua.{
  Lua, Object, the_kernel, connection_at, kernel_cfg, cfg_at, boxed_string, Value, nil, boolean,
  userdata, function, other, new_string, new_kernel_cfg_t,
}
use grind.Host.{Host}
use grind.World.{World}
use grind.World.Monad.{Outcome, ok, throws, dies}
use grind.Swig.{SwigClass, class_of}
use grind.Swig.Arguments.{type_of, Args, Wrap, Result, gives, fails, ◌>>=◌, give, arg}
use grind.Swig.Classes.{raw_get, raw_set, metatable, class_register}
use grind.Swig.Modules.{
  GlobalFunction, swig_type, swig_equals, call_global, equal_results, same_ptr, Session,
  get_class_metatable, swig_init, module_get, module_set, register_classes, register,
  module_add_function, add_variables, add_commands, module_begin, add_global, install_constants,
  swig_types, constructor_value,
}

other_key : (k n j : Bytes) → str_eq n k ≡ false → str_eq n j ≡ true → str_eq k j ≡ false
other_key k n j e h = elim (Bool-cases (str_eq k j)) [
  | inl same ↦ absurd (cc (e, h, eq_of_str_eq k j same))
  | inr differ ↦ differ
]

raw_get-raw_set :
    {A : Type 0} (j k : Bytes) (v : A) (t : List (Bytes × A))
    → raw_get j (raw_set k v t) ≡ (if str_eq k j then some v else raw_get j t)
unfolding raw_get raw_set
raw_get-raw_set j k v [] = ground arith
raw_get-raw_set j k v ((n, u) ∷ t) = elim (Bool-cases (str_eq n k)) [
  | inl e ↦ rw (eq_of_str_eq n k e) (ground (arith, str_eq_refl k))
  | inr e ↦ elim (Bool-cases (str_eq n j)) [
    | inl h ↦ ground (arith, e, h, other_key k n j e h)
    | inr h ↦ ground (arith, e, h, raw_get-raw_set j k v t)
  ]
]

-- The value that a name has in the module at first.
abbrev pub first_value : {N : Type 0} → Bytes → Value N
first_value name =
    if str_eq (lit "kernel") name
    then other (lit "function")
    else (if str_eq (lit "kernel_cfg_t") name
        then function new_kernel_cfg_t
        else (if str_eq (lit "string") name then function new_string else nil))

-- The value that a name has after assignments.
abbrev pub last_value : {N : Type 0} → Bytes → Value N → List (Bytes × Value N) → Value N
last_value name v [] = v
last_value name v ((n, u) ∷ writes) = last_value name (if str_eq n name then u else v) writes

-- Lua treats a field that holds nil as one that is not there.
abbrev pub present : {N : Type 0} → Option (Value N) → Option (Value N)
present (some nil) = none
present x = x

-- The value of a field, or nil.
abbrev value : {N : Type 0} → Option (Value N) → Value N
value none = nil
value (some v) = v

value_if :
    {N : Type 0} (a b c : Bool) (x y z : Value N)
    → value (if a then some x else (if b then some y else (if c then some z else none)))
      ≡ (if a then x else (if b then y else (if c then z else nil)))
value_if true b c x y z = refl
value_if false true c x y z = refl
value_if false false true x y z = refl
value_if false false false x y z = refl

same_ptr_refl : (o : Object) → same_ptr o o ≡ true
unfolding same_ptr
same_ptr_refl the_kernel = refl
same_ptr_refl (connection_at c) = ground arith
same_ptr_refl kernel_cfg = refl
same_ptr_refl (cfg_at c) = ground arith
same_ptr_refl (boxed_string s) = ground arith

eq_of_same_ptr : (o p : Object) → same_ptr o p ≡ true → o ≡ p
unfolding same_ptr
eq_of_same_ptr the_kernel p h = ground (arith, h)
eq_of_same_ptr (connection_at c) p h = ground (arith, h)
eq_of_same_ptr kernel_cfg p h = ground (arith, h)
eq_of_same_ptr (cfg_at c) p h = ground (arith, h)
eq_of_same_ptr (boxed_string s) p h = ground (arith, h)

module _ ⦃lua : Lua⦄ where
  -- What two userdata are for `swig_equals`.
  abbrev pub Compares : Session → (o p : Object) → (own own_too : Bool) → Args → Type 0
  Compares s o p own own_too rest =
      (f : GlobalFunction) × (b : Bool) × (raw_get (lit "swig_equals") (s.globals) ≡ some f)
      × (call_global f (userdata o own ∷ userdata p own_too ∷ rest) ≡ boolean b ∷ [])
      × ((b ≡ true) ↔ (o ≡ p))

  -- After `SWIG_init`, the global `swig_equals` answers for any two userdata, and says true exactly
  -- when they stand for the same object, whichever of them owns it.
  pub equals-Compares :
      (of_long : ℤ → lua.Number) (s : Session) (o p : Object) (own own_too : Bool) (rest : Args)
      → Compares (swig_init of_long s) o p own own_too rest
  unfolding swig_init install_constants register_classes register module_add_function add_variables
      add_commands module_begin add_global class_of call_global equal_results arg str_eq
  equals-Compares of_long s o p own own_too rest = (
    swig_equals,
    same_ptr o p,
    raw_get-raw_set (lit "swig_equals") (lit "swig_equals") swig_equals
        (raw_set (lit "swig_type") swig_type (s.globals)),
    refl,
    (eq_of_same_ptr o p, λ e. rw e (same_ptr_refl p)),
  )

module _ ⦃lua : Lua⦄ ⦃host : Host⦄ where
  -- Lua reads a field of the module; `__index` is called for one that is not there.
  abbrev pub read : Session → Bytes → Wrap Args
  read s name = elim (present (raw_get name (s.members))) [
    | some v ↦ give (v ∷ [])
    | none ↦ module_get s name
  ]

  -- Lua assigns a field of the module; `__newindex` is called for one that is not there.
  abbrev pub assign : Session → Bytes → Value lua.Number → Wrap Session
  assign s name v = elim (present (raw_get name (s.members))) [
    | some old ↦ give (record s { members = raw_set name v (s.members) })
    | none ↦ module_set s name v
  ]

  abbrev pub assigns : List (Bytes × Value lua.Number) → Session → Wrap Session
  assigns [] s = give s
  assigns ((name, v) ∷ writes) s = do t ← assign s name v; assigns writes t

  assign_lem :
      (s : Session) (name : Bytes) (v : Value lua.Number) (w : World)
      → s.setters ≡ []
      → assign s name v w ≡ ok (gives (record s { members = raw_set name v (s.members) })) w
  unfolding module_set raw_get
  assign_lem s name v w e = ground (arith, e)

  read_lem :
      (s : Session) (name : Bytes) (w : World)
      → s.getters ≡ []
      → read s name w ≡ ok (gives (value (raw_get name (s.members)) ∷ [])) w
  unfolding module_get raw_get
  read_lem s name w e = ground (arith, e)

  -- A name holds a value, for want of linked variables.
  record Holds (s t : Session) (name : Bytes) (v : Value lua.Number) : Type 0 where
    no_getters : t.getters ≡ []
    no_setters : t.setters ≡ []
    held : value (raw_get name (t.members)) ≡ v
    registry : t.registry ≡ s.registry

  Assigned :
      (s : Session) (name : Bytes) (v : Value lua.Number) (w : World)
      → Outcome (Result Session)
      → Type 0
  Assigned s name v w (ok (gives t) u) = (u ≡ w) × Holds s t name v
  Assigned s name v w y = ⊥

  assigns_lem :
      (writes : List (Bytes × Value lua.Number)) (r s : Session) (name : Bytes)
      (v : Value lua.Number) (w : World)
      → Holds r s name v
      → Assigned r name (last_value name v writes) w (assigns writes s w)
  unfolding Assigned
  assigns_lem [] r s name v w h = (refl, h)
  assigns_lem ((n, u) ∷ writes) r s name v w h = rw (assign_lem s n u w h.no_setters) (
      assigns_lem writes r (record s { members = raw_set n u (s.members) }) name
        (if str_eq n name then u else v) w
        (record {
          no_getters = h.no_getters;
          no_setters = h.no_setters;
          held = rw (raw_get-raw_set name n u (s.members)) (ground (arith, h.held));
          registry = h.registry;
        }))

  swig_init-Holds :
      (of_long : ℤ → lua.Number) (s : Session) (name : Bytes)
      → Holds (swig_init of_long s) (swig_init of_long s) name (first_value name)
  unfolding swig_init register_classes register module_add_function constructor_value add_variables
      add_commands module_begin add_global install_constants class_of raw_set raw_get str_eq
  swig_init-Holds of_long s name = record {
    no_getters = refl;
    no_setters = refl;
    held =
        value_if (str_eq (lit "kernel") name) (str_eq (lit "kernel_cfg_t") name)
          (str_eq (lit "string") name) (other (lit "function")) (function new_kernel_cfg_t)
          (function new_string);
    registry = refl;
  }

  -- Every object has, in the registry of the session, the metatable of its class.
  abbrev pub HasClasses : Session → Type 0
  HasClasses t =
      (o : Object) → get_class_metatable ((class_of (type_of o)).name) t ≡ some (metatable o)

  get_class_metatable-register :
      (j : Bytes) (clss : SwigClass) (s : Session)
      → get_class_metatable j (register clss s)
        ≡ (if str_eq (clss.name) j then some (class_register clss) else get_class_metatable j s)
  unfolding get_class_metatable register module_add_function
  get_class_metatable-register j clss s =
      elim (clss.constructor)
        as (λ c.
          raw_get j (
            raw_set (clss.name) (class_register clss)
              (elim c as (λ _. Session) [
                | none ↦ s
                | some f ↦ module_add_function (clss.name) (constructor_value f) s
              ]).registry)
          ≡ (if str_eq (clss.name) j then some (class_register clss) else raw_get j (s.registry))) [
            | none ↦ raw_get-raw_set j (clss.name) (class_register clss) (s.registry)
            | some f ↦ raw_get-raw_set j (clss.name) (class_register clss) (s.registry)
          ]

  register_classes-HasClasses : (s : Session) → HasClasses (register_classes swig_types s)
  unfolding metatable register_classes class_of str_eq
  register_classes-HasClasses s the_kernel = simp get_class_metatable-register refl
  register_classes-HasClasses s (connection_at c) = simp get_class_metatable-register refl
  register_classes-HasClasses s kernel_cfg = simp get_class_metatable-register refl
  register_classes-HasClasses s (cfg_at c) = simp get_class_metatable-register refl
  register_classes-HasClasses s (boxed_string b) = simp get_class_metatable-register refl

  swig_init-HasClasses : (of_long : ℤ → lua.Number) (s : Session) → HasClasses (swig_init of_long s)
  unfolding swig_init install_constants add_variables add_commands
  swig_init-HasClasses of_long s = register_classes-HasClasses (
      module_begin
        (add_global (lit "swig_equals") swig_equals (add_global (lit "swig_type") swig_type s)))

  -- What the assignments of a script leave.
  abbrev pub Finds :
      (name : Bytes) → List (Bytes × Value lua.Number) → World → Outcome (Result Session) → Type 0
  Finds name writes w (ok (gives t) u) =
      (u ≡ w)
      × (read t name w ≡ ok (gives (last_value name (first_value name) writes ∷ [])) w)
      × HasClasses t
  Finds name writes w y = ⊥

  Assigned-Finds :
      (r : Session) (name : Bytes) (writes : List (Bytes × Value lua.Number)) (w : World)
      (y : Outcome (Result Session))
      → HasClasses r
      → Assigned r name (last_value name (first_value name) writes) w y
      → Finds name writes w y
  unfolding Assigned get_class_metatable
  Assigned-Finds r name writes w (ok (gives t) u) c (e, h) =
      (e, rw (read_lem t name w h.no_getters) (ground (arith, h.held)), λ o. rw (h.registry) (c o))
  Assigned-Finds r name writes w (ok (fails m) u) c h = absurd h
  Assigned-Finds r name writes w (throws m u) c h = absurd h
  Assigned-Finds r name writes w (dies m) c h = absurd h

  -- Whatever a script has assigned to names of the module after `SWIG_init`, without an error and
  -- with the program unchanged, reading a name gives what was assigned to it last, or at first the
  -- constructor of strings or options that has this name, for `kernel` a function that is not
  -- modelled further, and else nil; and the registry of classes has
  -- the metatable of every object.
  pub read-assigns :
      (of_long : ℤ → lua.Number) (s : Session) (writes : List (Bytes × Value lua.Number))
      (name : Bytes) (w : World)
      → Finds name writes w (assigns writes (swig_init of_long s) w)
  read-assigns of_long s writes name w =
      Assigned-Finds (swig_init of_long s) name writes w (assigns writes (swig_init of_long s) w)
        (swig_init-HasClasses of_long s)
        (assigns_lem writes (swig_init of_long s) (swig_init of_long s) name (first_value name) w
          (swig_init-Holds of_long s name))
