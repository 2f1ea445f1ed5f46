-- ===== src/Swig/Arguments.antt =====
-- The checks and conversions that the wrappers of src/bindings/SWIG/wrappers/lua_grind_wrap.cxx make
-- of their arguments: the macros `SWIG_check_num_args`, `SWIG_fail_arg` and `SWIG_isptrtype`, and
-- `SWIG_Lua_ConvertPtr`. A wrapper returns its results, or jumps to its label `fail` with a message.
use grind.Prelude.{
  ℕ, ℤ, pos, zero, suc, Bool, true, false, ◌&&◌, Option, none, some, List, [], ◌∷◌, ◌++◌, Bytes,
  lit, length, leb,
}
use grind.Utility.{to_decimal}
use grind.Lua.{
  Lua, Object, the_kernel, connection_at, kernel_cfg, cfg_at, boxed_string, Value, nil, boolean,
  number, string, userdata, function, other,
}
use grind.World.{World}
use grind.World.Monad.{null_pointer, Outcome, ok, throws, dies, M}

-- The entries of `swig_types`.
pub data SwigType : Type 0 where
  connection_type kernel_type kernel_cfg_type string_type : SwigType

-- Their `str`.
unfoldable pub type_str : SwigType → Bytes
type_str connection_type = lit "grind::connection *"
type_str kernel_type = lit "grind::kernel *"
type_str kernel_cfg_type = lit "grind::kernel_cfg_t *"
type_str string_type = lit "std::string *|string_t *"

abbrev pub type_of : Object → SwigType
type_of the_kernel = kernel_type
type_of (connection_at c) = connection_type
type_of kernel_cfg = kernel_cfg_type
type_of (cfg_at c) = kernel_cfg_type
type_of (boxed_string s) = string_type

-- The cast tables have an entry for each type, to itself.
abbrev pub casts : SwigType → SwigType → Bool
casts connection_type connection_type = true
casts kernel_type kernel_type = true
casts kernel_cfg_type kernel_cfg_type = true
casts string_type string_type = true
casts _ _ = false

pub data Result (A : Type 0) : Type 0 where
  gives : A → Result A
  fails : Bytes → Result A

module _ ⦃lua : Lua⦄ where
  abbrev pub Args : Type 0
  Args = List (Value lua.Number)

  abbrev pub Wrap : Type 0 → Type 0
  Wrap A = World → Outcome (Result A)

  abbrev pub resume : {A B : Type 0} → Outcome (Result A) → (A → Wrap B) → Outcome (Result B)
  resume (ok (gives a) w) f = f a w
  resume (ok (fails e) w) f = ok (fails e) w
  resume (throws e w) f = throws e w
  resume (dies x) f = dies x

  infixl 5 ◌>>=◌ ◌>>◌
  abbrev pub ◌>>=◌ : {A B : Type 0} → Wrap A → (A → Wrap B) → Wrap B
  ◌>>=◌ m f w = resume (m w) f

  abbrev pub ◌>>◌ : {B : Type 0} → Wrap (Unit {0}) → Wrap B → Wrap B
  m >> k = m >>= λ _. k

  abbrev pub give : {A : Type 0} → A → Wrap A
  give a w = ok (gives a) w

  -- `SWIG_fail`, with the message pushed before.
  abbrev pub fail : {A : Type 0} → Bytes → Wrap A
  fail message w = ok (fails message) w

  abbrev pub lift : {A : Type 0} → M A → Wrap A
  lift m w = elim (m w) [ ok a v ↦ ok (gives a) v | throws e v ↦ throws e v | dies x ↦ dies x ]

  -- The value at an index of the stack.
  unfoldable pub arg : Args → ℕ → Value lua.Number
  arg [] i = other (lit "no value")
  arg (v ∷ args) zero = other (lit "no value")
  arg (v ∷ args) (suc zero) = v
  arg (v ∷ args) (suc (suc i)) = arg args (suc i)

  -- `SWIG_Lua_typename`.
  unfoldable pub typename : Value lua.Number → Bytes
  unfolding type_str
  typename nil = lit "nil"
  typename (boolean b) = lit "boolean"
  typename (number n) = lit "number"
  typename (string s) = lit "string"
  typename (userdata o own) = type_str (type_of o)
  typename (function f) = lit "function"
  typename (other name) = name

  -- `SWIG_isptrtype`.
  unfoldable pub is_ptr_type : Value lua.Number → Bool
  is_ptr_type nil = true
  is_ptr_type (userdata o own) = true
  is_ptr_type v = false

  -- `lua_isstring`.
  unfoldable pub is_string : Value lua.Number → Bool
  is_string (number n) = true
  is_string (string s) = true
  is_string v = false

  -- `SWIG_lua_isnilstring`.
  unfoldable pub is_nil_string : Value lua.Number → Bool
  unfolding is_string
  is_nil_string nil = true
  is_nil_string v = is_string v

  -- `lua_isnumber`.
  unfoldable pub is_number : Value lua.Number → Bool
  is_number (number n) = true
  is_number (string s) = elim (lua.of_text s) [ none ↦ false | some n ↦ true ]
  is_number v = false

  -- `lua_tostring` with `lua_rawlen`; none is the null pointer.
  unfoldable pub to_string : Value lua.Number → Option Bytes
  to_string (number n) = some (lua.to_text n)
  to_string (string s) = some s
  to_string v = none

  -- `(int)lua_tonumber`.
  unfoldable pub to_number : Value lua.Number → ℤ
  to_number (number n) = lua.to_int n
  to_number (string s) = elim (lua.of_text s) [ none ↦ pos 0 | some n ↦ lua.to_int n ]
  to_number v = pos 0

  -- The message of `SWIG_fail_arg`.
  unfoldable pub wrong_arg : (func_name : Bytes) → ℕ → (type : Bytes) → Value lua.Number → Bytes
  unfolding typename
  wrong_arg func_name argnum type v =
      lit "Error in "
      ++ (func_name
          ++ (lit " (arg "
              ++ (to_decimal argnum
                  ++ (lit "), expected '"
                      ++ (type ++ (lit "' got '" ++ (typename v ++ lit "'")))))))

  -- The message of `SWIG_check_num_args`.
  unfoldable pub wrong_count : (func_name : Bytes) → (a b n : ℕ) → Bytes
  wrong_count func_name a b n =
      lit "Error in "
      ++ (func_name
          ++ (lit " expected "
              ++ (to_decimal a
                  ++ (lit ".." ++ (to_decimal b ++ (lit " args, got " ++ to_decimal n))))))

  -- A test with the message of its failure.
  abbrev pub check : Bool → Bytes → Wrap (Unit {0})
  check true message w = ok (gives tt) w
  check false message w = ok (fails message) w

  unfoldable pub check_num_args : (func_name : Bytes) → (a b : ℕ) → Args → Wrap (Unit {0})
  check_num_args func_name a b args =
      check (leb a (length args) && leb (length args) b) (wrong_count func_name a b (length args))

  unfoldable pub check_arg :
      (Value lua.Number → Bool) → (func_name : Bytes) → ℕ → (type : Bytes) → Args → Wrap (Unit {0})
  unfolding arg
  check_arg test func_name argnum type args =
      check (test (arg args argnum)) (wrong_arg func_name argnum type (arg args argnum))

  -- `SWIG_Lua_ConvertPtr`, without flags; no result is an error, and a null pointer is none.
  unfoldable pub convert_ptr : Value lua.Number → SwigType → Option (Option Object)
  convert_ptr nil type = some none
  convert_ptr (userdata o own) type = elim (casts (type_of o) type) [
    | true ↦ some (some o)
    | false ↦ none
  ]
  convert_ptr v type = none

  -- `if (!SWIG_IsOK(SWIG_ConvertPtr(...))) SWIG_fail_ptr(...);`.
  unfoldable pub pointer : (func_name : Bytes) → ℕ → SwigType → Args → Wrap (Option Object)
  unfolding arg convert_ptr
  pointer func_name argnum type args w = elim (convert_ptr (arg args argnum) type) [
    | none ↦ ok (fails (wrong_arg func_name argnum (type_str type) (arg args argnum))) w
    | some p ↦ ok (gives p) w
  ]

  -- A pointer is used.
  abbrev pub deref : {A : Type 0} → Option A → Wrap A
  deref none w = dies null_pointer
  deref (some a) w = ok (gives a) w
