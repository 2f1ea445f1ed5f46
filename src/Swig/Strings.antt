-- ===== src/Swig/Strings.antt =====
-- The wrappers of `std::string` in src/bindings/SWIG/wrappers/lua_grind_wrap.cxx.
use grind.Prelude.{
  ℕ, suc, ◌%◌, ◌^◌, Bool, true, false, none, some, [], ◌∷◌, ◌++◌, Bytes, lit, c_str, length,
}
use grind.Lua.{Lua, Object, boxed_string, boolean, number, string, userdata}
use grind.World.{update}
use grind.World.Monad.{dangling, ok, dies, M}
use grind.Swig.Arguments.{
  string_type, Args, Wrap, ◌>>=◌, ◌>>◌, give, fail, lift, arg, is_ptr_type, is_nil_string,
  to_string, check_num_args, check_arg, pointer, deref,
}

module _ ⦃lua : Lua⦄ where
  -- `new std::string(s)`: the object stands at a fresh address.
  unfoldable pub new_boxed : Bytes → M Object
  new_boxed s w =
      let b = w.boxes.next_box in
      ok (boxed_string b) (record w {
        boxes = record (w.boxes) {
          string_at = update (w.boxes.string_at) b (some s);
          next_box = suc b;
        };
      })

  -- The text of a string object. No other object has its type.
  unfoldable pub load_string : Object → M Bytes
  load_string (boxed_string b) w = elim (w.boxes.string_at b) [
    | none ↦ dies dangling
    | some s ↦ ok s w
  ]
  load_string o w = dies dangling

  unfoldable pub store_string : Object → Bytes → M (Unit {0})
  store_string (boxed_string b) s w = elim (w.boxes.string_at b) [
    | none ↦ dies dangling
    | some old ↦ ok tt (record w {
      boxes = record (w.boxes) { string_at = update (w.boxes.string_at) b (some s) };
    })
  ]
  store_string o s w = dies dangling

  unfoldable pub wrap_new_string_0 : Args → Wrap Args
  unfolding new_boxed
  wrap_new_string_0 args = do
    check_num_args (lit "std::string::string") 0 0 args
    result ← lift (new_boxed [])
    give (userdata result true ∷ [])

  -- A string made of the null pointer is undefined.
  unfoldable pub wrap_new_string_1 : Args → Wrap Args
  unfolding new_boxed to_string
  wrap_new_string_1 args = do
    check_num_args (lit "std::string::string") 1 1 args
    check_arg is_nil_string (lit "std::string::string") 1 (lit "char const *") args
    arg1 ← deref (to_string (arg args 1))
    result ← lift (new_boxed (c_str arg1))
    give (userdata result true ∷ [])

  abbrev wrong_new_string : Bytes
  wrong_new_string =
      lit "Wrong arguments for overloaded function 'new_string'"
      ++ (10 ∷ lit "  Possible C/C++ prototypes are:"
          ++ (10 ∷ lit "    std::string::string()"
              ++ (10 ∷ lit "    std::string::string(char const *)" ++ 10 ∷ [])))

  unfoldable pub wrap_new_string : Args → Wrap Args
  unfolding wrap_new_string_0 wrap_new_string_1
  wrap_new_string [] w = wrap_new_string_0 [] w
  wrap_new_string (v ∷ []) w = elim (is_nil_string v) [
    | true ↦ wrap_new_string_1 (v ∷ []) w
    | false ↦ fail wrong_new_string w
  ]
  wrap_new_string args w = fail wrong_new_string w

  -- What the five queries share.
  unfoldable pub string_query : (func_name func : Bytes) → (Bytes → Args) → Args → Wrap Args
  unfolding load_string
  string_query func_name func results args = do
    check_num_args func_name 1 1 args
    check_arg is_ptr_type func_name 1 (lit "std::string const *") args
    p ← pointer func 1 string_type args
    arg1 ← deref p
    s ← lift (load_string arg1)
    give (results s)

  -- The cast to `unsigned int`.
  abbrev pub unsigned : ℕ → ℕ
  unsigned n = n % 2 ^ 32

  abbrev pub size_results : Bytes → Args
  size_results s = number (lua.of_ℕ (unsigned (length s))) ∷ []

  unfoldable pub is_empty : Bytes → Bool
  is_empty [] = true
  is_empty (c ∷ s) = false

  unfoldable pub wrap_string_size : Args → Wrap Args
  unfolding string_query
  wrap_string_size = string_query (lit "std::string::size") (lit "string_size") size_results

  unfoldable pub wrap_string_length : Args → Wrap Args
  unfolding string_query
  wrap_string_length = string_query (lit "std::string::length") (lit "string_length") size_results

  unfoldable pub wrap_string_empty : Args → Wrap Args
  unfolding string_query is_empty
  wrap_string_empty =
      string_query (lit "std::string::empty") (lit "string_empty") (λ s. boolean (is_empty s) ∷ [])

  unfoldable pub wrap_string_c_str : Args → Wrap Args
  unfolding string_query
  wrap_string_c_str =
      string_query (lit "std::string::c_str") (lit "string_c_str") (λ s. string (c_str s) ∷ [])

  -- `data()` is pushed as a C string, too.
  unfoldable pub wrap_string_data : Args → Wrap Args
  unfolding string_query
  wrap_string_data =
      string_query (lit "std::string::data") (lit "string_data") (λ s. string (c_str s) ∷ [])

  unfoldable pub wrap_string_assign : Args → Wrap Args
  unfolding store_string
  wrap_string_assign args = do
    check_num_args (lit "std::string::assign") 2 2 args
    check_arg is_ptr_type (lit "std::string::assign") 1 (lit "std::string *") args
    check_arg is_nil_string (lit "std::string::assign") 2 (lit "char const *") args
    p ← pointer (lit "string_assign") 1 string_type args
    arg1 ← deref p
    arg2 ← deref (to_string (arg args 2))
    lift (store_string arg1 (c_str arg2))
    give []

  -- `swig_delete_string`.
  unfoldable pub swig_delete_string : ℕ → M (Unit {0})
  swig_delete_string b w = elim (w.boxes.string_at b) [
    | none ↦ dies dangling
    | some old ↦
        ok tt
          (record w { boxes = record (w.boxes) { string_at = update (w.boxes.string_at) b none } })
  ]
