-- ===== src/Swig/Texts.antt =====
-- Strings that a script assigns and reads through
-- src/bindings/SWIG/wrappers/lua_grind_wrap.cxx.
use grind.Prelude.{
  ℕ, ◌≡◌, ◌==◌, if◌then◌else◌, ◌%◌, ◌^◌, refl, ap, ◌∙◌, Bool, some, [], ◌∷◌, Bytes, c_str, length,
  arith,
}
use grind.Lua.{
  Lua, boxed_string, Value, number, string, userdata, string_assign, string_size, string_c_str,
}
use grind.Host.{Host}
use grind.World.{World}
use grind.World.Monad.{Outcome, ok}
use grind.Swig.{invoke}
use grind.Swig.Arguments.{
  Args, Result, gives, arg, check_num_args, check_arg, convert_ptr, pointer, is_ptr_type, is_string,
  is_nil_string, to_string,
}
use grind.Swig.Strings

-- A C string has no NUL to stop at.
c_str-c_str : (s : Bytes) → c_str (c_str s) ≡ c_str s
unfolding c_str
c_str-c_str [] = refl
c_str-c_str (c ∷ s) = ground (arith, c_str-c_str s)

module _ ⦃lua : Lua⦄ where
  -- The state in which the string `b` is `s`, and nothing else has changed.
  abbrev pub with_string : (b : ℕ) → (s : Bytes) → World → World
  with_string b s w = record w {
    boxes = record (w.boxes) { string_at = λ c. if b == c then some s else w.boxes.string_at c };
  }

  string_at-with_string :
      (b : ℕ) (s : Bytes) (w : World) → (with_string b s w).boxes.string_at b ≡ some s
  string_at-with_string b s w = ground arith

  module _ ⦃host : Host⦄ where
    assign-with_string :
        (b : ℕ) (own : Bool) (v : Value lua.Number) (s old : Bytes) (w : World)
        → w.boxes.string_at b ≡ some old
        → to_string v ≡ some s
        → invoke string_assign (userdata (boxed_string b) own ∷ v ∷ []) w
          ≡ ok (gives []) (with_string b (c_str s) w)
    unfolding invoke Strings.wrap_string_assign check_num_args check_arg convert_ptr pointer arg
        is_ptr_type is_string is_nil_string to_string Strings.store_string
    assign-with_string b own v s old w h e = ground (arith, h, e)

    query :
        (b : ℕ) (own : Bool) (s : Bytes) (w : World)
        → w.boxes.string_at b ≡ some s
        → (invoke string_c_str (userdata (boxed_string b) own ∷ []) w
            ≡ ok (gives (string (c_str s) ∷ [])) w)
          × (invoke string_size (userdata (boxed_string b) own ∷ []) w
              ≡ ok (gives (number (lua.of_ℕ (length s % 2 ^ 32)) ∷ [])) w)
    unfolding invoke Strings.wrap_string_c_str Strings.wrap_string_size Strings.string_query
        check_num_args check_arg convert_ptr pointer arg is_ptr_type Strings.load_string
    query b own s w h = (ground (arith, h), ground (arith, h))

    -- The string gets the text and nothing else in the whole state changes, and it reads back.
    abbrev pub ReadsText :
        (b : ℕ) → (own : Bool) → (s : Bytes) → World → Outcome (Result Args) → Type 0
    ReadsText b own s w x =
        let v : World = with_string b s w in
        (x ≡ ok (gives []) v)
        × (invoke string_c_str (userdata (boxed_string b) own ∷ []) v
            ≡ ok (gives (string s ∷ [])) v)
        × (invoke string_size (userdata (boxed_string b) own ∷ []) v
            ≡ ok (gives (number (lua.of_ℕ (length s % 2 ^ 32)) ∷ [])) v)

    -- A live string that a script has assigned a string or a number reads, by `c_str`, as its bytes
    -- up to the first NUL, and, by `size`, as the number of those, modulo 2^32; no other string, and
    -- nothing else in the whole state, has changed.
    pub string_assign-ReadsText :
        (b : ℕ) (own own_later : Bool) (v : Value lua.Number) (s old : Bytes) (w : World)
        → w.boxes.string_at b ≡ some old
        → to_string v ≡ some s
        → ReadsText b own_later
            (c_str s)
            w
            (invoke string_assign (userdata (boxed_string b) own ∷ v ∷ []) w)
    string_assign-ReadsText b own own_later v s old w h e =
        let u : World = with_string b (c_str s) w in
        let (text, size) = query b own_later (c_str s) u (string_at-with_string b (c_str s) w) in
        (
          assign-with_string b own v s old w h e,
          text ∙ ap (λ l. ok (gives (string l ∷ [])) u) (c_str-c_str s),
          size,
        )
