-- ===== src/Lua.antt =====
-- The Lua C API and the part of SWIG's runtime that src/script_engine.cpp uses. Neither is part of
-- the repository's own code, so they are a parameter: operations on an abstract Lua state, with the
-- laws of the reference manual that the engine relies on.
pub mod Values
pub use Values.*
use grind.Prelude.{ℕ, ℤ, suc, ◌+◌, ◌≤◌, ◌≡◌, ◌≢◌, Bool, Option, some, [], ◌∷◌, Bytes}

-- No byte of the text is a percent sign.
abbrev pub Plain : Bytes → Type 0
Plain [] = Unit {0}
Plain (c ∷ s) = (c ≢ b'%') × Plain s

pub record Lua : Type 1 where
  pub State : Type 0
  -- `lua_Number`, its value for a C integer, its conversion to `int`, the text that `lua_tostring`
  -- makes of it, and the number that a text stands for.
  pub Number : Type 0
  pub of_ℕ : ℕ → Number
  pub to_int : Number → ℤ
  pub to_text : Number → Bytes
  pub of_text : Bytes → Option Number
  -- `lua_open` and `luaL_openlibs`.
  pub lua_open : State
  -- `lua_gettop`.
  pub gettop : State → ℕ
  -- `lua_pop(L, n)`.
  pub pop : ℕ → State → State
  -- `lua_pushcfunction(L, stack_trace_printer)`.
  pub pushcfunction : State → State
  -- `lua_getfield(L, LUA_GLOBALSINDEX, name)`.
  pub getglobal : Bytes → State → State
  -- `lua_isfunction(L, -1)`.
  pub isfunction : State → Bool
  -- `lua_pushfstring(L, format)` with no further argument.
  pub pushfstring : Bytes → State → State
  -- `SWIG_Lua_NewPointerObj` with the type that `SWIG_TypeQueryModule` finds by name.
  pub pushpointer : Object → Bytes → State → State
  -- `lua_pcall(L, nargs, nresults, errfunc)`.
  pub pcall : (nargs nresults errfunc : ℕ) → State → Script Number State
  -- `luaL_dofile`.
  pub dofile : Bytes → State → Script Number State
  -- `lua_toboolean(L, -1)`.
  pub toboolean : State → Bool
  -- `lua_tostring(L, -1 - depth)`.
  pub tostring : ℕ → State → Option Bytes
  pub gettop-pop : (n : ℕ) (s : State) → n ≤ gettop s → gettop (pop n s) + n ≡ gettop s
  pub gettop-pushcfunction : (s : State) → gettop (pushcfunction s) ≡ gettop s + 1
  pub gettop-getglobal : (name : Bytes) (s : State) → gettop (getglobal name s) ≡ gettop s + 1
  pub gettop-pushfstring : (f : Bytes) (s : State) → gettop (pushfstring f s) ≡ gettop s + 1
  pub gettop-pushpointer :
      (o : Object) (t : Bytes) (s : State) → gettop (pushpointer o t s) ≡ gettop s + 1
  -- A call takes the function and its arguments off the stack, and leaves its results there, or
  -- one message.
  pub gettop-pcall :
      (nargs nresults errfunc : ℕ) (s : State)
      → suc nargs ≤ gettop s
      → Ends
          (λ rc t.
            (rc ≡ 0 → gettop t + suc nargs ≡ gettop s + nresults)
            × (rc ≢ 0 → gettop t + nargs ≡ gettop s))
          (pcall nargs nresults errfunc s)
  -- A format with no percent sign is pushed as it is.
  pub tostring-pushfstring :
      (f : Bytes) (s : State) → Plain f → tostring 0 (pushfstring f s) ≡ some f
  pub tostring-under :
      (f : Bytes) (d : ℕ) (s : State) → tostring (suc d) (pushfstring f s) ≡ tostring d s
