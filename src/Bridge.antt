-- ===== src/Bridge.antt =====
-- The way between src/script_engine.cpp and Lua: how `pass_to_lua` puts its arguments on the stack,
-- and how a run of Lua code calls back into the program through the wrappers.
pub mod Untouched
pub mod Scripts
pub mod Steady
pub mod Tidy
use grind.Prelude.{
  ℕ, zero, suc, ◌+◌, ◌≡◌, Bool, true, false, not, ◌&&◌, ◌||◌, Option, none, some, List, [], ◌∷◌,
  ◌++◌, Bytes, lit, str_eq, c_str, length, ◌==◌, if◌then◌else◌,
}
use grind.Lua.{
  Lua, Callback, call, index, newindex, collect, Reply, returns, raises, Script, done, ask, Object,
}
use grind.Host.{Host}
use grind.World.{Feeder, ErrorHandling, catch_and_die, catch_and_throw, Cfg, Kernel, Engine, World}
use grind.World.Monad.{
  Fault, null_lua, bad_cast, assertion, Outcome, ok, throws, dies, M, pure, throw, die, ◌>>=◌, ◌>>◌,
  gets, modify, os, feeder, set_kernel, set_engine,
}
use grind.World.Mutex.{lua_mutex, scoped}
use grind.Swig.{invoke, class_destruct}
use grind.Swig.Classes.{class_get, class_set}
use grind.Swig.Arguments.{Args, Result, gives, fails}

-- One of the pairs of a type name and an address that `pass_to_lua` is called with.
pub data Pointer : Type 0 where
  string_at : Bytes → Pointer
  object_at : Object → Pointer

pub record Argument : Type 0 where
  pub type : Bytes
  pub value : Pointer

module _ ⦃lua : Lua⦄ where
  -- `lua_`, where it is used without a test.
  unfoldable pub state : M lua.State
  state w = elim w.engine.lua_state [ none ↦ dies null_lua | some s ↦ ok s w ]

  unfoldable pub set_state : lua.State → M (Unit {0})
  set_state s = set_engine λ e. record e { lua_state = some s }

  -- One round of the loop over the arguments.
  unfoldable pub push_argument : Argument → lua.State → Option lua.State
  push_argument a s =
      if str_eq a.type (lit "std::string")
      then (elim a.value [
        | string_at text ↦ some (lua.pushfstring (c_str text) s)
        | object_at o ↦ none
      ])
      else (elim a.value [
        | string_at text ↦ none
        | object_at o ↦ some (lua.pushpointer o (a.type ++ lit " *") s)
      ])

  unfoldable pub push_arguments : List Argument → lua.State → Option lua.State
  push_arguments [] s = some s
  push_arguments (a ∷ rest) s = elim (push_argument a s) [
    | none ↦ none
    | some t ↦ push_arguments rest t
  ]

  module _ ⦃host : Host⦄ where
    -- What a wrapper hands back to Lua.
    abbrev reply : Outcome (Result Args) → Outcome (Reply lua.Number)
    reply (ok (gives results) w) = ok (returns results) w
    reply (ok (fails message) w) = ok (raises message) w
    reply (throws what w) = throws what w
    reply (dies x) = dies x

    -- What a script's call into the program does.
    unfoldable pub callback : Callback lua.Number → M (Reply lua.Number)
    unfolding invoke
    callback (call f args) w = reply (invoke f args w)
    callback (index o own key) w = reply (class_get o own key w)
    callback (newindex o own key v) w = reply (class_set o own key v w)
    callback (collect o own) w = elim (class_destruct o own w) [
      | ok _ v ↦ ok (returns []) v
      | throws what v ↦ throws what v
      | dies x ↦ dies x
    ]

    -- Lua code runs until it ends; its result is the return code, and its state is `lua_`'s.
    unfoldable pub run_script : Script lua.Number lua.State → M ℕ
    unfolding set_state
    run_script (done rc s) w = (do set_state s; pure rc) w
    run_script (ask c k) w = elim (callback c w) [
      | ok reply w' ↦ run_script (k reply) w'
      | throws what w' ↦ throws what w'
      | dies x ↦ dies x
    ]
