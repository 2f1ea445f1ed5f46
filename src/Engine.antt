-- ===== src/Engine.antt =====
-- src/script_engine.cpp: starting and stopping Lua and calling into it. A call that fails ends in
-- `handle_error`, which may stop the kernel; that stop is the argument `kernel_stop`, which
-- `Kernel.stop` puts in. Messages to the log are left out.
pub mod Balance
pub mod Calls
pub mod Shutdown
pub mod Arguments
pub mod Steady
pub mod Starting
pub mod Opening
pub mod Restarting
pub mod Tidy
pub mod Nested
pub mod Locating
use grind.Prelude.{
  ℕ, zero, suc, ◌+◌, ◌≡◌, Bool, true, false, not, Option, none, some, List, [], ◌∷◌, ◌++◌, Bytes,
  lit, c_str, length, ◌==◌, if◌then◌else◌,
}
use grind.Lua.{Lua, the_kernel, connection_at}
use grind.Host.{Host}
use grind.World.{Feeder, ErrorHandling, catch_and_die, catch_and_throw, Engine, World}
use grind.World.Monad.{
  bad_cast, null_pointer, assertion, Outcome, ok, throws, dies, M, pure, throw, die, or_die, ◌>>=◌,
  ◌>>◌, gets, os, feeder, set_engine,
}
use grind.World.Mutex.{lua_mutex, scoped}
use grind.Bridge.{Argument, string_at, object_at, state, set_state, push_arguments, run_script}

-- What `start` and `handle_error` throw.
abbrev pub unable_to_locate : Bytes
unable_to_locate = lit "Unable to locate grind configuration file!"

abbrev pub invalid_file : Bytes → Bytes
invalid_file path = lit "Specified configuration file is invalid: " ++ path

abbrev pub not_a_directory : Bytes → Bytes
not_a_directory path = lit "Please specify a grind configuration file, not a directory: " ++ path

abbrev pub lua_error : Bytes → Bytes
lua_error message = lit "Lua error: " ++ message

module _ ⦃lua : Lua⦄ where
  -- `lua_pop(lua_, n)`.
  unfoldable pub pop : ℕ → M (Unit {0})
  unfolding state set_state
  pop n = do s ← state; set_state (lua.pop n s)

  -- `for (int i = 0; i < retc; ++i) lua_pop(lua_, 1);`.
  unfoldable pub pop_results : ℕ → M (Unit {0})
  unfolding pop
  pop_results zero w = ok tt w
  pop_results (suc n) w = elim (pop 1 w) [
    | ok _ w' ↦ pop_results n w'
    | throws e w' ↦ throws e w'
    | dies x ↦ dies x
  ]

  -- `stop`, with the call of `grind.stop` that the flag `valid_state` asks for.
  unfoldable pub stop_after : M (Unit {0}) → M (Unit {0})
  stop_after farewell w = elim w.engine.lua_state [
    | none ↦ ok tt w
    | some s ↦ elim w.engine.stopping [
      | true ↦ ok tt w
      | false ↦
          (do
            set_engine λ e. record e { stopping = true }
            farewell
            set_engine λ e. record e { lua_state = none }
            set_engine λ e. record e { stopping = false })
            w
    ]
  ]

  -- `on_grind_start`.
  unfoldable pub on_grind_start : M (Unit {0})
  unfolding state pop
  on_grind_start = do s ← state; set_engine λ e. record e { running = lua.toboolean s }; pop 1

  -- The `switch` at the end of `handle_error`.
  unfoldable pub react : ErrorHandling → Bytes → M (Unit {0}) → M (Unit {0})
  react catch_and_throw error kernel_stop w = throws (lua_error error) w
  react catch_and_die error kernel_stop w = if w.kernel.running then kernel_stop w else ok tt w

  -- `handle_error`. The first `lua_pop` is made only if there is a message; the second finds the stack
  -- empty after a file that could not be loaded, and what that leaves is up to the parameter `pop`.
  unfoldable pub handle_error : M (Unit {0}) → M (Unit {0})
  unfolding state pop stop_after
  handle_error kernel_stop = do
    s ← state
    error ← elim (lua.tostring 0 s) [ none ↦ pure [] | some e ↦ (do pop 1; pure (c_str e)) ]
    pop 1
    set_engine λ e. record e { running = false }
    stop_after (pure tt)
    handling ← gets (λ w. w.engine.error_handling)
    react handling error kernel_stop

  module _ ⦃host : Host⦄ (kernel_stop : M (Unit {0})) where
    -- What `pass_to_lua` does behind `lua_pcall`.
    unfoldable pub finish_call : Option (M (Unit {0})) → (retc initial_size ec : ℕ) → M Bool
    unfolding state pop
    finish_call ret_extractor retc initial_size ec =
        if not (ec == 0) then (do handle_error kernel_stop; pure false) else do
          elim ret_extractor [ none ↦ pop_results retc | some extract ↦ extract ]
          pop 1
          end ← state
          if lua.gettop end == initial_size then pure true else die assertion

    -- What `pass_to_lua` does with the lock held, from the first state of Lua on.
    unfoldable pub call_from :
        Bytes → Option (M (Unit {0})) → ℕ → List Argument → lua.State → M Bool
    unfolding set_state
    call_from in_func ret_extractor retc arguments s =
        let initial_size = lua.gettop s in
        let handler = lua.pushcfunction s in
        let error_index = lua.gettop handler in
        let arbitrator = lua.getglobal (lit "arbitrator") handler in
        let named = lua.pushfstring (c_str in_func) arbitrator in
        do
          set_state arbitrator
          if not (lua.isfunction arbitrator) then (do handle_error kernel_stop; pure false) else do
            loaded ← or_die (push_arguments arguments named) bad_cast
            set_state loaded
            ec ← run_script (lua.pcall (length arguments + 1) retc error_index loaded)
            finish_call ret_extractor retc initial_size ec

    unfoldable pub call : Bytes → Option (M (Unit {0})) → ℕ → List Argument → M Bool
    unfolding state call_from
    call in_func ret_extractor retc arguments = do
      s ← state
      call_from in_func ret_extractor retc arguments s

    unfoldable pub pass_to_lua : Bytes → Option (M (Unit {0})) → ℕ → List Argument → M Bool
    unfolding scoped call
    pass_to_lua in_func ret_extractor retc arguments =
        scoped lua_mutex (call in_func ret_extractor retc arguments)

    -- `pass_to_lua` for its effect.
    unfoldable pub notify : Bytes → List Argument → M (Unit {0})
    notify in_func arguments = do done ← pass_to_lua in_func none 0 arguments; pure tt

    unfoldable pub stop : (valid_state : Bool) → M (Unit {0})
    unfolding stop_after
    stop true = stop_after (notify (lit "grind.stop") [])
    stop false = stop_after (pure tt)

    -- The loop of `locate_file`; the file's name is the one that the loop spells, whatever it is
    -- called with.
    unfoldable pub locate_file : List Bytes → (filename : Bytes) → M Bytes
    locate_file [] filename w = ok [] w
    locate_file (d ∷ directories) filename w =
        let skip = λ (w' : World). locate_file directories filename w' in
        (do
          directory ← os (λ now. host.is_directory now d)
          if not directory then skip else do
            let file = host.slash d (lit "config.lua")
            there ← os (λ now. host.exists now file)
            if there then pure file else skip)
          w

    unfoldable pub locate_config : M Bytes
    unfolding locate_file
    locate_config =
        locate_file (lit "/etc/grind" ∷ lit "/usr/share/grind" ∷ lit "/usr/local/share/grind" ∷ [])
          (lit "config.lua")

    -- The first part of `start`: where the configuration is.
    unfoldable pub choose_config : Bytes → M (Unit {0})
    unfolding locate_config
    choose_config [] = do
      path ← locate_config
      set_engine λ e. record e { cfg_path = path }
      elim path [ [] ↦ throw unable_to_locate | c ∷ rest ↦ pure tt ]
    choose_config (c ∷ rest) = do
      let path = c ∷ rest
      set_engine λ e. record e { cfg_path = path }
      there ← os (λ now. host.exists now path)
      if not there then throw (invalid_file path) else do
        directory ← os (λ now. host.is_directory now path)
        if directory then throw (not_a_directory path) else pure tt

    unfoldable pub start : Bytes → M (Unit {0})
    unfolding set_state
    start in_cfg_path w = elim w.engine.lua_state [
      | some s ↦ ok tt w
      | none ↦
          (do
            choose_config in_cfg_path
            path ← gets (λ w. w.engine.cfg_path)
            set_state lua.lua_open
            rc ← run_script (lua.dofile (c_str path) lua.lua_open)
            if rc == 1 then handle_error kernel_stop else do
              set_engine λ e. record e { running = true }
              done ←
                  pass_to_lua (lit "grind.start") (some on_grind_start) 1
                    (record { type = lit "grind::kernel"; value = object_at the_kernel } ∷ [])
              pure tt)
            w
    ]

    unfoldable pub restart : M (Unit {0})
    restart w = elim w.engine.lua_state [
      | none ↦ ok tt w
      | some s ↦ (do stop true; path ← gets (λ w. w.engine.cfg_path); start path) w
    ]

    -- `relay`: the label is read through the feeder's address.
    unfoldable pub relay : Bytes → Option ℕ → M (Unit {0})
    unfolding notify
    relay buf f = do
      f ← or_die f null_pointer
      x ← feeder f
      notify (lit "grind.handle") (
          record { type = lit "std::string"; value = string_at buf }
          ∷ record { type = lit "std::string"; value = string_at x.label }
          ∷ [])

    unfoldable pub handle_cmd : Bytes → ℕ → M (Unit {0})
    unfolding notify
    handle_cmd buf watcher = notify (lit "grind.handle_cmd") (
        record { type = lit "std::string"; value = string_at buf }
        ∷ record { type = lit "grind::connection"; value = object_at (connection_at watcher) }
        ∷ [])
