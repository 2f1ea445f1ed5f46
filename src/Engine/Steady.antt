-- ===== src/Engine/Steady.antt =====
-- The calls into Lua keep the registry steady, also when they fail and stop the kernel.
use grind.Prelude.{
  ℕ, zero, suc, ◌+◌, ◌==◌, not, arith, Bool, true, false, Bytes, c_str, lit, List, [], length,
  Option, none, some,
}
use grind.Lua.{Lua}
use grind.Host.{Host}
use grind.World.{ErrorHandling, catch_and_die, catch_and_throw, World}
use grind.World.Monad.{◌>>◌, bad_cast, assertion, null_pointer, Outcome, ok, M, pure}
use grind.World.Mutex.{lua_mutex}
use grind.Registry.Invariant.{Steady, Steady-Order, InMap}
use grind.World.Frame.{Leads}
use grind.Registry.Steady.{Safe-Unseen}
use grind.Registry.Steps.{
  Keeps, Keeps-if, Keeps-bind, Keeps-pure, Keeps-gets, Keeps-throw, Keeps-die, set_engine-Keeps,
  or_die-Keeps, feeder-Keeps, scoped-Keeps,
}
use grind.Bridge.{Argument, state, set_state, push_arguments}
use grind.Bridge.Steady.{run_script-Safe}
use grind.Engine.{
  pop, pop_results, stop_after, on_grind_start, react, handle_error, finish_call, call_from, call,
  pass_to_lua, notify, stop, relay, handle_cmd,
}

module _ ⦃lua : Lua⦄ (l : Bytes) (f : ℕ) where
  state-Keeps : Keeps l f state
  unfolding state
  state-Keeps = record { run = λ w. Safe-Unseen l f w (state w) (ground arith) }

  set_state-Keeps : (s : lua.State) → Keeps l f (set_state s)
  unfolding set_state
  set_state-Keeps s = set_engine-Keeps l f _

  pop-Keeps : (n : ℕ) → Keeps l f (pop n)
  unfolding pop
  pop-Keeps n = Keeps-bind l f state-Keeps (λ s. set_state-Keeps (lua.pop n s))

  pop_results-Keeps : (n : ℕ) → Keeps l f (pop_results n)
  unfolding pop_results
  pop_results-Keeps zero = Keeps-pure l f tt
  pop_results-Keeps (suc n) = Keeps-bind l f (pop-Keeps 1) (λ _. pop_results-Keeps n)

  pub on_grind_start-Keeps : Keeps l f on_grind_start
  unfolding on_grind_start
  on_grind_start-Keeps =
      Keeps-bind l f state-Keeps (λ s. Keeps-bind l f (set_engine-Keeps l f _) (λ _. pop-Keeps 1))

  stop_after_cases :
      (w : World) (x : Outcome (Unit {0})) (s : Option lua.State) (b : Bool)
      → Leads (Steady l f) InMap w x
      → Leads
          (Steady l f)
          InMap
          w
          (elim s [ none ↦ ok tt w | some t ↦ elim b [ true ↦ ok tt w | false ↦ x ] ])
  stop_after_cases w x none b h = (Steady-Order l f).same w
  stop_after_cases w x (some s) true h = (Steady-Order l f).same w
  stop_after_cases w x (some s) false h = h

  message-Keeps :
      (message : Option Bytes)
      → Keeps l f {A = Bytes}
          (elim message [ none ↦ pure [] | some e ↦ (do pop 1; pure (c_str e)) ])
  message-Keeps none = Keeps-pure l f {A = Bytes} []
  message-Keeps (some e) = Keeps-bind l f (pop-Keeps 1) (λ _. Keeps-pure l f (c_str e))

  stop_after-Keeps :
      {farewell : M (Unit {0})} → Keeps l f farewell → Keeps l f (stop_after farewell)
  unfolding stop_after
  stop_after-Keeps {farewell} h =
      let close = Keeps-bind l f (set_engine-Keeps l f (λ e. record e { stopping = true })) (λ _.
        Keeps-bind l f h (λ _.
          Keeps-bind l f (set_engine-Keeps l f (λ e. record e { lua_state = none }))
            (λ _. set_engine-Keeps l f (λ e. record e { stopping = false })))) in
      record { run = λ w. stop_after_cases w _ w.engine.lua_state w.engine.stopping (close.run w) }

  module _ {kernel_stop : M (Unit {0})} (safe_stop : Keeps l f kernel_stop) where
    react-Keeps :
        (handling : ErrorHandling) (error : Bytes) → Keeps l f (react handling error kernel_stop)
    unfolding react
    react-Keeps catch_and_throw error = Keeps-throw l f _
    react-Keeps catch_and_die error = record { run = λ w. ground (arith, safe_stop.run w) }

    pub handle_error-Keeps : Keeps l f (handle_error kernel_stop)
    unfolding handle_error
    handle_error-Keeps = Keeps-bind l f state-Keeps (λ s.
        Keeps-bind l f (message-Keeps (lua.tostring 0 s)) (λ error.
          Keeps-bind l f (pop-Keeps 1) (λ _.
            Keeps-bind l f (set_engine-Keeps l f (λ e. record e { running = false })) (λ _.
              Keeps-bind l f (stop_after-Keeps (Keeps-pure l f tt)) (λ _.
                Keeps-bind l f (Keeps-gets l f (λ w. w.engine.error_handling))
                  (λ handling. react-Keeps handling error))))))

    module _ ⦃host : Host⦄ where
      -- What fetches the results keeps the registry steady, if there is any.
      abbrev pub Fetches : Option (M (Unit {0})) → Type 0
      Fetches none = Unit {0}
      Fetches (some extract) = Keeps l f extract

      extract-Keeps :
          (ret_extractor : Option (M (Unit {0}))) (retc : ℕ)
          → Fetches ret_extractor
          → Keeps l f (elim ret_extractor [ none ↦ pop_results retc | some extract ↦ extract ])
      extract-Keeps none retc h = pop_results-Keeps retc
      extract-Keeps (some extract) retc h = h

      -- A call whose extraction of the results keeps the registry steady.
      module _ (ret_extractor : Option (M (Unit {0}))) (retc : ℕ)
          (extracts : Fetches ret_extractor) where
        finish_call-Keeps :
            (initial_size ec : ℕ)
            → Keeps l f (finish_call kernel_stop ret_extractor retc initial_size ec)
        unfolding finish_call
        finish_call-Keeps initial_size ec =
            Keeps-if l f (not (ec == 0))
              (Keeps-bind l f handle_error-Keeps (λ _. Keeps-pure l f false))
              (Keeps-bind l f (extract-Keeps ret_extractor retc extracts) (λ _.
                Keeps-bind l f (pop-Keeps 1) (λ _. Keeps-bind l f state-Keeps (λ end.
                  Keeps-if l f (lua.gettop end == initial_size) (Keeps-pure l f true)
                    (Keeps-die l f assertion (ground arith))))))

        call_from-Keeps :
            (in_func : Bytes) (arguments : List Argument) (s : lua.State)
            → Keeps l f (call_from kernel_stop in_func ret_extractor retc arguments s)
        unfolding call_from
        call_from-Keeps in_func arguments s =
            let handler = lua.pushcfunction s in
            let arbitrator = lua.getglobal (lit "arbitrator") handler in
            let named = lua.pushfstring (c_str in_func) arbitrator in
            Keeps-bind l f (set_state-Keeps arbitrator) (λ _.
              Keeps-if l f (not (lua.isfunction arbitrator))
                (Keeps-bind l f handle_error-Keeps (λ _. Keeps-pure l f false))
                (Keeps-bind l f
                  (or_die-Keeps l f (push_arguments arguments named) bad_cast (ground arith))
                  (λ loaded. Keeps-bind l f (set_state-Keeps loaded) (λ _.
                    Keeps-bind l f
                      (record {
                        run =
                            run_script-Safe l f
                              (lua.pcall (length arguments + 1) retc (lua.gettop handler) loaded);
                      })
                      (λ ec. finish_call-Keeps (lua.gettop s) ec)))))

        pub pass_to_lua-Keeps :
            (in_func : Bytes) (arguments : List Argument)
            → Keeps l f (pass_to_lua kernel_stop in_func ret_extractor retc arguments)
        unfolding pass_to_lua call
        pass_to_lua-Keeps in_func arguments =
            scoped-Keeps l f lua_mutex
              (Keeps-bind l f state-Keeps (λ s. call_from-Keeps in_func arguments s))

      pub notify-Keeps :
          (in_func : Bytes) (arguments : List Argument)
          → Keeps l f (notify kernel_stop in_func arguments)
      unfolding notify
      notify-Keeps in_func arguments =
          Keeps-bind l f (pass_to_lua-Keeps none 0 tt in_func arguments) (λ done. Keeps-pure l f tt)

      pub stop-Keeps : Keeps l f (stop kernel_stop true)
      unfolding stop
      stop-Keeps = stop_after-Keeps (notify-Keeps (lit "grind.stop") [])

      pub relay-Keeps : (buf : Bytes) (g : Option ℕ) → Keeps l f (relay kernel_stop buf g)
      unfolding relay
      relay-Keeps buf g =
          Keeps-bind l f (or_die-Keeps l f g null_pointer (ground arith))
            (λ g. Keeps-bind l f (feeder-Keeps l f g) (λ x. notify-Keeps _ _))

      pub handle_cmd-Keeps : (buf : Bytes) (c : ℕ) → Keeps l f (handle_cmd kernel_stop buf c)
      unfolding handle_cmd
      handle_cmd-Keeps buf c = notify-Keeps _ _
