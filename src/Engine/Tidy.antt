-- ===== src/Engine/Tidy.antt =====
-- The mutexes over a call of Lua, also one that fails: src/script_engine.cpp.
use grind.Prelude.{
  ℕ, zero, suc, ◌+◌, ◌≡◌, refl, ◌==◌, not, arith, Bool, true, false, Bytes, c_str, lit, List, [],
  length, Option, none, some,
}
use grind.Lua.{Lua}
use grind.Host.{Host}
use grind.World.{ErrorHandling, catch_and_die, catch_and_throw, World}
use grind.World.Monad.{
  ◌>>◌, bad_cast, assertion, dangling, null_pointer, null_lua, Outcome, ok, dies, M, pure,
}
use grind.World.Tidy.{
  Tidy, EndsTidy, Free, Free-bind, Free-pure, Free-if, Free-die, Free-set_engine, Free-or_die,
  Free-feeder, Free-scoped,
}
use grind.Bridge.{Argument, state, set_state, push_arguments}
use grind.Bridge.Tidy.{run_script-Free}
use grind.Engine.{
  pop, pop_results, stop_after, react, handle_error, finish_call, call_from, call, pass_to_lua,
  notify, relay, handle_cmd,
}
pub mod Start

module _ ⦃lua : Lua⦄ where
  module _ (b : Bool) where
    pub state-Free : Free b state
    unfolding state
    state-Free = record { run = λ w t. at w (w.engine.lua_state) t }
      where
        at :
            (w : World) (s : Option lua.State)
            → Tidy b w
            → EndsTidy b (elim s [ none ↦ dies null_lua | some s ↦ ok s w ])
        at w none t = ground arith
        at w (some s) t = t

    pub set_state-Free : (s : lua.State) → Free b (set_state s)
    unfolding set_state
    set_state-Free s = Free-set_engine b _ (λ e. (refl, refl))

    pub pop-Free : (n : ℕ) → Free b (pop n)
    unfolding pop
    pop-Free n = Free-bind b state-Free (λ s. set_state-Free (lua.pop n s))

    pop_results-Free : (n : ℕ) → Free b (pop_results n)
    unfolding pop_results
    pop_results-Free zero = Free-pure b tt
    pop_results-Free (suc n) = Free-bind b (pop-Free 1) (λ _. pop_results-Free n)

    stop_after_cases :
        (w : World) (x : Outcome (Unit {0})) (s : Option lua.State) (c : Bool)
        → Tidy b w
        → EndsTidy b x
        → EndsTidy b (elim s [ none ↦ ok tt w | some t ↦ elim c [ true ↦ ok tt w | false ↦ x ] ])
    stop_after_cases w x none c t h = t
    stop_after_cases w x (some s) true t h = t
    stop_after_cases w x (some s) false t h = h

    stop_after-Free : {farewell : M (Unit {0})} → Free b farewell → Free b (stop_after farewell)
    unfolding stop_after
    stop_after-Free {farewell} h =
        let close =
          Free-bind b (Free-set_engine b (λ e. record e { stopping = true }) (λ e. (refl, refl)))
            (λ _. Free-bind b h (λ _.
              Free-bind b
                (Free-set_engine b (λ e. record e { lua_state = none }) (λ e. (refl, refl)))
                (λ _.
                  Free-set_engine b (λ e. record e { stopping = false }) (λ e. (refl, refl))))) in
        record {
          run = λ w t. stop_after_cases w _ w.engine.lua_state w.engine.stopping t (close.run w t);
        }

    message-Free :
        (message : Option Bytes)
        → Free {A = Bytes} b (elim message [ none ↦ pure [] | some e ↦ (do pop 1; pure (c_str e)) ])
    message-Free none = Free-pure b {A = Bytes} []
    message-Free (some e) = Free-bind b (pop-Free 1) (λ _. Free-pure b (c_str e))

    react-Tidy :
        (kernel_stop : M (Unit {0})) (error : Bytes) (w : World) (handling : ErrorHandling)
        → handling ≡ catch_and_throw
        → Tidy b w
        → EndsTidy b (react handling error kernel_stop w)
    unfolding react
    react-Tidy kernel_stop error w catch_and_throw e t = t
    react-Tidy kernel_stop error w catch_and_die e t = absurd (ground (arith, e))

    module _ (kernel_stop : M (Unit {0})) where
      pub handle_error-Free : Free b (handle_error kernel_stop)
      unfolding handle_error
      handle_error-Free = Free-bind b state-Free (λ s.
          Free-bind b (message-Free (lua.tostring 0 s)) (λ error. Free-bind b (pop-Free 1) (λ _.
            Free-bind b (Free-set_engine b (λ e. record e { running = false }) (λ e. (refl, refl)))
              (λ _. Free-bind b (stop_after-Free (Free-pure b tt)) (λ _. record {
                run = λ w t. react-Tidy kernel_stop error w (w.engine.error_handling) (t.1) t;
              })))))

      module _ ⦃host : Host⦄ where
        finish_call-Free :
            (extractor : Option (M (Unit {0}))) (retc : ℕ)
            → Free b (elim extractor [ none ↦ pop_results retc | some extract ↦ extract ])
            → (initial_size ec : ℕ)
            → Free b (finish_call kernel_stop extractor retc initial_size ec)
        unfolding finish_call
        finish_call-Free extractor retc h initial_size ec =
            Free-if b (not (ec == 0)) (Free-bind b handle_error-Free (λ _. Free-pure b false)) (
              Free-bind b h (λ _. Free-bind b (pop-Free 1) (λ _. Free-bind b state-Free (λ end.
                Free-if b (lua.gettop end == initial_size) (Free-pure b true)
                  (Free-die b assertion (ground arith))))))

        call_from-Free :
            (in_func : Bytes) (extractor : Option (M (Unit {0}))) (retc : ℕ)
            → Free b (elim extractor [ none ↦ pop_results retc | some extract ↦ extract ])
            → (arguments : List Argument) (s : lua.State)
            → Free b (call_from kernel_stop in_func extractor retc arguments s)
        unfolding call_from
        call_from-Free in_func extractor retc h arguments s =
            let handler = lua.pushcfunction s in
            let arbitrator = lua.getglobal (lit "arbitrator") handler in
            let named = lua.pushfstring (c_str in_func) arbitrator in
            Free-bind b (set_state-Free arbitrator) (λ _.
              Free-if b (not (lua.isfunction arbitrator))
                (Free-bind b handle_error-Free (λ _. Free-pure b false))
                (Free-bind b
                  (Free-or_die b (push_arguments arguments named) bad_cast (ground arith))
                  (λ loaded. Free-bind b (set_state-Free loaded) (λ _.
                    Free-bind b
                      (run_script-Free b
                        (lua.pcall (length arguments + 1) retc (lua.gettop handler) loaded))
                      (λ ec. finish_call-Free extractor retc h (lua.gettop s) ec)))))

  module _ ⦃host : Host⦄ (kernel_stop : M (Unit {0})) where
    pub pass_to_lua-Free :
        (in_func : Bytes) (extractor : Option (M (Unit {0}))) (retc : ℕ)
        → Free true (elim extractor [ none ↦ pop_results retc | some extract ↦ extract ])
        → (arguments : List Argument)
        → Free false (pass_to_lua kernel_stop in_func extractor retc arguments)
    unfolding pass_to_lua call
    pass_to_lua-Free in_func extractor retc h arguments = Free-scoped (
        Free-bind true (state-Free true)
          (λ s. call_from-Free true kernel_stop in_func extractor retc h arguments s))

    pub notify-Free :
        (in_func : Bytes) (arguments : List Argument)
        → Free false (notify kernel_stop in_func arguments)
    unfolding notify
    notify-Free in_func arguments =
        Free-bind false (pass_to_lua-Free in_func none 0 (pop_results-Free true 0) arguments)
          (λ done. Free-pure false tt)

    pub relay-Free : (buf : Bytes) (g : Option ℕ) → Free false (relay kernel_stop buf g)
    unfolding relay
    relay-Free buf g =
        Free-bind false (Free-or_die false g null_pointer (ground arith))
          (λ g. Free-bind false (Free-feeder false g) (λ x. notify-Free _ _))

    pub handle_cmd-Free : (buf : Bytes) (c : ℕ) → Free false (handle_cmd kernel_stop buf c)
    unfolding handle_cmd
    handle_cmd-Free buf c = notify-Free _ _
