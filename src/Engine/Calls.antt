-- ===== src/Engine/Calls.antt =====
-- `pass_to_lua` of src/script_engine.cpp as a whole: the lock, the stack of Lua, and the engine
-- that a failed call leaves.
use grind.Prelude.{
  ℕ, ◌+◌, ◌≡◌, refl, inl, inr, Bool, true, false, Bool-cases, Option, none, some, Bytes, lit, List,
  c_str, length, arith,
}
use grind.Lua.{Lua}
use grind.Host.{Host}
use grind.World.{catch_and_throw, Engine, World}
use grind.World.Monad.{deadlock, null_lua, Outcome, ok, throws, dies, M, carry}
use grind.World.Mutex.{lua_mutex, lock, release}
use grind.Bridge.{Argument, push_arguments, state}
use grind.Bridge.Scripts.{Ran, run_script-Ran}
use grind.Registry.Untouched.{Outside, outside}
use grind.Engine.{call_from, call, finish_call, on_grind_start, pass_to_lua}
use grind.Engine.Balance.{
  Called, Answered, after_run-Answered, Returned, push_arguments-height, error_lem, after_run,
  pcall_Returned,
}

module _ ⦃lua : Lua⦄ where
  -- The stack when `pass_to_lua` has put the name of the function on it.
  abbrev pub named : Bytes → lua.State → lua.State
  named in_func s =
      lua.pushfstring (c_str in_func) (lua.getglobal (lit "arbitrator") (lua.pushcfunction s))

  named-height : (in_func : Bytes) (s : lua.State) → lua.gettop (named in_func s) ≡ lua.gettop s + 3
  named-height in_func s = omega (
    arith,
    lua.gettop-pushfstring (c_str in_func) (lua.getglobal (lit "arbitrator") (lua.pushcfunction s)),
    lua.gettop-getglobal (lit "arbitrator") (lua.pushcfunction s),
    lua.gettop-pushcfunction s,
  )

  state_lem : (w : World) {s : lua.State} → w.engine.lua_state ≡ some s → state w ≡ ok s w
  unfolding state
  state_lem w h = ground arith

  pub lock_lem :
      (w : World)
      → w.engine.locked ≡ false
      → lock lua_mutex w ≡ ok tt (record w { engine = record (w.engine) { locked = true } })
  unfolding lock
  lock_lem w h = ground arith

  module _ ⦃host : Host⦄ (kernel_stop : M (Unit {0})) where
    -- A call, up to how it finishes.
    call_from_lem :
        (C : Outcome Bool → Type 0) (in_func : Bytes) (extract : Option (M (Unit {0}))) (retc : ℕ)
        (arguments : List Argument) (w : World) (s loaded : lua.State)
        → w.engine.error_handling ≡ catch_and_throw
        → push_arguments arguments (named in_func s) ≡ some loaded
        → ((what : Bytes) (v : World)
            → Called w.engine (outside w) (lua.gettop s) (throws what v)
            → C (throws what v))
        → ((x : Outcome ℕ)
            → Ran
                (Returned (lua.gettop s + 1) retc)
                (record (w.engine) { lua_state = some loaded })
                (outside w)
                x
            → C (elim x [
              | ok ec v ↦ finish_call kernel_stop extract retc (lua.gettop s) ec v
              | throws what v ↦ throws what v
              | dies f ↦ dies f
            ]))
        → C (call_from kernel_stop in_func extract retc arguments s w)
    unfolding call_from
    call_from_lem C in_func extract retc arguments w s loaded t p weaken finish =
        elim (Bool-cases
          (lua.isfunction (lua.getglobal (lit "arbitrator") (lua.pushcfunction s)))) [
            | inl good ↦ rw good (
                rw p (
                  finish _ (
                    run_script-Ran (Returned (lua.gettop s + 1) retc) _ _ _ _ refl refl (
                      pcall_Returned (length arguments + 1) retc _ (lua.gettop s + 1) loaded (
                        omega (
                          arith,
                          push_arguments-height arguments (named in_func s) p,
                          named-height in_func s,
                        ))))))
            | inr bad ↦
                let top = lua.getglobal (lit "arbitrator") (lua.pushcfunction s) in
                let v : World = record w { engine = record (w.engine) { lua_state = some top } } in
                rw bad (error_lem kernel_stop C v top refl t (weaken _ _ (top, refl, refl, refl)))
          ]

    call_lem :
        (C : Outcome Bool → Type 0) (in_func : Bytes) (extract : Option (M (Unit {0}))) (retc : ℕ)
        (arguments : List Argument) (w : World) {s : lua.State}
        → w.engine.lua_state ≡ some s
        → C (call_from kernel_stop in_func extract retc arguments s w)
        → C (call kernel_stop in_func extract retc arguments w)
    unfolding call
    call_lem C in_func extract retc arguments w h c =
        carry C (call_from kernel_stop in_func extract retc arguments) (state_lem w h) c

    release-Called :
        (e : Engine) (o : Outside) (height : ℕ) (x : Outcome Bool)
        → e.locked ≡ false
        → Called (record e { locked = true }) o height x
        → Called e o height (release lua_mutex x)
    unfolding release
    release-Called e o height (ok b v) n (yes', t, same, g, kept) = (yes', t, ground arith, g, kept)
    release-Called e o height (throws what v) n (u, m, same, kept) = (u, m, ground arith, kept)
    release-Called e o height (dies f) n c = c

    release-Answered :
        (e : Engine) (o : Outside) (height : ℕ) (x : Outcome Bool)
        → e.locked ≡ false
        → Answered (record e { locked = true }) o height x
        → Answered e o height (release lua_mutex x)
    unfolding release
    release-Answered e o height (ok b v) n (yes', s, same, g, kept) =
        (yes', s, ground arith, g, kept)
    release-Answered e o height (throws what v) n (u, m, same, kept) = (u, m, ground arith, kept)
    release-Answered e o height (dies f) n c = c

    -- With Lua open, its mutex free and errors of Lua thrown, a call of `pass_to_lua` whose arguments are of the types
    -- that they claim and whose results are dropped either returns true, leaves the engine as it
    -- was and as many values on the stack of Lua, or throws the message of Lua, with the mutex
    -- free again and the engine no longer running, and closed unless it was being stopped. The
    -- marks, the mutexes and the watchers of the kernel stay as they were. The assertion on the height
    -- of the stack never fails, whatever Lua and its callbacks do, and there is no deadlock if the
    -- mutex of the feeders is free as well.
    pub pass_to_lua-Called :
        (in_func : Bytes) (retc : ℕ) (arguments : List Argument) (w : World) {s loaded : lua.State}
        → w.engine.lua_state ≡ some s
        → w.engine.locked ≡ false
        → w.engine.error_handling ≡ catch_and_throw
        → push_arguments arguments (named in_func s) ≡ some loaded
        → Called w.engine
            (outside w)
            (lua.gettop s)
            (pass_to_lua kernel_stop in_func none retc arguments w)
    unfolding pass_to_lua
    pass_to_lua-Called in_func retc arguments w {s} {loaded} h n t p =
        let e : Engine = record (w.engine) { locked = true } in
        let v : World = record w { engine = e } in
        carry (Called w.engine (outside w) (lua.gettop s))
          (λ _ v. release lua_mutex (call kernel_stop in_func none retc arguments v)) (lock_lem w n)
          (release-Called w.engine (outside w) (lua.gettop s) _ n (
            call_lem (Called e (outside v) (lua.gettop s)) in_func none retc arguments v h (
              call_from_lem (Called e (outside v) (lua.gettop s)) in_func none retc arguments v s
                loaded t p (λ what v c. c)
                (λ x r. after_run kernel_stop e (outside v) retc (lua.gettop s) loaded x t r))))

    -- The same for `grind.start`, whose answer is kept.
    pub pass_to_lua-Answered :
        (in_func : Bytes) (arguments : List Argument) (w : World) {s loaded : lua.State}
        → w.engine.lua_state ≡ some s
        → w.engine.locked ≡ false
        → w.engine.error_handling ≡ catch_and_throw
        → push_arguments arguments (named in_func s) ≡ some loaded
        → Answered w.engine
            (outside w)
            (lua.gettop s)
            (pass_to_lua kernel_stop in_func (some on_grind_start) 1 arguments w)
    unfolding pass_to_lua
    pass_to_lua-Answered in_func arguments w {s} {loaded} h n t p =
        let e : Engine = record (w.engine) { locked = true } in
        let v : World = record w { engine = e } in
        carry (Answered w.engine (outside w) (lua.gettop s))
          (λ _ v. release lua_mutex (call kernel_stop in_func (some on_grind_start) 1 arguments v))
          (lock_lem w n)
          (release-Answered w.engine (outside w) (lua.gettop s) _ n (
            call_lem (Answered e (outside v) (lua.gettop s)) in_func (some on_grind_start) 1
              arguments v h
              (call_from_lem (Answered e (outside v) (lua.gettop s)) in_func (some on_grind_start) 1
                arguments v s loaded t p (λ what v c. c)
                (λ x r. after_run-Answered kernel_stop e (outside v) (lua.gettop s) loaded x t r))))

    -- A call of Lua that is made while one is running never ends: the mutex is not recursive.
    pub pass_to_lua_nested :
        (in_func : Bytes) (extract : Option (M (Unit {0}))) (retc : ℕ) (arguments : List Argument)
        (w : World)
        → w.engine.locked ≡ true
        → pass_to_lua kernel_stop in_func extract retc arguments w ≡ dies deadlock
    unfolding pass_to_lua
    pass_to_lua_nested in_func extract retc arguments w h = rw h

    -- A call with Lua closed reads through the null pointer.
    pub pass_to_lua_closed :
        (in_func : Bytes) (extract : Option (M (Unit {0}))) (retc : ℕ) (arguments : List Argument)
        (w : World)
        → w.engine.lua_state ≡ none
        → w.engine.locked ≡ false
        → pass_to_lua kernel_stop in_func extract retc arguments w ≡ dies null_lua
    unfolding pass_to_lua state
    pass_to_lua_closed in_func extract retc arguments w h n = rw (n, h)
