-- ===== src/Engine/Nested.antt =====
-- Two runs of a Lua call of src/script_engine.cpp that differ in what a failing call does to the
-- kernel.
use grind.Prelude.{
  ℕ, ◌+◌, ◌≡◌, refl, sym, ◌∙◌, ap, ◌==◌, not, Bool, true, false, Option, none, some, List, [],
  Bytes, lit, c_str, length, if◌then◌else◌, arith,
}
use grind.Lua.{Lua, Script, done, ask, Ends}
use grind.Host.{Host}
use grind.World.{catch_and_die, catch_and_throw, ErrorHandling, Engine, World}
use grind.World.Monad.{
  Fault, bad_cast, deadlock, Outcome, ok, throws, dies, M, ◌>>◌, pure, die, or_die, assertion,
  set_engine,
}
use grind.World.Mutex.{lua_mutex, lock, release, scoped}
use grind.Bridge.{Argument, state, set_state, push_arguments, run_script}
use grind.Bridge.Scripts.{Ran, run_script-Ran}
use grind.Registry.Untouched.{outside}
use grind.Engine.{
  pop, pop_results, stop_after, react, handle_error, finish_call, call_from, call, pass_to_lua,
}
use grind.Engine.Calls.{lock_lem}
use grind.World.Twins.{Left, Twins, Twins-bind, Twins-same, Twins-pure, Twins-gets}

module _ ⦃lua : Lua⦄ where
  abbrev pub Locked : Engine → Type 0
  Locked e = e.locked ≡ true

  state-Twins : Twins Locked state state
  unfolding state
  state-Twins = Twins-same Locked λ w p. ground (arith, p)

  set_state-Twins : (s : lua.State) → Twins Locked (set_state s) (set_state s)
  unfolding set_state
  set_state-Twins s = record { run = λ w p. (refl, p) }

  pop-Twins : (n : ℕ) → Twins Locked (pop n) (pop n)
  unfolding pop state set_state
  pop-Twins n = Twins-same Locked λ w p. ground (arith, p)

  halt-Twins :
      Twins Locked
        (set_engine λ e. record e { running = false })
        (set_engine λ e. record e { running = false })
  halt-Twins = record { run = λ w p. (refl, p) }

  stop_after-Twins : Twins Locked (stop_after (pure tt)) (stop_after (pure tt))
  unfolding stop_after
  stop_after-Twins = Twins-same Locked λ w p. ground (arith, p)

  Twins-if :
      {A : Type 0} (b : Bool) {f g m n : M A}
      → Twins Locked f g
      → Twins Locked m n
      → Twins Locked (if b then f else m) (if b then g else n)
  Twins-if true h k = h
  Twins-if false h k = k

  die-Twins : {A : Type 0} (f : Fault) → Twins Locked {A = A} (die f) (die f)
  die-Twins f = record { run = λ w p. (refl, tt) }

  or_die-Twins : {A : Type 0} (o : Option A) (f : Fault) → Twins Locked (or_die o f) (or_die o f)
  or_die-Twins none f = record { run = λ w p. (refl, tt) }
  or_die-Twins (some a) f = record { run = λ w p. (refl, p) }

  module _ (k n : M (Unit {0})) (h : Twins Locked k n) where
    react-Twins :
        (e : ErrorHandling) (error : Bytes) → Twins Locked (react e error k) (react e error n)
    unfolding react
    react-Twins catch_and_throw error = record { run = λ w p. (refl, p) }
    react-Twins catch_and_die error = record { run = λ w p. go w p (w.kernel.running) }
      where
        go :
            (w : World)
            → Locked w.engine
            → (b : Bool)
            → ((if b then k w else ok tt w) ≡ (if b then n w else ok tt w))
              × Left Locked (if b then k w else ok tt w)
        go w p true = h.run w p
        go w p false = (refl, p)

    message-Twins :
        (o : Option Bytes)
        → Twins Locked {A = Bytes}
            (elim o [ none ↦ pure [] | some e ↦ (do pop 1; pure (c_str e)) ])
            (elim o [ none ↦ pure [] | some e ↦ (do pop 1; pure (c_str e)) ])
    message-Twins none = Twins-pure Locked []
    message-Twins (some e) = Twins-bind Locked (pop-Twins 1) (λ _. Twins-pure Locked (c_str e))

    handle_error-Twins : Twins Locked (handle_error k) (handle_error n)
    unfolding handle_error
    handle_error-Twins = Twins-bind Locked state-Twins (λ s.
        Twins-bind Locked (message-Twins (lua.tostring 0 s)) (λ error.
          Twins-bind Locked (pop-Twins 1) (λ _. Twins-bind Locked halt-Twins (λ _.
            Twins-bind Locked stop_after-Twins (λ _.
              Twins-bind Locked (Twins-gets Locked (λ w. w.engine.error_handling))
                (λ handling. react-Twins handling error))))))

    module _ ⦃host : Host⦄ where
      finish_call-Twins :
          (initial_size ec : ℕ)
          → Twins Locked
              (finish_call k none 0 initial_size ec)
              (finish_call n none 0 initial_size ec)
      unfolding finish_call pop_results
      finish_call-Twins initial_size ec =
          Twins-if (not (ec == 0))
            (Twins-bind Locked handle_error-Twins (λ _. Twins-pure Locked false))
            (Twins-bind Locked (Twins-pure Locked tt) (λ _. Twins-bind Locked (pop-Twins 1) (λ _.
              Twins-bind Locked state-Twins (λ end.
                Twins-if (lua.gettop end == initial_size) (Twins-pure Locked true)
                  (die-Twins assertion)))))

      Ends-any : {N S : Type 0} (script : Script N S) → Ends (λ rc s. Unit {0}) script
      Ends-any (done rc s) = tt
      Ends-any (ask c k) = λ r. Ends-any (k r)

      run_script-Twins :
          (script : Script lua.Number lua.State)
          → Twins Locked (run_script script) (run_script script)
      run_script-Twins script = Twins-same Locked λ w p. Ran-Left w p (run_script script w) (
          run_script-Ran (λ rc t. Unit {0}) w.engine (outside w) script w refl refl
            (Ends-any script))
        where
          Ran-Left :
              (w : World)
              → Locked w.engine
              → (x : Outcome ℕ) → Ran (λ rc t. Unit {0}) w.engine (outside w) x
              → Left Locked x
          Ran-Left w p (ok rc v) (t, e, _, _) = rw e p
          Ran-Left w p (throws what v) r = absurd r
          Ran-Left w p (dies f) r = tt

      call_from-Twins :
          (in_func : Bytes) (arguments : List Argument) (s : lua.State)
          → Twins Locked
              (call_from k in_func none 0 arguments s)
              (call_from n in_func none 0 arguments s)
      unfolding call_from
      call_from-Twins in_func arguments s =
          let initial_size = lua.gettop s in
          let handler = lua.pushcfunction s in
          let arbitrator = lua.getglobal (lit "arbitrator") handler in
          let named = lua.pushfstring (c_str in_func) arbitrator in
          Twins-bind Locked (set_state-Twins arbitrator) (λ _.
            Twins-if (not (lua.isfunction arbitrator))
              (Twins-bind Locked handle_error-Twins (λ _. Twins-pure Locked false))
              (Twins-bind Locked (or_die-Twins (push_arguments arguments named) bad_cast) (λ loaded.
                Twins-bind Locked (set_state-Twins loaded) (λ _.
                  Twins-bind Locked
                    (run_script-Twins
                      (lua.pcall (length arguments + 1) 0 (lua.gettop handler) loaded))
                    (λ ec. finish_call-Twins initial_size ec)))))

      call-Twins :
          (in_func : Bytes) (arguments : List Argument)
          → Twins Locked (call k in_func none 0 arguments) (call n in_func none 0 arguments)
      unfolding call
      call-Twins in_func arguments =
          Twins-bind Locked state-Twins (λ s. call_from-Twins in_func arguments s)

  lock_held : (w : World) → Locked w.engine → lock lua_mutex w ≡ dies deadlock
  unfolding lock
  lock_held w p =
      ap (λ b. if b then dies deadlock else set_engine (λ e. record e { locked = true }) w) p

  -- A block behind the engine's mutex, by what comes of the lock.
  abbrev block : {A : Type 0} → M A → Outcome (Unit {0}) → Outcome A
  block body x = elim x [
    | ok _ v ↦ release lua_mutex (body v)
    | throws e v ↦ throws e v
    | dies d ↦ dies d
  ]

  scoped-block :
      {A : Type 0} (body : M A) (w : World)
      → scoped lua_mutex body w ≡ block body (lock lua_mutex w)
  unfolding scoped
  scoped-block body w = refl

  -- A call that is made while the mutex of the engine is held waits forever.
  pub pass_to_lua-Locked :
      ⦃host : Host⦄ (k : M (Unit {0})) (in_func : Bytes) (arguments : List Argument) (w : World)
      → Locked w.engine
      → pass_to_lua k in_func none 0 arguments w ≡ dies deadlock
  unfolding pass_to_lua
  pass_to_lua-Locked k in_func arguments w p =
      scoped-block (call k in_func none 0 arguments) w
      ∙ ap (block (call k in_func none 0 arguments)) (lock_held w p)

  pub pass_to_lua-same :
      ⦃host : Host⦄ (k n : M (Unit {0})) (h : Twins Locked k n) (in_func : Bytes)
      (arguments : List Argument) (w : World) (b : Bool)
      → w.engine.locked ≡ b
      → pass_to_lua k in_func none 0 arguments w ≡ pass_to_lua n in_func none 0 arguments w
  unfolding pass_to_lua
  pass_to_lua-same k n h in_func arguments w true e =
      pass_to_lua-Locked k in_func arguments w e ∙ sym (pass_to_lua-Locked n in_func arguments w e)
  pass_to_lua-same k n h in_func arguments w false e =
      let within = record w { engine = record (w.engine) { locked = true } } in
      let first = call k in_func none 0 arguments in
      let second = call n in_func none 0 arguments in
      scoped-block first w
      ∙ ap (block first) (lock_lem w e)
      ∙ ap (release lua_mutex) ((call-Twins k n h in_func arguments).run within refl).0
      ∙ sym (ap (block second) (lock_lem w e))
      ∙ sym (scoped-block second w)
