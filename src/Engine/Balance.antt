-- ===== src/Engine/Balance.antt =====
-- The stack of Lua over a call of `pass_to_lua` in src/script_engine.cpp, and what a failed call
-- leaves.
use grind.Prelude.{
  ℕ, zero, suc, ◌+◌, ◌≤◌, ◌≡◌, refl, inl, inr, Bool, true, false, Bool-cases, ◌==◌, Option-cases,
  none, some, Bytes, List, [], ◌∷◌, c_str, length, if◌then◌else◌, arith,
}
use grind.Lua.{Lua, Ends, Ends-mono}
use grind.Host.{Host}
use grind.World.{ErrorHandling, catch_and_die, catch_and_throw, Engine, World}
use grind.World.Monad.{Outcome, ok, throws, dies, M, carry, die, assertion, pure, ◌>>=◌, ◌>>◌}
use grind.Bridge.{Argument, push_argument, push_arguments, state}
use grind.Bridge.Scripts.{Ran}
use grind.Registry.Untouched.{Outside, outside, Foreign}
use grind.Engine.{lua_error, pop, pop_results, react, handle_error, on_grind_start, finish_call}

module _ ⦃lua : Lua⦄ where
  -- The message on the stack, if there is one.
  abbrev pub error_text : lua.State → Bytes
  error_text s = elim (lua.tostring 0 s) [ none ↦ [] | some e ↦ c_str e ]

  abbrev pub popped : lua.State → lua.State
  popped s = elim (lua.tostring 0 s) [ none ↦ lua.pop 1 s | some e ↦ lua.pop 1 (lua.pop 1 s) ]

  -- The engine after an error: closed, unless it was being stopped.
  abbrev pub failed : Engine → lua.State → Engine
  failed e s = record e {
    lua_state = if e.stopping then some (popped s) else none;
    running = false;
  }

  react_throws :
      (h : ErrorHandling) (error : Bytes) (kernel_stop : M (Unit {0})) (w : World)
      → h ≡ catch_and_throw
      → react h error kernel_stop w ≡ throws (lua_error error) w
  unfolding react
  react_throws catch_and_throw error ks w e = refl
  react_throws catch_and_die error ks w e = cc

  pub handle_error_throws :
      (kernel_stop : M (Unit {0})) (w : World) (s : lua.State)
      → w.engine.lua_state ≡ some s
      → w.engine.error_handling ≡ catch_and_throw
      → handle_error kernel_stop w
        ≡ throws (lua_error (error_text s)) (record w { engine = failed w.engine s })
  unfolding handle_error
  handle_error_throws ks w s h t = ground (
    arith,
    react_throws w.engine.error_handling (error_text s) ks (record w { engine = failed w.engine s })
        t,
  )

  -- A property of what follows a call that threw.
  thrown :
      {A B : Type 0} (C : Outcome B → Type 0) {x : Outcome A} (m : M B) {what : Bytes} {v : World}
      → x ≡ throws what v
      → C (throws what v)
      → C (elim x [ ok a v ↦ m v | throws e v ↦ throws e v | dies y ↦ dies y ])
  thrown C m e c = rw e c

  pub push_argument-height :
      (a : Argument) (s : lua.State) {t : lua.State}
      → push_argument a s ≡ some t
      → lua.gettop t ≡ lua.gettop s + 1
  unfolding push_argument
  push_argument-height a s h = grind (arith, lua.gettop-pushfstring, lua.gettop-pushpointer)

  pub push_arguments-height :
      (arguments : List Argument) (s : lua.State) {t : lua.State}
      → push_arguments arguments s ≡ some t
      → lua.gettop t ≡ lua.gettop s + length arguments
  unfolding push_arguments
  push_arguments-height [] s h = ground arith
  push_arguments-height (a ∷ rest) s {t} h = elim (Option-cases (push_argument a s)) [
    | inl e ↦ ground arith
    | inr (u, e) ↦
        omega
          (arith, push_argument-height a s e, push_arguments-height rest u {t = t} (ground arith))
  ]

  pop_results_lem :
      (n : ℕ) (s : lua.State) (w : World)
      → w.engine.lua_state ≡ some s
      → n ≤ lua.gettop s
      → (t : lua.State) × (pop_results n w
          ≡ ok tt (record w { engine = record (w.engine) { lua_state = some t } }))
        × (lua.gettop t + n ≡ lua.gettop s)
  unfolding pop_results
  pop_results_lem zero s w h k = (s, ground arith, omega arith)
  pop_results_lem (suc n) s w h k =
      let below : lua.gettop (lua.pop 1 s) + 1 ≡ lua.gettop s = lua.gettop-pop 1 s (omega arith) in
      let (t, e, g) =
        pop_results_lem n (lua.pop 1 s)
          (record w { engine = record (w.engine) { lua_state = some (lua.pop 1 s) } }) refl
          (omega arith) in
      (t, ground (arith, e), omega arith)

  -- How a call of `pass_to_lua` ends that began with the engine `e`, the outside `o` and `height`
  -- values on the stack: it returns true and leaves as many there, or it throws Lua's message and
  -- leaves the engine closed.
  abbrev pub Called : Engine → Outside → (height : ℕ) → Outcome Bool → Type 0
  Called e o height (ok b v) =
      (b ≡ true)
      × (t : lua.State) × (v.engine ≡ record e { lua_state = some t })
      × (lua.gettop t ≡ height)
      × (outside v ≡ o)
  Called e o height (throws what v) =
      (u : lua.State) × (what ≡ lua_error (error_text u))
      × (v.engine ≡ failed e u)
      × (outside v ≡ o)
  Called e o height (dies f) = Foreign o f

  -- The same where Lua has said whether the engine is running: `on_grind_start` finds the stack `s`,
  -- keeps the truth of the value on its top, and that value and the error handler below it are taken
  -- off.
  abbrev pub Answered : Engine → Outside → (height : ℕ) → Outcome Bool → Type 0
  Answered e o height (ok b v) =
      (b ≡ true)
      × (s : lua.State) × (v.engine
          ≡ record e { lua_state = some (lua.pop 1 (lua.pop 1 s)); running = lua.toboolean s })
      × (lua.gettop (lua.pop 1 (lua.pop 1 s)) ≡ height)
      × (outside v ≡ o)
  Answered e o height (throws what v) = Called e o height (throws what v)
  Answered e o height (dies f) = Foreign o f

  -- What `lua_pcall` may leave on a stack with its function and arguments.
  abbrev pub Returned : (below retc : ℕ) → ℕ → lua.State → Type 0
  Returned below retc rc t = rc ≡ 0 → lua.gettop t ≡ below + retc

  pub pcall_Returned :
      (argc retc index below : ℕ) (loaded : lua.State)
      → lua.gettop loaded ≡ below + suc argc
      → Ends (Returned below retc) (lua.pcall argc retc index loaded)
  pcall_Returned argc retc index below loaded g =
      Ends-mono (λ rc t r. λ z. omega (arith, r.0 z)) (lua.pcall argc retc index loaded)
        (lua.gettop-pcall argc retc index loaded (omega arith))

  module _ ⦃host : Host⦄ (kernel_stop : M (Unit {0})) where
    pub error_lem :
        (C : Outcome Bool → Type 0) (w : World) (s : lua.State)
        → w.engine.lua_state ≡ some s
        → w.engine.error_handling ≡ catch_and_throw
        → C (throws (lua_error (error_text s)) (record w { engine = failed w.engine s }))
        → C ((do handle_error kernel_stop; pure false) w)
    error_lem C w s h t c = thrown C (pure false) (handle_error_throws kernel_stop w s h t) c

    error_Called :
        (e : Engine) (o : Outside) (height : ℕ) (w : World) (s : lua.State)
        → w.engine ≡ record e { lua_state = some s }
        → outside w ≡ o
        → e.error_handling ≡ catch_and_throw
        → Called e o height ((do handle_error kernel_stop; pure false) w)
    unfolding handle_error
    error_Called e o height w s h g t =
        rw (handle_error_throws kernel_stop w s (ground arith) (ground arith))
          (s, refl, ground arith, g)

    -- The last value is taken off, and the assertion holds.
    last_pop-Called :
        (e : Engine) (o : Outside) (height : ℕ) (w : World) (u : lua.State)
        → w.engine ≡ record e { lua_state = some u }
        → outside w ≡ o
        → lua.gettop u ≡ height + 1
        → Called e o height (
            (do pop 1; end ← state; if lua.gettop end == height then pure true else die assertion)
              w)
    unfolding pop
    last_pop-Called e o height w u same g k =
        let lower : lua.gettop (lua.pop 1 u) ≡ height =
          omega (arith, lua.gettop-pop 1 u (omega arith)) in
        let test : (lua.gettop (lua.pop 1 u) == height) ≡ true = ground arith in
        rw (same, test) (refl, lua.pop 1 u, ground arith, lower, g)

    -- The same behind the answer of `grind.start`.
    last_pop-Answered :
        (e : Engine) (o : Outside) (height : ℕ) (w : World) (s : lua.State)
        → w.engine ≡ record e { lua_state = some (lua.pop 1 s); running = lua.toboolean s }
        → outside w ≡ o
        → lua.gettop (lua.pop 1 s) ≡ height + 1
        → Answered e o height (
            (do pop 1; end ← state; if lua.gettop end == height then pure true else die assertion)
              w)
    unfolding pop
    last_pop-Answered e o height w s same g k =
        let u = lua.pop 1 s in
        let lower : lua.gettop (lua.pop 1 u) ≡ height =
          omega (arith, lua.gettop-pop 1 u (omega arith)) in
        let test : (lua.gettop (lua.pop 1 u) == height) ≡ true = ground arith in
        rw (same, test) (refl, s, ground arith, lower, g)

    error_Answered :
        (e : Engine) (o : Outside) (height : ℕ) (w : World) (s : lua.State)
        → w.engine ≡ record e { lua_state = some s }
        → outside w ≡ o
        → e.error_handling ≡ catch_and_throw
        → Answered e o height ((do handle_error kernel_stop; pure false) w)
    unfolding handle_error
    error_Answered e o height w s h g t =
        rw (handle_error_throws kernel_stop w s (ground arith) (ground arith))
          (s, refl, ground arith, g)

    -- What follows the extraction of the results.
    settle-Called :
        (e : Engine) (o : Outside) (height : ℕ) (m : M (Unit {0})) (w v : World) (u : lua.State)
        → m w ≡ ok tt v
        → v.engine ≡ record e { lua_state = some u }
        → outside v ≡ o
        → lua.gettop u ≡ height + 1
        → Called e o height (
            (do
              m
              pop 1
              end ← state
              if lua.gettop end == height then pure true else die assertion)
              w)
    settle-Called e o height m w v u p same g k =
        carry (Called e o height)
          (λ _. do
            pop 1
            end ← state
            if lua.gettop end == height then pure true else die assertion)
          p (last_pop-Called e o height v u same g k)

    finish_call-Called :
        (e : Engine) (o : Outside) (retc height ec : ℕ) (w : World) (s : lua.State)
        → w.engine ≡ record e { lua_state = some s }
        → outside w ≡ o
        → e.error_handling ≡ catch_and_throw
        → (ec ≡ 0 → lua.gettop s ≡ height + 1 + retc)
        → Called e o height (finish_call kernel_stop none retc height ec w)
    unfolding finish_call
    finish_call-Called e o retc height ec w s h g t k = elim (Bool-cases (ec == 0)) [
      | inl good ↦
          let (u, p, below) = pop_results_lem retc s w (ground arith) (ground arith) in
          rw good (
            settle-Called e o height (pop_results retc) w _ u p (ground arith) g
              (omega (arith, k (ground arith))))
      | inr bad ↦ rw bad (error_Called e o height w s h g t)
    ]

    -- The same for the answer of `grind.start`.
    finish_call-Answered :
        (e : Engine) (o : Outside) (height ec : ℕ) (w : World) (s : lua.State)
        → w.engine ≡ record e { lua_state = some s }
        → outside w ≡ o
        → e.error_handling ≡ catch_and_throw
        → (ec ≡ 0 → lua.gettop s ≡ height + 1 + 1)
        → Answered e o height (finish_call kernel_stop (some on_grind_start) 1 height ec w)
    unfolding finish_call on_grind_start pop
    finish_call-Answered e o height ec w s h g t k = elim (Bool-cases (ec == 0)) [
      | inl good ↦
          let below : lua.gettop (lua.pop 1 s) + 1 ≡ lua.gettop s =
            lua.gettop-pop 1 s (omega (arith, k (ground arith))) in
          let started : Engine = record e {
            lua_state = some (lua.pop 1 s);
            running = lua.toboolean s;
          } in
          let answered : on_grind_start w ≡ ok tt (record w { engine = started }) =
            ground (arith, h) in
          rw good (
            carry (Answered e o height)
              (λ _. do
                pop 1
                end ← state
                if lua.gettop end == height then pure true else die assertion)
              answered
              (last_pop-Answered e o height (record w { engine = started }) s refl g
                (omega (arith, k (ground arith)))))
      | inr bad ↦ rw bad (error_Answered e o height w s h g t)
    ]

    pub after_run :
        (e : Engine) (o : Outside) (retc height : ℕ) (loaded : lua.State) (x : Outcome ℕ)
        → e.error_handling ≡ catch_and_throw
        → Ran (Returned (height + 1) retc) (record e { lua_state = some loaded }) o x
        → Called e o height (elim x [
          | ok ec v ↦ finish_call kernel_stop none retc height ec v
          | throws what v ↦ throws what v
          | dies f ↦ dies f
        ])
    after_run e o retc height loaded (ok ec v) t (s, same, g, kept) =
        finish_call-Called e o retc height ec v s same kept t g
    after_run e o retc height loaded (throws what v) t r = absurd r
    after_run e o retc height loaded (dies f) t r = r

    pub after_run-Answered :
        (e : Engine) (o : Outside) (height : ℕ) (loaded : lua.State) (x : Outcome ℕ)
        → e.error_handling ≡ catch_and_throw
        → Ran (Returned (height + 1) 1) (record e { lua_state = some loaded }) o x
        → Answered e o height (elim x [
          | ok ec v ↦ finish_call kernel_stop (some on_grind_start) 1 height ec v
          | throws what v ↦ throws what v
          | dies f ↦ dies f
        ])
    after_run-Answered e o height loaded (ok ec v) t (s, same, g, kept) =
        finish_call-Answered e o height ec v s same kept t g
    after_run-Answered e o height loaded (throws what v) t r = absurd r
    after_run-Answered e o height loaded (dies f) t r = r
