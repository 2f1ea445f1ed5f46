-- ===== src/Engine/Opening.antt =====
-- What `script_engine::start` of src/script_engine.cpp leaves of the engine.
use grind.Prelude.{
  ℕ, ◌+◌, ◌≡◌, refl, ◌⊎◌, ◌∙◌, Bool, true, false, Bool-cases, inl, inr, ◌==◌, Option, none, some,
  List, [], ◌∷◌, Bytes, lit, c_str, str_eq, if◌then◌else◌, arith,
}
use grind.Lua.{Lua, Ends, Script, done, ask, the_kernel}
use grind.Host.{Host}
use grind.World.{catch_and_throw, Engine, World}
use grind.World.Monad.{Outcome, ok, throws, dies, M, pure, throw, ◌>>=◌, ◌>>◌, set_engine, gets}
use grind.Registry.Untouched.{Outside, outside, Foreign}
use grind.Bridge.{Argument, object_at, push_argument, push_arguments, run_script, set_state}
use grind.Bridge.Scripts.{Ran, run_script-Ran}
use grind.Engine.{
  unable_to_locate, choose_config, locate_config, locate_file, handle_error, on_grind_start,
  pass_to_lua, start,
}
use grind.Engine.Balance.{Answered, handle_error_throws}
use grind.Engine.Calls.{named, pass_to_lua-Answered}

module _ ⦃lua : Lua⦄ where
  -- How `start` ends that began with the closed engine `e` and the outside `o`.
  abbrev pub Opened : Engine → Outside → Outcome (Unit {0}) → Type 0
  Opened e o (ok _ v) =
      (s : lua.State) × (path : Bytes) × (v.engine ≡ record e {
        lua_state = some (lua.pop 1 (lua.pop 1 s));
        cfg_path = path;
        running = lua.toboolean s;
      })
      × (outside v ≡ o)
  Opened e o (throws what v) =
      (path : Bytes) × (running : Bool) × (v.engine
        ≡ record e { cfg_path = path; running = running })
      × ((running ≡ false) ⊎ (running ≡ e.running))
      × (outside v ≡ o)
  Opened e o (dies f) = Foreign o f

  -- How the search for the configuration ends.
  Chosen : Engine → Outside → Outcome (Unit {0}) → Type 0
  Chosen e o (ok _ v) = (path : Bytes) × (v.engine ≡ record e { cfg_path = path }) × (outside v ≡ o)
  Chosen e o (throws what v) =
      (path : Bytes) × (v.engine ≡ record e { cfg_path = path }) × (outside v ≡ o)
  Chosen e o (dies f) = ⊥

  -- The argument of `grind.start`.
  abbrev the_start : List Argument
  the_start = record { type = lit "grind::kernel"; value = object_at the_kernel } ∷ []

  push_start :
      (s : lua.State)
      → push_arguments the_start s ≡ some (lua.pushpointer the_kernel (lit "grind::kernel *") s)
  unfolding push_arguments push_argument str_eq
  push_start s = refl

  -- The search asks the system and leaves the rest alone.
  Located : Engine → Outside → Outcome Bytes → Type 0
  Located e o (ok path v) = (v.engine ≡ e) × (outside v ≡ o)
  Located e o (throws what v) = ⊥
  Located e o (dies f) = ⊥

  asked : ℕ → World → World
  asked n w = record w { io = record (w.io) { now = w.io.now + n } }

  module _ ⦃host : Host⦄ (kernel_stop : M (Unit {0})) where
    locate_file-Located :
        (ds : List Bytes) (name : Bytes) (w : World)
        → Located w.engine (outside w) (locate_file kernel_stop ds name w)
    unfolding locate_file Located asked
    locate_file-Located [] name w = (refl, refl)
    locate_file-Located (d ∷ ds) name w =
        ground
          (arith, locate_file-Located ds name (asked 1 w), locate_file-Located ds name (asked 2 w))

    -- What `start` does with the path that the search has found.
    settle_path : Bytes → M (Unit {0})
    settle_path path = do
      set_engine λ e. record e { cfg_path = path }
      elim path [ [] ↦ throw unable_to_locate | c ∷ rest ↦ pure tt ]

    settle_path-Chosen :
        (e : Engine) (o : Outside) (x : Outcome Bytes)
        → Located e o x
        → Chosen e o (elim x [
          | ok path v ↦ settle_path path v
          | throws what v ↦ throws what v
          | dies f ↦ dies f
        ])
    unfolding settle_path Located Chosen
    settle_path-Chosen e o (ok [] v) (h, g) = ([], ground arith, g)
    settle_path-Chosen e o (ok (c ∷ rest) v) (h, g) = (c ∷ rest, ground arith, g)
    settle_path-Chosen e o (throws what v) h = absurd h
    settle_path-Chosen e o (dies f) h = absurd h

    choose_config-Chosen :
        (path : Bytes) (w : World) → Chosen w.engine (outside w) (choose_config kernel_stop path w)
    unfolding choose_config Chosen locate_config settle_path
    choose_config-Chosen [] w = settle_path-Chosen w.engine (outside w) _ (
        locate_file-Located
          (lit "/etc/grind" ∷ lit "/usr/share/grind" ∷ lit "/usr/local/share/grind" ∷ [])
          (lit "config.lua") w)
    choose_config-Chosen (c ∷ rest) w = elim (Bool-cases (host.exists w.io.now (c ∷ rest))) [
      | inr lacks ↦ rw lacks (c ∷ rest, refl, refl)
      | inl there ↦ elim (Bool-cases (host.is_directory (w.io.now + 1) (c ∷ rest))) [
        | inl bad ↦ rw (there, bad) (c ∷ rest, refl, refl)
        | inr good ↦ rw (there, good) (c ∷ rest, refl, refl)
      ]
    ]

    -- An error of Lua in a fresh state.
    error_Opened :
        (e : Engine) (o : Outside) (path : Bytes) (v : World) (t : lua.State)
        → e.lua_state ≡ none
        → e.stopping ≡ false
        → e.error_handling ≡ catch_and_throw
        → v.engine ≡ record e { cfg_path = path; lua_state = some t }
        → outside v ≡ o
        → Opened e o (handle_error kernel_stop v)
    error_Opened e o path v t c n h same g =
        rw (handle_error_throws kernel_stop v t (ground (arith, same)) (ground (arith, same, h)))
          (path, false, ground (arith, same, c, n), inl refl, g)

    -- The answer of `grind.start`.
    forget-Opened :
        (e f : Engine) (o p : Outside) (path : Bytes) (t : lua.State) (height : ℕ)
        (x : Outcome Bool)
        → e.lua_state ≡ none
        → e.stopping ≡ false
        → f ≡ record e { cfg_path = path; lua_state = some t; running = true }
        → p ≡ o
        → Answered f p height x
        → Opened e o (elim x [ ok b v ↦ ok tt v | throws what v ↦ throws what v | dies f ↦ dies f ])
    forget-Opened e f o p path t height (ok b v) c n h g (_, s, same, _, kept) =
        (s, path, ground (arith, same, h), kept ∙ g)
    forget-Opened e f o p path t height (throws what v) c n h g (u, _, same, kept) =
        (path, false, ground (arith, same, c, n, h), inl refl, kept ∙ g)
    forget-Opened e f o p path t height (dies y) c n h g r = rw (← g) r

    -- What `start` does behind the configuration file.
    greet : ℕ → M (Unit {0})
    greet rc = if rc == 1 then handle_error kernel_stop else do
      set_engine λ e. record e { running = true }
      success ← pass_to_lua kernel_stop (lit "grind.start") (some on_grind_start) 1 the_start
      pure tt

    greet-Opened :
        (e : Engine) (o : Outside) (path : Bytes) (x : Outcome ℕ)
        → e.lua_state ≡ none
        → e.stopping ≡ false
        → e.locked ≡ false
        → e.error_handling ≡ catch_and_throw
        → Ran (λ rc t. Unit {0}) (record e { cfg_path = path; lua_state = some lua.lua_open }) o x
        → Opened e o
            (elim x [ ok rc v ↦ greet rc v | throws what v ↦ throws what v | dies f ↦ dies f ])
    unfolding greet
    greet-Opened e o path (ok rc v) c n l h (t, same, _, g) = elim (Bool-cases (rc == 1)) [
      | inl bad ↦ rw bad (error_Opened e o path v t c n h (ground (arith, same)) g)
      | inr good ↦
          let u : World = record v { engine = record (v.engine) { running = true } } in
          rw good (
            forget-Opened e u.engine o (outside u) path t (lua.gettop t) _ c n
              (ground (arith, same)) g
              (pass_to_lua-Answered kernel_stop (lit "grind.start") the_start u
                (ground (arith, same)) (ground (arith, same, l)) (ground (arith, same, h))
                (push_start (named (lit "grind.start") t))))
    ]
    greet-Opened e o path (throws what v) c n l h r = absurd r
    greet-Opened e o path (dies f) c n l h r = r

    -- What `start` does behind the search for the configuration.
    load : M (Unit {0})
    unfolding set_state greet
    load = do
      path ← gets (λ w. w.engine.cfg_path)
      set_state lua.lua_open
      rc ← run_script (lua.dofile (c_str path) lua.lua_open)
      greet rc

    Ends-any : (script : Script lua.Number lua.State) → Ends (λ rc t. Unit {0}) script
    Ends-any (done rc s) = tt
    Ends-any (ask c k) = λ r. Ends-any (k r)

    load-Opened :
        (e : Engine) (o : Outside) (path : Bytes) (v : World)
        → e.lua_state ≡ none
        → e.stopping ≡ false
        → e.locked ≡ false
        → e.error_handling ≡ catch_and_throw
        → v.engine ≡ record e { cfg_path = path }
        → outside v ≡ o
        → Opened e o (load v)
    unfolding load set_state
    load-Opened e o path v c n l h same g = greet-Opened e o path _ c n l h (
        run_script-Ran (λ rc t. Unit {0})
          (record e { cfg_path = path; lua_state = some lua.lua_open }) o
          (lua.dofile (c_str (v.engine.cfg_path)) lua.lua_open) _ (ground (arith, same)) g
          (Ends-any (lua.dofile (c_str (v.engine.cfg_path)) lua.lua_open)))

    after_choice :
        (e : Engine) (o : Outside) (x : Outcome (Unit {0}))
        → e.lua_state ≡ none
        → e.stopping ≡ false
        → e.locked ≡ false
        → e.error_handling ≡ catch_and_throw
        → Chosen e o x
        → Opened e o (elim x [ ok _ v ↦ load v | throws what v ↦ throws what v | dies f ↦ dies f ])
    unfolding Chosen
    after_choice e o (ok _ v) c n l h (path, same, g) = load-Opened e o path v c n l h same g
    after_choice e o (throws what v) c n l h (path, same, g) = (path, e.running, same, inr refl, g)
    after_choice e o (dies f) c n l h r = absurd r

    start_cases :
        (e : Engine) (o : Outside) (w : World) (x : Outcome (Unit {0})) (s : Option lua.State)
        → s ≡ none
        → Opened e o x
        → Opened e o (elim s [ some s ↦ ok tt w | none ↦ x ])
    start_cases e o w x none c h = h
    start_cases e o w x (some s) c h = absurd (ground (arith, c))

    -- `start` on a closed engine that is not being stopped, with its mutex free, either opens Lua,
    -- and then the engine counts as running exactly if the value is true that the call of
    -- `grind.start` has left on top of the stack, from which that value and the error handler below
    -- it are then taken; or throws, as when no configuration is found, its file fails or
    -- `grind.start` does, and then Lua is closed again, and the mark of a running engine is as it was
    -- or taken off. But for the path and this mark, the engine and the kernel's marks and watchers stay
    -- as they were, and none of the engine's own faults occurs, nor a deadlock if the mutex of the
    -- feeders is free.
    pub start-Opened :
        (path : Bytes) (w : World)
        → w.engine.lua_state ≡ none
        → w.engine.stopping ≡ false
        → w.engine.locked ≡ false
        → w.engine.error_handling ≡ catch_and_throw
        → Opened w.engine (outside w) (start kernel_stop path w)
    unfolding start load greet
    start-Opened path w c n l h = start_cases w.engine (outside w) w _ w.engine.lua_state c (
        after_choice w.engine (outside w) (choose_config kernel_stop path w) c n l h
          (choose_config-Chosen path w))
