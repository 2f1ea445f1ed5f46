-- ===== src/Kernel/Readiness.antt =====
-- `kernel::init` of src/kernel.cpp.
use grind.Prelude.{◌≡◌, ◌⊎◌, inl, inr, refl, ap, ◌∙◌, Bool, false, none, some, Bytes, arith}
use grind.Lua.{Lua}
use grind.Host.{Host}
use grind.World.{catch_and_throw, World}
use grind.World.Monad.{Outcome, ok, throws, dies, M, pure, ◌>>=◌, ◌>>◌, gets, set_kernel, try_catch}
use grind.Registry.Untouched.{Outside, outside, ForeignIn}
use grind.Engine
use grind.Engine.Opening.{Opened, start-Opened}
use grind.Kernel.{init, stop}

module _ ⦃lua : Lua⦄ where
  -- How `init` ends that began in `w`.
  abbrev pub Ready : World → Outcome Bool → Type 0
  Ready w (ok b v) =
      (v.kernel.init ≡ b)
      × (v.kernel.running ≡ w.kernel.running)
      × (((b ≡ false) × (v.engine.lua_state ≡ none))
          ⊎ ((s : lua.State) × (v.engine.lua_state ≡ some (lua.pop 1 (lua.pop 1 s)))
              × (v.engine.running ≡ b)
              × (b ≡ lua.toboolean s)))
      × (v.engine.locked ≡ false)
      × (v.engine.stopping ≡ false)
  Ready w (throws what v) = ⊥
  Ready w (dies f) = ForeignIn w f

  module _ ⦃host : Host⦄ where
    -- What `init` does when the engine has been started.
    judge : M Bool
    judge = do
      set_init ← gets (λ w. w.engine.running)
      set_kernel λ k. record k { init = set_init }
      pure set_init

    judge-Ready :
        (w v : World) (x : Outcome (Unit {0}))
        → w.engine.lua_state ≡ none
        → w.kernel.init ≡ false
        → w.engine.stopping ≡ false
        → w.engine.locked ≡ false
        → v.engine ≡ w.engine
        → outside v ≡ outside w
        → Opened v.engine (outside v) x
        → Ready w (
            try_catch
              (λ _. elim x [ ok _ u ↦ judge u | throws what u ↦ throws what u | dies f ↦ dies f ])
              (λ what. pure false)
              v)
    unfolding judge
    judge-Ready w v (ok _ u) closed fresh alive free same kept (s, path, opened, outer) = (
      refl,
      ap (λ (o : Outside). o.running) (outer ∙ kept),
      inr (s, ground (arith, opened), refl, ground (arith, opened)),
      ground (arith, opened, same, free),
      ground (arith, opened, same, alive),
    )
    judge-Ready w v (throws what u) closed fresh alive free same kept
          (path, running, opened, _, outer) =
        (
          ap (λ (o : Outside). o.init) (outer ∙ kept) ∙ fresh,
          ap (λ (o : Outside). o.running) (outer ∙ kept),
          inl (refl, ground (arith, opened, same, closed)),
          ground (arith, opened, same, free),
          ground (arith, opened, same, alive),
        )
    judge-Ready w v (dies f) closed fresh alive free same kept r =
        (r.0, r.1, r.2, λ e. r.3 (ground (arith, e, kept)))

    -- On a kernel that is not initialised, with a closed and idle engine, `init` never throws,
    -- whatever the path, the files and Lua are. It answers what it then has noted as being initialised:
    -- false with Lua closed, or, with Lua open, the truth of the value that the call of `grind.start`
    -- has left on the stack of Lua, which is also whether the engine is running. The engine is left idle, and
    -- none of the engine's own faults occurs, nor a deadlock if the mutex of the feeders is free.
    pub init-Ready :
        (path : Bytes) (w : World)
        → w.kernel.init ≡ false
        → w.engine.lua_state ≡ none
        → w.engine.stopping ≡ false
        → w.engine.locked ≡ false
        → w.engine.error_handling ≡ catch_and_throw
        → Ready w (init path w)
    unfolding init judge
    init-Ready path w fresh c alive free handling =
        let v : World = record w {
          kernel = record (w.kernel) { threshold = w.kernel.cfg.log_level };
        } in
        judge-Ready w v (Engine.start stop path v) c fresh alive free refl refl
          (start-Opened stop path v c alive free handling)
