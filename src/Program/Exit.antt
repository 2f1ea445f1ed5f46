-- ===== src/Program/Exit.antt =====
-- The end of `main` in src/main.cpp.
use grind.Prelude.{
  ℕ, ◌≡◌, refl, Bool, true, false, not, none, List, [], ◌∷◌, Bytes, if◌then◌else◌, arith,
}
use grind.Lua.{Lua}
use grind.Host.{Host}
use grind.World.{World}
use grind.World.Monad.{
  Outcome, ok, throws, dies, M, pure, ◌>>=◌, ◌>>◌, for_each, gets, set_kernel, modify,
}
use grind.Registry.{delete_feeder}
use grind.Engine
use grind.Connections
use grind.Kernel.{initial, init, stop, stop_by, start, cleanup, delete_feeders}
use grind.Kernel.Stopping.{stop-stop_by}
use grind.Kernel.Readiness.{Ready, init-Ready}
use grind.EventLoop.{Event, work}
use grind.CommandLine.{Options}
use grind.Program.{with_level, serve, main}

module _ ⦃lua : Lua⦄ where
  -- If the call returns, the kernel is not running.
  abbrev pub Off : {A : Type 0} → Outcome A → Type 0
  Off (ok a v) = v.kernel.running ≡ false
  Off (throws what v) = Unit {0}
  Off (dies f) = Unit {0}

  -- If the call returns, the kernel is not running, not initialised and has no feeders.
  abbrev pub Clean : {A : Type 0} → (A → Type 0) → Outcome A → Type 0
  Clean P (ok a v) =
      (v.kernel.running ≡ false) × (v.kernel.feeders ≡ []) × (v.kernel.init ≡ false) × P a
  Clean P (throws what v) = Unit {0}
  Clean P (dies f) = Unit {0}

  then_Off :
      {A B : Type 0} (x : Outcome A) (k : A → M B)
      → ((a : A) (v : World) → Off (k a v))
      → Off (elim x [ ok a v ↦ k a v | throws e v ↦ throws e v | dies y ↦ dies y ])
  then_Off (ok a v) k h = h a v
  then_Off (throws e v) k h = tt
  then_Off (dies y) k h = tt

  then_Clean :
      {A B : Type 0} (P : B → Type 0) (x : Outcome A) (k : A → M B)
      → ((a : A) (v : World) → Clean P (k a v))
      → Clean P (elim x [ ok a v ↦ k a v | throws e v ↦ throws e v | dies y ↦ dies y ])
  then_Clean P (ok a v) k h = h a v
  then_Clean P (throws e v) k h = tt
  then_Clean P (dies y) k h = tt

  after_end :
      {A B : Type 0} (P : B → Type 0) (x : Outcome A) (k : A → M B)
      → Off x
      → ((a : A) (v : World) → v.kernel.running ≡ false → Clean P (k a v))
      → Clean P (elim x [ ok a v ↦ k a v | throws e v ↦ throws e v | dies y ↦ dies y ])
  after_end P (ok a v) k o h = h a v o
  after_end P (throws e v) k o h = tt
  after_end P (dies y) k o h = tt

  then_then :
      {A B C : Type 0} (P : C → Type 0) (x : Outcome A) (k : A → M B) (h : B → M C)
      → ((a : A) (v : World)
          → Clean P (elim (k a v) [ ok b u ↦ h b u | throws e u ↦ throws e u | dies y ↦ dies y ]))
      → Clean P
          (elim (elim x as (λ _. Outcome B) [
            | ok a v ↦ k a v
            | throws e v ↦ throws e v
            | dies y ↦ dies y
          ])
            as (λ _. Outcome C) [ ok b u ↦ h b u | throws e u ↦ throws e u | dies y ↦ dies y ])
  then_then P (ok a v) k h c = c a v
  then_then P (throws e v) k h c = tt
  then_then P (dies y) k h c = tt

  stays_down :
      {A B : Type 0} (x : Outcome A) (k : A → M B)
      → Off x
      → ((a : A) (v : World) → v.kernel.running ≡ false → Off (k a v))
      → Off (elim x [ ok a v ↦ k a v | throws e v ↦ throws e v | dies y ↦ dies y ])
  stays_down (ok a v) k o h = h a v o
  stays_down (throws e v) k o h = tt
  stays_down (dies y) k o h = tt

  -- An answer is given at the end.
  at_end :
      {A : Type 0} (P : A → Type 0) (x : Outcome (Unit {0})) (a : A)
      → P a
      → Clean (λ _. Unit {0}) x
      → Clean P (elim x [ ok _ v ↦ pure a v | throws e v ↦ throws e v | dies y ↦ dies y ])
  at_end P (ok _ v) a p (o, n, i, _) = (o, n, i, p)
  at_end P (throws e v) a p c = tt
  at_end P (dies y) a p c = tt

  if_Off :
      (w : World) (b : Bool) (x : Outcome (Unit {0}))
      → w.kernel.running ≡ b
      → Off x
      → Off (if not b then ok tt w else x)
  if_Off w true x e h = h
  if_Off w false x e h = e

  delete_feeder-Off : (f : ℕ) (w : World) → w.kernel.running ≡ false → Off (delete_feeder f w)
  unfolding delete_feeder
  delete_feeder-Off f w h = ground (arith, h)

  each-Off :
      (feeders : List (Bytes × ℕ)) (w : World)
      → w.kernel.running ≡ false
      → Off (for_each (λ (l, f). delete_feeder f) feeders w)
  unfolding for_each
  each-Off [] w h = h
  each-Off ((l, f) ∷ feeders) w h =
      stays_down (delete_feeder f w) (λ _. for_each (λ (l, f). delete_feeder f) feeders)
        (delete_feeder-Off f w h) (λ _ v o. each-Off feeders v o)

  module _ ⦃host : Host⦄ where
    -- What `stop` does behind the test of its mark.
    shut_down : World → Outcome (Unit {0})
    shut_down w =
        (do
          for_each (Connections.stop stop) w.kernel.connections
          feeders ← gets (λ w. w.kernel.feeders)
          for_each (λ (l, f). Connections.stop_feeder stop f) feeders
          set_kernel λ k. record k { new_watcher = none; connections = [] }
          modify λ w. record w { io = record (w.io) { stopped = true } }
          Engine.stop stop true
          set_kernel λ k. record k { running = false })
          w

    shut_down-Off : (w : World) → Off (shut_down w)
    unfolding shut_down
    shut_down-Off w = then_Off (for_each (Connections.stop stop) w.kernel.connections w) _ (λ _ v.
        then_Off (for_each (λ (l, f). Connections.stop_feeder stop f) v.kernel.feeders v) _
          (λ _ u. then_Off (Engine.stop stop true _) _ (λ _ t. refl)))

    stop-Off : (w : World) → Off (stop w)
    unfolding stop_by shut_down
    stop-Off w =
        rw (stop-stop_by w) (if_Off w w.kernel.running (shut_down w) refl (shut_down-Off w))

    -- A stop that is made only if the kernel is running.
    stop_if-Off :
        (w : World) (b : Bool) → w.kernel.running ≡ b → Off ((if b then stop else pure tt) w)
    stop_if-Off w true e = stop-Off w
    stop_if-Off w false e = e

    cleanup-Clean :
        {A : Type 0} (P : A → Type 0) (a : A) (w : World) → P a → Clean P ((do cleanup; pure a) w)
    unfolding cleanup delete_feeders
    cleanup-Clean P a w p = at_end P (cleanup w) a p (
        after_end (λ _. Unit {0}) ((if w.kernel.running then stop else pure tt) w) _
          (stop_if-Off w w.kernel.running refl)
          (λ _ v off.
            after_end (λ _. Unit {0}) (for_each (λ (l, f). delete_feeder f) v.kernel.feeders v) _
              (each-Off v.kernel.feeders v off) (λ _ u o. (o, refl, refl, tt))))

    -- The code that belongs to the outcome of `init`.
    abbrev pub Fits : Outcome Bool → ℕ → Type 0
    Fits (ok b v) code = code ≡ (if b then 0 else 1)
    Fits (throws what v) code = ⊥
    Fits (dies f) code = ⊥

    -- What `main` does behind the loop.
    leave : Bool → M ℕ
    leave served = if not served then (do cleanup; pure 1) else do
      is_running ← gets (λ w. w.kernel.running)
      if is_running then stop else pure tt
      cleanup
      pure 0

    -- What `main` does behind `init`.
    go_on : List Event → Bool → M Bool
    go_on events is_init = if not is_init then pure false else do start; work events; pure true

    served-Clean : (P : ℕ → Type 0) (w : World) → P 0 → Clean P (leave true w)
    unfolding leave
    served-Clean P w p =
        then_Clean P ((if w.kernel.running then stop else pure tt) w) _
          (λ _ v. cleanup-Clean P 0 v p)

    go_on-Clean :
        (events : List Event) (is_init b : Bool) (w : World)
        → is_init ≡ b
        → Clean
            (λ code. code ≡ (if b then 0 else 1))
            ((do served ← go_on events is_init; leave served) w)
    unfolding go_on leave
    go_on-Clean events false false w e = cleanup-Clean (λ (code : ℕ). code ≡ 1) 1 w refl
    go_on-Clean events true true w e =
        then_then (λ code. code ≡ 0) (start w) (λ _. do work events; pure true) leave
          (λ _ v.
            then_then (λ code. code ≡ 0) (work events v) (λ _. pure true) leave
              (λ _ u. served-Clean (λ code. code ≡ 0) u refl))
    go_on-Clean events true false w e = absurd (ground (arith, e))
    go_on-Clean events false true w e = absurd (ground (arith, e))

    init-Clean :
        (events : List Event) (w : World) (x : Outcome Bool)
        → Ready w x
        → Clean
            (Fits x)
            (elim (elim x as (λ _. Outcome Bool) [
              | ok b v ↦ go_on events (v.kernel.init) v
              | throws e v ↦ throws e v
              | dies y ↦ dies y
            ])
              as (λ _. Outcome ℕ) [
                | ok served v ↦ leave served v
                | throws e v ↦ throws e v
                | dies y ↦ dies y
              ])
    init-Clean events w (ok b v) r = go_on-Clean events v.kernel.init b v r.0
    init-Clean events w (throws what v) r = tt
    init-Clean events w (dies f) r = tt

    -- If `main` returns from the first state of the program, the kernel is not running, not
    -- initialised and has no feeders, and the exit code is 0 if `init` succeeded and 1 if it did not,
    -- whatever the events, Lua and the system do.
    pub main-Clean :
        (options : Options) (events : List Event)
        → Clean
            (Fits ((do with_level options.log_level; init options.config_file) initial))
            (main options events initial)
    unfolding main serve go_on leave initial
    main-Clean options events =
        let k = initial.kernel in
        let w : World = record initial {
          kernel = record k { cfg = record (k.cfg) { log_level = options.log_level } };
        } in
        init-Clean events w (init options.config_file w)
          (init-Ready options.config_file w refl refl refl refl refl)
