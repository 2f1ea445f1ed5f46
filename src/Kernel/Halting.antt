-- ===== src/Kernel/Halting.antt =====
-- Shutting connections and feeders down (src/connection.cpp, src/kernel.cpp), when a farewell to Lua
-- fails or succeeds.
use grind.Prelude.{
  ℕ, ◌≡◌, ◌≢◌, refl, ◌⊎◌, ◌∙◌, Bool, true, false, Bool-cases, inl, inr, Option, none, some, List,
  [], ◌∷◌, Bytes, lit, str_eq, arith,
}
use grind.Lua.{Lua, connection_at}
use grind.Host.{Host}
use grind.World.{
  Connection, ConnectionType, watcher_connection, feeder_connection, CloseHandler, kernel_close,
  feeder_close, catch_and_throw, Engine, Feeder, World,
}
use grind.World.Monad.{
  Fault, null_lua, bad_cast, assertion, dangling, Outcome, ok, throws, dies, M, pure, ◌>>=◌,
  for_each, gets, os, raise_if, connection, feeder, set_connection, set_feeder,
}
use grind.World.Mutex.{feeder_conn_mutex, lock, unlock, release, scoped}
use grind.Registry.Untouched.{Outside, outside}
use grind.Bridge.{object_at, push_argument, push_arguments}
use grind.Engine.{notify}
use grind.Engine.Balance.{Called}
use grind.Engine.Calls.{named, pass_to_lua-Called}
use grind.Objects.{assign_close_handler, close_watcher}
use grind.Connections.{
  remove, close_feed, run_close_handler, notify_watcher, disengage, stop_feeder, destroy,
}
use grind.Connections

module _ ⦃lua : Lua⦄ where
  -- Lua is open, and but for its state the engine is `e`.
  abbrev pub Open : Engine → World → Type 0
  Open e w = (t : lua.State) × (w.engine ≡ record e { lua_state = some t })

  -- The engine as a failed call leaves it.
  abbrev pub closed : Engine → Engine
  closed e = record e { lua_state = none; running = false }

  -- Not a fault of the engine.
  abbrev pub Strange : Fault → Type 0
  Strange f = (f ≢ null_lua) × (f ≢ bad_cast) × (f ≢ assertion)

  -- A call from an open engine leaves it open, also where the system throws, or Lua throws and it is
  -- closed; the kernel's marks and watchers stay.
  abbrev pub Halts : {A : Type 0} → Engine → Outside → Outcome A → Type 0
  Halts e o (ok a v) = Open e v × (outside v ≡ o)
  Halts e o (throws what v) = (Open e v ⊎ (v.engine ≡ closed e)) × (outside v ≡ o)
  Halts e o (dies f) = Strange f

  pub record Halting {A : Type 0} (e : Engine) (o : Outside) (m : M A) : Type 0 where
    pub run : (w : World) → Open e w → outside w ≡ o → Halts e o (m w)

  module _ (e : Engine) (o : Outside) where
    then_Halts :
        {A B : Type 0} (x : Outcome A) (k : A → M B)
        → Halts e o x
        → ((a : A) → Halting e o (k a))
        → Halts e o (elim x [ ok a v ↦ k a v | throws e v ↦ throws e v | dies y ↦ dies y ])
    then_Halts (ok a v) k (p, g) h = (h a).run v p g
    then_Halts (throws what v) k p h = p
    then_Halts (dies f) k p h = p

    pub Halting-bind :
        {A B : Type 0} {m : M A} {k : A → M B}
        → Halting e o m
        → ((a : A) → Halting e o (k a))
        → Halting e o (m >>= k)
    Halting-bind {m = m} {k = k} h next = record {
      run = λ w p g. then_Halts (m w) k (h.run w p g) next;
    }

    pub Halting-each :
        {A : Type 0} (f : A → M (Unit {0})) (xs : List A)
        → ((a : A) → Halting e o (f a))
        → Halting e o (for_each f xs)
    unfolding for_each
    Halting-each f [] h = record { run = λ w p g. (p, g) }
    Halting-each f (a ∷ xs) h = Halting-bind (h a) (λ _. Halting-each f xs h)

    pub Halting-gets : {A : Type 0} (get : World → A) → Halting e o (gets get)
    Halting-gets get = record { run = λ w p g. (p, g) }

    Halting-os : {A : Type 0} (call : ℕ → A) → Halting e o (os call)
    Halting-os call = record { run = λ w p g. (p, g) }

    Halting-pure : {A : Type 0} (a : A) → Halting e o (pure a)
    Halting-pure a = record { run = λ w p g. (p, g) }

    Halting-raise_if : (problem : Option Bytes) → Halting e o (raise_if problem)
    Halting-raise_if none = record { run = λ w p g. (p, g) }
    Halting-raise_if (some what) = record { run = λ w p g. (inl p, g) }

    Halting-destroy : (cs : List ℕ) → Halting e o (destroy cs)
    unfolding destroy
    Halting-destroy cs = record { run = λ w p g. (p, g) }

    Halting-connection : (c : ℕ) → Halting e o (connection c)
    Halting-connection c = record { run = λ w p g. at w (w.heap.connection_at c) p g }
      where
        at :
            (w : World) (x : Option Connection)
            → Open e w
            → outside w ≡ o
            → Halts e o (elim x [ none ↦ dies dangling | some x ↦ ok x w ])
        at w none p g = ground arith
        at w (some x) p g = (p, g)

    Halting-feeder : (f : ℕ) → Halting e o (feeder f)
    Halting-feeder f = record { run = λ w p g. at w (w.heap.feeder_at f) p g }
      where
        at :
            (w : World) (x : Option Feeder)
            → Open e w
            → outside w ≡ o
            → Halts e o (elim x [ none ↦ dies dangling | some x ↦ ok x w ])
        at w none p g = ground arith
        at w (some x) p g = (p, g)

    Halting-set_connection : (c : ℕ) (x : Connection) → Halting e o (set_connection c x)
    Halting-set_connection c x = record { run = λ w p g. (p, g) }

    Halting-set_feeder : (f : ℕ) (x : Option Feeder) → Halting e o (set_feeder f x)
    Halting-set_feeder f x = record { run = λ w p g. (p, g) }

    Halting-lock : (f : ℕ) → Halting e o (lock (feeder_conn_mutex f))
    unfolding lock
    Halting-lock f = Halting-bind (Halting-feeder f) (λ x. record {
      run = λ w p g. elim (Bool-cases (x.conn_locked)) [
        | inl held ↦ rw held (ground arith)
        | inr free ↦ rw free (p, g)
      ];
    })

    -- A call that touches neither the engine nor the kernel's marks, or finds a dangling pointer.
    abbrev Idle : World → Outcome (Unit {0}) → Type 0
    Idle v (ok _ u) = (u.engine ≡ v.engine) × (outside u ≡ outside v)
    Idle v (throws how u) = ⊥
    Idle v (dies y) = y ≡ dangling

    -- What is thrown on, behind such a call.
    thrown_Halts :
        (A : Type 0) (what : Bytes) (v : World) (x : Outcome (Unit {0}))
        → Idle v x
        → Halts {A = A} e o (throws what v)
        → Halts {A = A} e o
            (elim x [ ok _ u ↦ throws what u | throws how u ↦ throws how u | dies y ↦ dies y ])
    thrown_Halts A what v (ok _ u) (same, kept) (inl (t, h), g) = (inl (t, same ∙ h), kept ∙ g)
    thrown_Halts A what v (ok _ u) (same, kept) (inr h, g) = (inr (same ∙ h), kept ∙ g)
    thrown_Halts A what v (throws how u) a p = absurd a
    thrown_Halts A what v (dies y) a p = ground (arith, a)

    -- The mutex of a feeder, however the block is left.
    release-Halts :
        {A : Type 0} (f : ℕ) (x : Outcome A)
        → Halts e o x
        → Halts e o (release (feeder_conn_mutex f) x)
    unfolding release unlock
    release-Halts f (ok a v) (p, g) =
        (Halting-bind
            (Halting-bind (Halting-feeder f)
              (λ x. Halting-set_feeder f (some (record x { conn_locked = false }))))
            (λ _. Halting-pure a)).run
          v p g
    release-Halts {A = A} f (throws what v) p =
        thrown_Halts A what v (unlock (feeder_conn_mutex f) v) (ground arith) p
    release-Halts f (dies y) p = p

    Halting-scoped :
        {A : Type 0} (f : ℕ) {m : M A}
        → Halting e o m
        → Halting e o (scoped (feeder_conn_mutex f) m)
    unfolding scoped
    Halting-scoped f {m} h =
        Halting-bind (Halting-lock f)
          (λ _. record { run = λ w p g. release-Halts f (m w) (h.run w p g) })

    Halting-close_feed : (f c : ℕ) → Halting e o (close_feed f c)
    unfolding close_feed
    Halting-close_feed f c = Halting-scoped f (
        Halting-bind (Halting-feeder f)
          (λ x. Halting-set_feeder f (some (record x { connections = remove c (x.connections) }))))

    Halting-close_handler : (h : Option CloseHandler) (c : ℕ) → Halting e o (run_close_handler h c)
    unfolding run_close_handler close_watcher
    Halting-close_handler none c = Halting-pure tt
    Halting-close_handler (some kernel_close) c = record { run = λ w p g. (p, g) }
    Halting-close_handler (some (feeder_close f)) c =
        Halting-bind (Halting-close_feed f c) (λ _. Halting-destroy (c ∷ []))

    module _ ⦃host : Host⦄ (kernel_stop : M (Unit {0})) (free : e.locked ≡ false)
        (alive : e.stopping ≡ false) (handling : e.error_handling ≡ catch_and_throw) where
      -- The farewell to a watcher, without its result.
      Called-Halts :
          (f : Engine) (p : Outside) (height : ℕ) (t : lua.State) (x : Outcome Bool)
          → f ≡ record e { lua_state = some t }
          → p ≡ o
          → Called f p height x
          → Halts e o
              (elim x [ ok b v ↦ ok tt v | throws what v ↦ throws what v | dies y ↦ dies y ])
      Called-Halts f p height t (ok b v) h g (_, u, same, _, kept) =
          ((u, ground (arith, same, h)), kept ∙ g)
      Called-Halts f p height t (throws what v) h g (u, _, same, kept) =
          (inr (ground (arith, same, h, alive)), kept ∙ g)
      Called-Halts f p height t (dies y) h g r = (r.0, r.1, r.2)

      push_connection :
          (c : ℕ) (s : lua.State)
          → push_arguments
              (record { type = lit "grind::connection"; value = object_at (connection_at c) } ∷ [])
              s
            ≡ some (lua.pushpointer (connection_at c) (lit "grind::connection *") s)
      unfolding push_arguments push_argument str_eq
      push_connection c s = refl

      Halting-notify :
          (in_func : Bytes) (c : ℕ) → Halting e o (notify_watcher kernel_stop in_func c)
      unfolding notify_watcher notify
      Halting-notify in_func c = record {
        run = λ w (t, h) g. Called-Halts w.engine (outside w) (lua.gettop t) t _ h g (
            pass_to_lua-Called kernel_stop in_func 0 _ w (ground (arith, h))
              (ground (arith, h, free)) (ground (arith, h, handling))
              (push_connection c (named in_func t)));
      }

      Halting-leave :
          (t : ConnectionType) (c : ℕ)
          → Halting e o (elim t [
            | watcher_connection ↦ notify_watcher kernel_stop (lit "grind.remove_watcher") c
            | feeder_connection ↦ pure tt
          ])
      Halting-leave watcher_connection c = Halting-notify _ c
      Halting-leave feeder_connection c = Halting-pure tt

      pub Halting-stop : (c : ℕ) → Halting e o (Connections.stop kernel_stop c)
      unfolding Connections.stop
      Halting-stop c = Halting-bind (Halting-connection c) (λ x.
          Halting-bind (Halting-leave (x.type) c) (λ _.
            Halting-bind (Halting-os (λ now. host.cancel now c)) (λ problem.
              Halting-bind (Halting-raise_if problem) (λ _.
                Halting-bind (Halting-connection c) (λ x.
                  Halting-bind (Halting-set_connection c (record x { is_shut = true }))
                    (λ _. Halting-close_handler (x.close_handler) c))))))

      Halting-disengage : (c : ℕ) → Halting e o (disengage kernel_stop c)
      unfolding disengage assign_close_handler
      Halting-disengage c =
          Halting-bind
            (Halting-bind (Halting-connection c)
              (λ x. Halting-set_connection c (record x { close_handler = none })))
            (λ _. Halting-stop c)

      pub Halting-stop_feeder : (f : ℕ) → Halting e o (stop_feeder kernel_stop f)
      unfolding stop_feeder
      Halting-stop_feeder f = Halting-scoped f (
          Halting-bind (Halting-feeder f) (λ x.
            Halting-bind (Halting-each _ (x.connections) Halting-disengage) (λ _.
              Halting-bind (Halting-feeder f) (λ x.
                Halting-bind (Halting-destroy x.connections) (λ _.
                  Halting-bind (Halting-feeder f)
                    (λ x. Halting-set_feeder f (some (record x { connections = [] }))))))))
