-- ===== src/Connections/Disengaging.antt =====
-- `feeder::stop` in src/kernel.cpp.
use grind.Prelude.{
  ℕ, ◌+◌, Bool-cases, inl, inr, ◌≡◌, ◌≢◌, refl, arith, true, false, none, some, List, [], ◌∷◌, ◌==◌,
  if◌then◌else◌,
}
use grind.Lua.{Lua}
use grind.Host.{Host}
use grind.World.{Connection, feeder_connection, Feeder, World, update}
use grind.World.Monad.{Outcome, ok, throws, dies, M, for_each, carry}
use grind.World.Mutex.{lock, unlock, scoped, release}
use grind.Objects.{assign_close_handler}
use grind.Registry.{holds}
use grind.Connections.{destroy, run_close_handler, stop, disengage, stop_feeder}

module _ ⦃lua : Lua⦄ where
  -- A live connection to a feeder.
  abbrev pub Feeds : World → ℕ → Type 0
  Feeds w c = (y : Connection) × (w.heap.connection_at c ≡ some y) × (y.type ≡ feeder_connection)

  -- A connection that has been shut down, and will tell nobody.
  abbrev pub Shut : World → ℕ → Type 0
  Shut w c =
      (y : Connection) × (w.heap.connection_at c ≡ some y)
      × (y.is_shut ≡ true)
      × (y.close_handler ≡ none)

  abbrev pub Every : (ℕ → Type 0) → List ℕ → Type 0
  Every P [] = Unit {0}
  Every P (c ∷ cs) = P c × Every P cs

  Every-map : {P Q : ℕ → Type 0} → ((c : ℕ) → P c → Q c) → (cs : List ℕ) → Every P cs → Every Q cs
  Every-map h [] e = tt
  Every-map h (c ∷ cs) (p, e) = (h c p, Every-map h cs e)

  -- Every connection of a feeder has been shut down without a close handler, and then the feeder's
  -- pointers to them are dropped.
  abbrev pub LetGo : (cs : List ℕ) → (t v : World) → Type 0
  LetGo cs t v =
      Every (Shut t) cs
      × ((c : ℕ) → v.heap.connection_at c ≡ (if holds c cs then none else t.heap.connection_at c))

  -- The feeder with its mutex taken.
  abbrev pub held : ℕ → Feeder → World → World
  held f x w = record w {
    heap = record (w.heap) {
      feeder_at = update (w.heap.feeder_at) f (some (record x { conn_locked = true }));
    };
  }

  module _ ⦃host : Host⦄ where
    -- The feeder `x` at `f` has been stopped.
    abbrev pub IsStopped : M (Unit {0}) → ℕ → Feeder → World → Outcome (Unit {0}) → Type 0
    IsStopped kernel_stop f x w (ok _ v) =
        (v.kernel ≡ w.kernel)
        × (v.engine ≡ w.engine)
        × (v.io.pending ≡ w.io.pending)
        × (v.heap.feeder_at f ≡ some (record x { connections = [] }))
        × ((g : ℕ) → f ≢ g → v.heap.feeder_at g ≡ w.heap.feeder_at g)
        × ((t : World) × (for_each (disengage kernel_stop) x.connections (held f x w) ≡ ok tt t)
            × LetGo x.connections t v)
    IsStopped kernel_stop f x w (throws e v) = ⊥
    IsStopped kernel_stop f x w (dies y) = ⊥

  -- Only connections have changed: feeding ones still feed, shut ones stay shut.
  pub record Calm (w v : World) : Type 0 where
    pub kernel : v.kernel ≡ w.kernel
    pub engine : v.engine ≡ w.engine
    pub feeders : v.heap.feeder_at ≡ w.heap.feeder_at
    pub pending : v.io.pending ≡ w.io.pending
    pub feeds : (c : ℕ) → Feeds w c → Feeds v c
    pub shut : (c : ℕ) → Shut w c → Shut v c

  Calm-same : (w : World) → Calm w w
  Calm-same w = record {
    kernel = refl;
    engine = refl;
    feeders = refl;
    pending = refl;
    feeds = λ c p. p;
    shut = λ c p. p;
  }

  Calm-trans : {u v w : World} → Calm u v → Calm v w → Calm u w
  Calm-trans a b = record {
    kernel = ground (arith, a.kernel, b.kernel);
    engine = ground (arith, a.engine, b.engine);
    feeders = ground (arith, a.feeders, b.feeders);
    pending = ground (arith, a.pending, b.pending);
    feeds = λ c p. b.feeds c (a.feeds c p);
    shut = λ c p. b.shut c (a.shut c p);
  }

  module _ ⦃host : Host⦄ (kernel_stop : M (Unit {0}))
      (cancels : (now c : ℕ) → host.cancel now c ≡ none) where
    -- What `disengage` leaves.
    after : ℕ → Connection → World → World
    after c y w =
        let silent : Connection = record y { close_handler = none } in
        record w {
          heap = record (w.heap) {
            connection_at =
                update (update (w.heap.connection_at) c (some silent)) c
                  (some (record silent { is_shut = true }));
          };
          io = record (w.io) { now = w.io.now + 1 };
        }

    disengage-after :
        (c : ℕ) (w : World) (y : Connection)
        → w.heap.connection_at c ≡ some y
        → y.type ≡ feeder_connection
        → disengage kernel_stop c w ≡ ok tt (after c y w)
    unfolding disengage stop assign_close_handler run_close_handler after
    disengage-after c w y e t = ground (arith, e, t, cancels w.io.now c)

    at_after :
        (c d : ℕ) (w : World) (y : Connection)
        → (after c y w).heap.connection_at d ≡ (
            if c == d
            then some (record y { close_handler = none; is_shut = true })
            else w.heap.connection_at d)
    unfolding after
    at_after c d w y = ground arith

    after-Calm :
        (c : ℕ) (w : World) (y : Connection)
        → w.heap.connection_at c ≡ some y
        → y.type ≡ feeder_connection
        → Calm w (after c y w)
    unfolding after
    after-Calm c w y e t = record {
      kernel = refl;
      engine = refl;
      feeders = refl;
      pending = refl;
      feeds = λ d (z, q, u). elim (Bool-cases (c == d)) [
        | inl b ↦ (record y { close_handler = none; is_shut = true }, ground (arith, b), t)
        | inr b ↦ (z, ground (arith, b, q), u)
      ];
      shut = λ d (z, q, u, h). elim (Bool-cases (c == d)) [
        | inl b ↦ (record y { close_handler = none; is_shut = true }, ground (arith, b), refl, refl)
        | inr b ↦ (z, ground (arith, b, q), u, h)
      ];
    }

    after-Shut : (c : ℕ) (w : World) (y : Connection) → Shut (after c y w) c
    unfolding after
    after-Shut c w y = (record y { close_handler = none; is_shut = true }, ground arith, refl, refl)

    -- The loop over the connections.
    loop-Calm :
        (cs : List ℕ) (w : World)
        → Every (Feeds w) cs
        → (v : World) × (for_each (disengage kernel_stop) cs w ≡ ok tt v)
          × Calm w v
          × Every (Shut v) cs
    unfolding for_each
    loop-Calm [] w e = (w, refl, Calm-same w, tt)
    loop-Calm (c ∷ cs) w ((y, e, t), es) =
        let u = after c y w in
        let first = after-Calm c w y e t in
        let (v, run, rest, all) = loop-Calm cs u (Every-map first.feeds cs es) in
        (
          v,
          carry (λ o. o ≡ ok tt v) {x = disengage kernel_stop c w}
              (λ _. for_each (disengage kernel_stop) cs) (disengage-after c w y e t) run,
          Calm-trans first rest,
          (rest.shut c (after-Shut c w y), all),
        )

    -- The feeder without connections, and its mutex free.
    emptied : ℕ → Feeder → World → World
    emptied f x w =
        let y : Feeder = record x { connections = []; conn_locked = true } in
        record w {
          heap = record (w.heap) {
            connection_at = λ c. if holds c x.connections then none else w.heap.connection_at c;
            feeder_at =
                update (update (w.heap.feeder_at) f (some y)) f
                  (some (record y { conn_locked = false }));
          };
        }

    stop_feeder-emptied :
        (f : ℕ) (w t : World) (x : Feeder)
        → w.heap.feeder_at f ≡ some x
        → x.conn_locked ≡ false
        → for_each (disengage kernel_stop) x.connections (held f x w) ≡ ok tt t
        → t.heap.feeder_at f ≡ some (record x { conn_locked = true })
        → stop_feeder kernel_stop f w ≡ ok tt (emptied f x t)
    unfolding stop_feeder scoped lock unlock release destroy emptied
    stop_feeder-emptied f w t x e n run kept = ground (arith, e, n, run, kept)

    -- The `stop` of a live feeder whose mutex is free, of feeder connections whose sockets can be
    -- cancelled, always ends with its mutex free, although the connections were made to call back
    -- into it: its loop leaves each of them shut down and without a handler, then these connections
    -- and no others are gone, the feeder keeps none of them, and no other feeder, the kernel, the
    -- engine nor the waiting handlers change.
    pub stop_feeder-IsStopped :
        (f : ℕ) (w : World) (x : Feeder)
        → w.heap.feeder_at f ≡ some x
        → x.conn_locked ≡ false
        → Every (Feeds w) x.connections
        → IsStopped kernel_stop f x w (stop_feeder kernel_stop f w)
    unfolding emptied
    stop_feeder-IsStopped f w x e n es =
        let (t, run, rest, all) = loop-Calm x.connections (held f x w) es in
        let kept = rest.feeders in
        rw (stop_feeder-emptied f w t x e n run (ground arith)) (
          rest.kernel,
          rest.engine,
          rest.pending,
          ground (arith, n),
          (λ g h. ground (arith, h)),
          (t, run, (all, λ c. refl)),
        )
