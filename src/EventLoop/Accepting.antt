-- ===== src/EventLoop/Accepting.antt =====
-- `feeder::on_accept` leaves the registry sound.
use grind.Prelude.{
  ℕ, ◌+◌, ◌≡◌, arith, Bool, true, false, Bool-cases, Option-cases, inl, inr, none, some, List, [],
  ◌∷◌, ◌++◌, Bytes, str_eq_iff, ◌==◌,
}
use grind.Lua.{Lua}
use grind.Host.{Host}
use grind.World.{Pending, feeder_accept, dropping, World}
use grind.World.Monad.{
  dangling, Outcome, ok, throws, dies, M, pure, ◌>>=◌, ◌>>◌, feeder, post, carry, or_die,
  set_feeder,
}
use grind.World.Frame.{Leads, Respects}
use grind.Objects.{new_connection, assign_close_handler}
use grind.Registry.{find, accept, remove_feeder}
use grind.Registry.Invariant.{
  accepts, drops, one_accept, accepts-append, drops-append, label_at, IsHome-less, IsHome-some,
  IsHome-of_found, IsHome-none, Steady, InMap,
}
use grind.Registry.Steady.{Safe-Unseen}
use grind.Registry.Steps.{Keeps, Keeps-bind}
use grind.Connections.{start, on_accept}
use grind.Connections.Steady.{start-Keeps}
use grind.Kernel.{stop}
use grind.Kernel.Steady.{kernel_stop-Keeps}
use grind.EventLoop.Turns.{IsSound, EndsSound, all_EndsSound, without, without-Sound}

module _ ⦃lua : Lua⦄ where
  -- The handler for the next connection to `g` is off the queue.
  pub record Accepting (g : ℕ) (w : World) (ps : List Pending) : Type 0 where
    pub sound : IsSound w
    pub waited : (f : ℕ) → accepts f w.io.pending ≡ accepts f ps + one_accept f (feeder_accept g)
    pub left : (l : Bytes) → drops l w.io.pending ≡ drops l ps

  Accepting-Sound :
      {g : ℕ} {w : World} {ps : List Pending} → Accepting g w ps → IsSound (without w ps)
  Accepting-Sound {g} {w} {ps} a l f =
      without-Sound l f w ps (omega (arith, a.waited f)) (omega (arith, a.left l)) (a.sound l f)

  -- The feeder is the one that its label leads to.
  Accepting-home :
      {g : ℕ} {w : World} {ps : List Pending} (k : Bytes)
      → Accepting g w ps
      → label_at g w ≡ some k
      → find k w.kernel.feeders ≡ some g
  Accepting-home {g} {w} {ps} k a e =
      IsHome-some (label_at g w) g _ w.kernel.feeders k e (a.sound k g).home
        (grind (arith, a.waited g))

  no_label : {g : ℕ} {w : World} {ps : List Pending} → Accepting g w ps → ¬ (label_at g w ≡ none)
  no_label {g} {w} {ps} a e = absurd (
      grind
        (arith, a.waited g, IsHome-none (label_at g w) g _ w.kernel.feeders e (a.sound [] g).home))

  resign_Sound :
      {g : ℕ} {w : World} {ps : List Pending} (k : Bytes)
      → Accepting g w ps
      → label_at g w ≡ some k
      → IsSound (without w (ps ++ dropping k ∷ []))
  resign_Sound {g} {w} {ps} k a e l f =
      let s = a.sound l f in
      let r = Accepting-Sound a l f in
      let home = Accepting-home k a e in
      let na = accepts-append f ps (dropping k) in
      let nd = drops-append l ps (dropping k) in
      record {
        live = s.live;
        single =
            λ q. ground (arith, q, s.single q, a.waited f, a.left l, na, nd, home, str_eq_iff k l);
        known = λ q. ground (arith, q, s.known q, a.left l, nd, home, str_eq_iff k l);
        home = IsHome-less (label_at f w) f _ _ w.kernel.feeders (omega (arith, na)) r.home;
        unique = s.unique;
        fresh = s.fresh;
      }

  remove_feeder-EndsSound :
      (g : ℕ) {w : World} {ps : List Pending}
      → Accepting g w ps
      → EndsSound (remove_feeder g (without w ps))
  unfolding remove_feeder
  remove_feeder-EndsSound g {w} {ps} a = elim (Option-cases (w.heap.feeder_at g)) [
    | inl e ↦ ground (arith, e)
    | inr (x, e) ↦
        carry EndsSound {x = feeder g (without w ps)} (λ x. post (dropping x.label)) {a = x}
          {v = without w ps} (ground (arith, e)) (resign_Sound x.label a (ground (arith, e)))
  ]

  -- One more handler waits for a connection to `g`.
  abbrev Awaits : ℕ → Bytes → ℕ → World → World → Type 0
  Awaits g l f v u =
      (u.kernel.feeders ≡ v.kernel.feeders)
      × (u.heap.next_feeder ≡ v.heap.next_feeder)
      × (label_at f u ≡ label_at f v)
      × (accepts f u.io.pending ≡ accepts f v.io.pending + one_accept f (feeder_accept g))
      × (drops l u.io.pending ≡ drops l v.io.pending)

  accept-Awaits : (g : ℕ) (l : Bytes) (f : ℕ) → Respects (Awaits g l f) InMap (accept g)
  unfolding accept new_connection assign_close_handler
  accept-Awaits g l f v = elim (Option-cases (v.heap.feeder_at g)) [
    | inl e ↦ ground (arith, e)
    | inr (x, e) ↦ ground (
      arith,
      e,
      accepts-append f v.io.pending (feeder_accept g),
      drops-append l v.io.pending (feeder_accept g),
    )
  ]

  await_Sound :
      {g : ℕ} {w v u : World} {ps : List Pending} (k : Bytes)
      → Accepting g w ps
      → label_at g w ≡ some k
      → ((l : Bytes) (f : ℕ) → Steady l f (without w ps) v)
      → ((l : Bytes) (f : ℕ) → Awaits g l f v u)
      → IsSound u
  await_Sound {g} {w} {v} {u} {ps} k a e t r l f =
      let s = (t l f).sound (Accepting-Sound a l f) in
      let home = Accepting-home k a e in
      let labels : (g ≡ f → label_at f v ≡ some k) =
        λ b. ground (arith, b, e, (a.sound k g).fresh, (t l f).labels) in
      let waits : (g ≡ f → accepts f v.io.pending ≡ accepts f ps) =
        λ b. ground (arith, b, e, (a.sound k g).fresh, (t l f).waits) in
      record {
        live = ground (arith, s.live, r l f);
        single = λ q. elim (Bool-cases (g == f)) [
          | inl b ↦ grind (
            arith,
            b,
            q,
            labels,
            waits,
            home,
            (t l f).leaves,
            a.left l,
            a.waited f,
            (a.sound l f).single,
            s.live,
            r l f,
          )
          | inr b ↦ grind (arith, b, q, s.single, r l f)
        ];
        known = ground (arith, s.known, r l f);
        home = elim (Bool-cases (g == f)) [
          | inl b ↦
              IsHome-of_found (label_at f u) f _ u.kernel.feeders k
                (grind (arith, b, labels, r l f)) (grind (arith, b, home, (t k f).stays, r l f))
          | inr b ↦
              rw ((r l f).0, (r l f).2)
                (IsHome-less (label_at f v) f _ _ v.kernel.feeders (grind (arith, b, r l f)) s.home)
        ];
        unique = rw (r l f).0 s.unique;
        fresh = ground (arith, s.fresh, r l f);
      }

  module _ ⦃host : Host⦄ where
    -- The first part of `feeder::on_accept`: the connection is put on the list.
    admit : ℕ → M ℕ
    admit g = do
      x ← feeder g
      c ← or_die x.conn dangling
      set_feeder g (some (record x { connections = x.connections ++ c ∷ [] }))
      pure c

    welcome : ℕ → M (Unit {0})
    welcome g = do c ← admit g; start stop c

    on_accept-welcome : (g : ℕ) (w : World) → on_accept stop false g w ≡ (do welcome g; accept g) w
    unfolding on_accept welcome admit
    on_accept-welcome g w = elim (Option-cases (w.heap.feeder_at g)) [
      | inl e ↦ ground (arith, e)
      | inr (x, e) ↦ elim (Option-cases x.conn) [
        | inl n ↦ ground (arith, e, n)
        | inr (c, n) ↦ ground (arith, e, n)
      ]
    ]

    admit-Keeps : (l : Bytes) (f g : ℕ) → Keeps l f (admit g)
    unfolding admit
    admit-Keeps l f g = record {
      run = λ w. Safe-Unseen l f w (admit g w) (elim (Option-cases (w.heap.feeder_at g)) [
        | inl e ↦ ground (arith, e)
        | inr (x, e) ↦ ground (arith, e)
      ]);
    }

    welcome-Keeps : (l : Bytes) (f g : ℕ) → Keeps l f (welcome g)
    unfolding welcome
    welcome-Keeps l f g =
        Keeps-bind l f (admit-Keeps l f g) (λ c. start-Keeps l f (kernel_stop-Keeps l f) c)

    accept_again :
        {g : ℕ} {w : World} {ps : List Pending} (k : Bytes)
        → Accepting g w ps
        → label_at g w ≡ some k
        → (x : Outcome (Unit {0}))
        → ((l : Bytes) (f : ℕ) → Leads (Steady l f) InMap (without w ps) x)
        → EndsSound (elim x [ ok _ v ↦ accept g v | throws e v ↦ throws e v | dies y ↦ dies y ])
    accept_again {g} k a e (ok _ v) r =
        all_EndsSound (Awaits g) v (accept g v) (λ l f. accept-Awaits g l f v)
          (λ u h. await_Sound k a e r h)
    accept_again k a e (throws what v) r = λ l f. (r l f).sound (Accepting-Sound a l f)
    accept_again k a e (dies y) r = r [] 0

    pub on_accept-EndsSound :
        (failed : Bool) (g : ℕ) {w : World} {ps : List Pending}
        → Accepting g w ps
        → EndsSound (on_accept stop failed g (without w ps))
    unfolding on_accept
    on_accept-EndsSound true g a = remove_feeder-EndsSound g a
    on_accept-EndsSound false g {w} {ps} a = elim (Option-cases (label_at g w)) [
      | inl e ↦ absurd (no_label a e)
      | inr (k, e) ↦ rw (on_accept-welcome g (without w ps)) (
          accept_again k a e (welcome g (without w ps))
            (λ l f. (welcome-Keeps l f g).run (without w ps)))
    ]
