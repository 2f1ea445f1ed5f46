-- ===== src/World/Tidy.antt =====
-- The mutexes between the calls: `script_engine::mtx_`, `kernel::conn_mtx_`, `kernel::feeder_mtx_` and
-- `feeder::conn_mtx_`. The first may be held by the caller.
use grind.Prelude.{
  ℕ, ◌≡◌, ◌≢◌, refl, Bool, true, false, Bool-cases, inl, inr, Option, none, some, List, [], ◌∷◌,
  Bytes, if◌then◌else◌, ◌==◌, arith,
}
use grind.Lua.{Lua}
use grind.World.{catch_and_throw, Connection, Engine, Feeder, Kernel, Pending, World}
use grind.World.Monad.{
  Fault, dangling, deadlock, Outcome, ok, throws, dies, M, pure, throw, die, ◌>>=◌, gets, or_die,
  or_throw, raise_if, for_each, os, post, connection, feeder, set_connection, set_feeder,
  set_kernel, set_engine,
}
use grind.World.Mutex.{lua_mutex, lock, unlock, release, scoped}

module _ ⦃lua : Lua⦄ where
  -- The mutex of a feeder that is alive.
  abbrev pub held_at : ℕ → World → Bool
  held_at f w = elim (w.heap.feeder_at f) [ none ↦ false | some x ↦ x.conn_locked ]

  abbrev pub NoneHeld : World → Type 0
  NoneHeld w = (f : ℕ) → held_at f w ≡ false

  -- Errors are thrown, the engine's mutex is as told, and the others are free.
  abbrev pub Tidy : (locked : Bool) → World → Type 0
  Tidy locked w =
      (w.engine.locked ≡ locked)
      × (w.engine.error_handling ≡ catch_and_throw)
      × (w.kernel.conn_locked ≡ false)
      × (w.kernel.feeder_locked ≡ false)
      × NoneHeld w

  -- A call ends tidily, or with another fault than a deadlock.
  abbrev pub EndsTidy : {A : Type 0} → (locked : Bool) → Outcome A → Type 0
  EndsTidy locked (ok a v) = Tidy locked v
  EndsTidy locked (throws what v) = Tidy locked v
  EndsTidy locked (dies f) = f ≢ deadlock

  pub record Free {A : Type 0} (b : Bool) (m : M A) : Type 0 where
    pub run : (w : World) → Tidy b w → EndsTidy b (m w)

  module _ (b : Bool) where
    pub then_EndsTidy :
        {A B : Type 0} (x : Outcome A) (k : A → M B)
        → EndsTidy b x
        → ((a : A) → Free b (k a))
        → EndsTidy b (elim x [ ok a v ↦ k a v | throws e v ↦ throws e v | dies y ↦ dies y ])
    then_EndsTidy (ok a v) k t h = (h a).run v t
    then_EndsTidy (throws what v) k t h = t
    then_EndsTidy (dies f) k t h = t

    pub Free-bind :
        {A B : Type 0} {m : M A} {k : A → M B}
        → Free b m
        → ((a : A) → Free b (k a))
        → Free b (m >>= k)
    Free-bind {m = m} {k = k} h next = record {
      run = λ w t. then_EndsTidy (m w) k (h.run w t) next;
    }

    pub Free-pure : {A : Type 0} (a : A) → Free b (pure a)
    Free-pure a = record { run = λ w t. t }

    pub Free-gets : {A : Type 0} (get : World → A) → Free b (gets get)
    Free-gets get = record { run = λ w t. t }

    pub Free-throw : {A : Type 0} (what : Bytes) → Free b (throw {A = A} what)
    Free-throw what = record { run = λ w t. t }

    pub Free-die : {A : Type 0} (f : Fault) → f ≢ deadlock → Free b (die {A = A} f)
    Free-die f n = record { run = λ w t. n }

    pub Free-if :
        {A : Type 0} (c : Bool) {m n : M A} → Free b m → Free b n → Free b (if c then m else n)
    Free-if true h k = h
    Free-if false h k = k

    pub Free-each :
        {A : Type 0} (f : A → M (Unit {0})) (xs : List A)
        → ((a : A) → Free b (f a))
        → Free b (for_each f xs)
    unfolding for_each
    Free-each f [] h = record { run = λ w t. t }
    Free-each f (a ∷ xs) h = Free-bind (h a) (λ _. Free-each f xs h)

    pub Free-os : {A : Type 0} (call : ℕ → A) → Free b (os call)
    Free-os call = record { run = λ w t. t }

    pub Free-post : (p : Pending) → Free b (post p)
    Free-post p = record { run = λ w t. t }

    pub Free-set_connection : (c : ℕ) (x : Connection) → Free b (set_connection c x)
    Free-set_connection c x = record { run = λ w t. t }

    pub Free-connection : (c : ℕ) → Free b (connection c)
    Free-connection c = record { run = λ w t. ground (arith, t) }

    pub Free-feeder : (f : ℕ) → Free b (feeder f)
    Free-feeder f = record { run = λ w t. at w (w.heap.feeder_at f) t }
      where
        at :
            (w : World) (x : Option Feeder)
            → Tidy b w
            → EndsTidy b (elim x [ none ↦ dies dangling | some x ↦ ok x w ])
        at w none t = ground arith
        at w (some x) t = t

    pub Free-or_die : {A : Type 0} (x : Option A) (f : Fault) → f ≢ deadlock → Free b (or_die x f)
    Free-or_die none f n = record { run = λ w t. n }
    Free-or_die (some a) f n = record { run = λ w t. t }

    pub Free-or_throw : {A : Type 0} (x : Option A) (what : Bytes) → Free b (or_throw x what)
    Free-or_throw none what = record { run = λ w t. t }
    Free-or_throw (some a) what = record { run = λ w t. t }

    pub Free-raise_if : (x : Option Bytes) → Free b (raise_if x)
    Free-raise_if none = record { run = λ w t. t }
    Free-raise_if (some what) = record { run = λ w t. t }

    -- A change of the engine, but not of its mutex.
    pub Free-set_engine :
        (change : Engine → Engine)
        → ((e : Engine)
            → ((change e).locked ≡ e.locked) × ((change e).error_handling ≡ e.error_handling))
        → Free b (set_engine change)
    Free-set_engine change same = record {
      run = λ w t. (
        ground (arith, t.0, (same w.engine).0),
        ground (arith, t.1, (same w.engine).1),
        t.2,
        t.3,
        t.4,
      );
    }

    -- A change of the kernel, but not of its mutexes.
    pub Free-set_kernel :
        (change : Kernel → Kernel)
        → ((k : Kernel)
            → ((change k).conn_locked ≡ k.conn_locked)
              × ((change k).feeder_locked ≡ k.feeder_locked))
        → Free b (set_kernel change)
    Free-set_kernel change same = record {
      run = λ w t. (
        t.0,
        t.1,
        ground (arith, t.2, (same w.kernel).0),
        ground (arith, t.3, (same w.kernel).1),
        t.4,
      );
    }

    -- A feeder with its mutex free, or none, is put at an address.
    pub Free-set_feeder :
        (f : ℕ) (x : Option Feeder)
        → (elim x [ none ↦ false | some y ↦ y.conn_locked ]) ≡ false
        → Free b (set_feeder f x)
    Free-set_feeder f x e = record {
      run = λ w t. (
        t.0,
        t.1,
        t.2,
        t.3,
        λ g. elim (Bool-cases (f == g)) [
          | inl same ↦ ground (arith, same, e)
          | inr differ ↦ ground (arith, differ, t.4 g)
        ],
      );
    }

  release-Tidy :
      {A : Type 0} (x : Outcome A) → EndsTidy true x → EndsTidy false (release lua_mutex x)
  unfolding release unlock
  release-Tidy (ok a v) t = (refl, t.1, t.2, t.3, t.4)
  release-Tidy (throws what v) t = (refl, t.1, t.2, t.3, t.4)
  release-Tidy (dies f) t = t

  -- The engine's mutex is taken for a call, and free again however the call ends.
  pub Free-scoped : {A : Type 0} {m : M A} → Free true m → Free false (scoped lua_mutex m)
  unfolding scoped lock
  Free-scoped {m = m} h = record {
    run = λ w t. rw (t.0) (
        release-Tidy (m (record w { engine = record (w.engine) { locked = true } })) (
          h.run (record w { engine = record (w.engine) { locked = true } })
            (refl, t.1, t.2, t.3, t.4)));
  }
