-- ===== src/Registry/Steps.antt =====
-- How calls that keep the registry steady are composed, and the small ones: posts, mutexes and
-- reads of the heap.
use grind.Prelude.{
  ℕ, ◌≡◌, ◌≢◌, refl, if◌then◌else◌, arith, Bool, true, false, Bytes, List, Option, Option-cases,
  none, some, inl, inr,
}
use grind.Lua.{Lua}
use grind.World.{Connection, Feeder, Kernel, Engine, Pending, World}
use grind.World.Monad.{
  Fault, end_iterator, Outcome, ok, throws, dies, M, ◌>>=◌, pure, gets, for_each, post, os, throw,
  die, or_die, or_throw, raise_if, feeder, connection, set_connection, set_feeder, set_kernel,
  set_engine,
}
use grind.World.Mutex.{
  Mutex, lua_mutex, conn_mutex, feeder_mutex, feeder_conn_mutex, lock, unlock, release, scoped,
}
use grind.World.Frame.{Leads, andthen, for_each-Leads, weaken}
use grind.Registry.Invariant.{
  Steady, Steady-Order, InMap, accepts-append, drops-append, one_accept, one_drop,
}
use grind.Registry.Steady.{Safe, Safe-Unseen}

module _ ⦃lua : Lua⦄ (l : Bytes) (f : ℕ) where
  -- The call keeps the registry steady.
  pub record Keeps {A : Type 0} (m : M A) : Type 0 where
    pub run : Safe l f m

  pub Keeps-bind :
      {A B : Type 0} {m : M A} {k : A → M B} → Keeps m → ((a : A) → Keeps (k a)) → Keeps (m >>= k)
  Keeps-bind {m} {k} h n = record {
    run = λ w. andthen InMap (Steady-Order l f) (m w) k (h.run w) (λ a v r. (n a).run v);
  }

  pub Keeps-each :
      {A : Type 0} {k : A → M (Unit {0})} (xs : List A)
      → ((a : A) → Keeps (k a))
      → Keeps (for_each k xs)
  Keeps-each {k = k} xs h = record {
    run = for_each-Leads InMap (Steady-Order l f) k (λ a. (h a).run) xs;
  }

  pub Keeps-pure : {A : Type 0} (a : A) → Keeps (pure a)
  Keeps-pure a = record { run = λ w. (Steady-Order l f).same w }

  pub Keeps-gets : {A : Type 0} (query : World → A) → Keeps (gets query)
  Keeps-gets query = record { run = λ w. (Steady-Order l f).same w }

  pub Keeps-throw : {A : Type 0} (what : Bytes) → Keeps (throw {A = A} what)
  Keeps-throw what = record { run = λ w. (Steady-Order l f).same w }

  pub Keeps-die : {A : Type 0} (y : Fault) → y ≢ end_iterator → Keeps (die {A = A} y)
  Keeps-die y n = record { run = λ w. n }

  pub Keeps-if :
      {A : Type 0} (b : Bool) {m n : M A} → Keeps m → Keeps n → Keeps (if b then m else n)
  Keeps-if true h k = h
  Keeps-if false h k = k

  pub post-Keeps : (p : Pending) → one_accept f p ≡ 0 → one_drop l p ≡ 0 → Keeps (post p)
  post-Keeps p a d = record {
    run = λ w. Safe-Unseen l f w (post p w) (
      refl,
      refl,
      refl,
      omega (arith, accepts-append f w.io.pending p),
      omega (arith, drops-append l w.io.pending p),
    );
  }

  pub os-Keeps : {A : Type 0} (call : ℕ → A) → Keeps (os call)
  os-Keeps call = record { run = λ w. Safe-Unseen l f w (os call w) (refl, refl, refl, refl, refl) }

  pub set_engine-Keeps : (change : Engine → Engine) → Keeps (set_engine change)
  set_engine-Keeps change = record {
    run = λ w. Safe-Unseen l f w (set_engine change w) (refl, refl, refl, refl, refl);
  }

  pub feeder-Keeps : (g : ℕ) → Keeps (feeder g)
  feeder-Keeps g = record { run = λ w. Safe-Unseen l f w (feeder g w) (ground arith) }

  pub connection-Keeps : (c : ℕ) → Keeps (connection c)
  connection-Keeps c = record { run = λ w. Safe-Unseen l f w (connection c w) (ground arith) }

  pub or_die-Keeps : {A : Type 0} (x : Option A) (y : Fault) → y ≢ end_iterator → Keeps (or_die x y)
  or_die-Keeps none y n = record { run = λ w. n }
  or_die-Keeps (some a) y n = record { run = λ w. (Steady-Order l f).same w }

  pub or_throw-Keeps : {A : Type 0} (x : Option A) (what : Bytes) → Keeps (or_throw x what)
  or_throw-Keeps none what = record { run = λ w. (Steady-Order l f).same w }
  or_throw-Keeps (some a) what = record { run = λ w. (Steady-Order l f).same w }

  pub raise_if-Keeps : (x : Option Bytes) → Keeps (raise_if x)
  raise_if-Keeps none = record { run = λ w. (Steady-Order l f).same w }
  raise_if-Keeps (some what) = record { run = λ w. (Steady-Order l f).same w }

  pub set_connection-Keeps : (c : ℕ) (x : Connection) → Keeps (set_connection c x)
  set_connection-Keeps c x = record {
    run = λ w. Safe-Unseen l f w (set_connection c x w) (refl, refl, refl, refl, refl);
  }

  -- A change of the kernel that leaves the map of the feeders.
  pub set_kernel-Keeps :
      (change : Kernel → Kernel)
      → ((k : Kernel) → (change k).feeders ≡ k.feeders)
      → Keeps (set_kernel change)
  set_kernel-Keeps change same = record {
    run = λ w. Safe-Unseen l f w (set_kernel change w) (same w.kernel, refl, refl, refl, refl);
  }

  -- A change of a feeder that leaves its label.
  pub set_feeder-Keeps :
      (g : ℕ) (change : Feeder → Feeder)
      → ((x : Feeder) → (change x).label ≡ x.label)
      → Keeps (do x ← feeder g; set_feeder g (some (change x)))
  set_feeder-Keeps g change same = record {
    run = λ w.
        Safe-Unseen l f w ((do x ← feeder g; set_feeder g (some (change x))) w)
          (elim (Option-cases (w.heap.feeder_at g)) [
            | inl e ↦ ground (arith, e)
            | inr (x, e) ↦ ground (arith, e, same x)
          ]);
  }

  lock-Safe : (m : Mutex) → Safe l f (lock m)
  unfolding lock
  lock-Safe lua_mutex w = Safe-Unseen l f w (lock lua_mutex w) (ground arith)
  lock-Safe conn_mutex w = Safe-Unseen l f w (lock conn_mutex w) (ground arith)
  lock-Safe feeder_mutex w = Safe-Unseen l f w (lock feeder_mutex w) (ground arith)
  lock-Safe (feeder_conn_mutex g) w =
      Safe-Unseen l f w (lock (feeder_conn_mutex g) w) (ground arith)

  unlock-Safe : (m : Mutex) → Safe l f (unlock m)
  unfolding unlock
  unlock-Safe lua_mutex w = Safe-Unseen l f w (unlock lua_mutex w) (ground arith)
  unlock-Safe conn_mutex w = Safe-Unseen l f w (unlock conn_mutex w) (ground arith)
  unlock-Safe feeder_mutex w = Safe-Unseen l f w (unlock feeder_mutex w) (ground arith)
  unlock-Safe (feeder_conn_mutex g) w =
      Safe-Unseen l f w (unlock (feeder_conn_mutex g) w) (ground arith)

  release-Leads :
      {A : Type 0} (m : Mutex) (w : World) (x : Outcome A)
      → Leads (Steady l f) InMap w x
      → Leads (Steady l f) InMap w (release m x)
  unfolding release
  release-Leads m w (ok a v) r =
      andthen InMap (Steady-Order l f) (unlock m v) (λ _ w'. ok a w')
        (weaken InMap (Steady-Order l f) (unlock m v) r (unlock-Safe m v))
        (λ _ u s. (Steady-Order l f).same u)
  release-Leads m w (throws e v) r =
      andthen InMap (Steady-Order l f) (unlock m v) (λ _ w'. throws e w')
        (weaken InMap (Steady-Order l f) (unlock m v) r (unlock-Safe m v))
        (λ _ u s. (Steady-Order l f).same u)
  release-Leads m w (dies x) r = r

  pub scoped-Keeps : {A : Type 0} (m : Mutex) {body : M A} → Keeps body → Keeps (scoped m body)
  unfolding scoped
  scoped-Keeps m {body} h = record {
    run = λ w.
        andthen InMap (Steady-Order l f) (lock m w) (λ _ u. release m (body u)) (lock-Safe m w)
          (λ _ u s. release-Leads m u (body u) (h.run u));
  }
