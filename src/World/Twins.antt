-- ===== src/World/Twins.antt =====
-- Two calls that do the same from every state whose engine satisfies `P`, and leave such an engine.
use grind.Prelude.{ℕ, ◌≡◌, refl, Option, none, some, List, [], ◌∷◌, Bytes, arith}
use grind.Lua.{Lua}
use grind.World.{Connection, Feeder, Kernel, Engine, World}
use grind.World.Monad.{
  Outcome, ok, throws, dies, M, ◌>>=◌, pure, gets, for_each, os, raise_if, connection, feeder,
  set_connection, set_feeder, set_kernel,
}
use grind.World.Mutex.{feeder_conn_mutex, lock, unlock, release, scoped}

module _ ⦃lua : Lua⦄ where
  abbrev pub Left : {A : Type 0} → (Engine → Type 0) → Outcome A → Type 0
  Left P (ok a v) = P (v.engine)
  Left P (throws what v) = P (v.engine)
  Left P (dies f) = Unit {0}

  module _ (P : Engine → Type 0) where
    pub record Twins {A : Type 0} (m n : M A) : Type 0 where
      pub run : (w : World) → P w.engine → (m w ≡ n w) × Left P (m w)

    -- The rest of a call, on every outcome of the first part.
    Left-bind :
        {A B : Type 0} (x y : Outcome A) (f g : A → M B)
        → x ≡ y
        → Left P x
        → ((a : A) → Twins (f a) (g a))
        → ((elim x [ ok a v ↦ f a v | throws e v ↦ throws e v | dies d ↦ dies d ])
            ≡ (elim y [ ok a v ↦ g a v | throws e v ↦ throws e v | dies d ↦ dies d ]))
          × Left P (elim x [ ok a v ↦ f a v | throws e v ↦ throws e v | dies d ↦ dies d ])
    Left-bind (ok a v) y f g e l k = rw⁻¹ e ((k a).run v l)
    Left-bind (throws what v) y f g e l k = rw⁻¹ e (refl, l)
    Left-bind (dies d) y f g e l k = rw⁻¹ e (refl, tt)

    pub Twins-bind :
        {A B : Type 0} {m n : M A} {f g : A → M B}
        → Twins m n
        → ((a : A) → Twins (f a) (g a))
        → Twins (m >>= f) (n >>= g)
    Twins-bind {m = m} {n = n} {f = f} {g = g} h k = record {
      run = λ w p. Left-bind (m w) (n w) f g (h.run w p).0 (h.run w p).1 k;
    }

    pub Twins-each :
        {A : Type 0} {f g : A → M (Unit {0})} (xs : List A)
        → ((a : A) → Twins (f a) (g a))
        → Twins (for_each f xs) (for_each g xs)
    unfolding for_each
    Twins-each [] k = record { run = λ w p. (refl, p) }
    Twins-each {f = f} {g = g} (x ∷ xs) k = record {
      run = λ w p.
          Left-bind (f x w) (g x w) (λ _. for_each f xs) (λ _. for_each g xs) ((k x).run w p).0
            ((k x).run w p).1 (λ _. Twins-each xs k);
    }

    pub Twins-same : {A : Type 0} {m : M A} → ((w : World) → P w.engine → Left P (m w)) → Twins m m
    Twins-same h = record { run = λ w p. (refl, h w p) }

    pub Twins-pure : {A : Type 0} (a : A) → Twins (pure a) (pure a)
    Twins-pure a = record { run = λ w p. (refl, p) }

    pub Twins-gets : {A : Type 0} (query : World → A) → Twins (gets query) (gets query)
    Twins-gets query = record { run = λ w p. (refl, p) }

    pub Twins-os : {A : Type 0} (f : ℕ → A) → Twins (os f) (os f)
    Twins-os f = record { run = λ w p. (refl, p) }

    pub Twins-raise_if : (problem : Option Bytes) → Twins (raise_if problem) (raise_if problem)
    Twins-raise_if none = record { run = λ w p. (refl, p) }
    Twins-raise_if (some what) = record { run = λ w p. (refl, p) }

    pub Twins-connection : (c : ℕ) → Twins (connection c) (connection c)
    Twins-connection c = Twins-same λ w p. ground (arith, p)

    pub Twins-feeder : (f : ℕ) → Twins (feeder f) (feeder f)
    Twins-feeder f = Twins-same λ w p. ground (arith, p)

    pub Twins-set_connection :
        (c : ℕ) (x : Connection) → Twins (set_connection c x) (set_connection c x)
    Twins-set_connection c x = record { run = λ w p. (refl, p) }

    pub Twins-set_feeder : (f : ℕ) (x : Option Feeder) → Twins (set_feeder f x) (set_feeder f x)
    Twins-set_feeder f x = record { run = λ w p. (refl, p) }

    pub Twins-set_kernel :
        (change : Kernel → Kernel) → Twins (set_kernel change) (set_kernel change)
    Twins-set_kernel change = record { run = λ w p. (refl, p) }

    pub Twins-lock : (f : ℕ) → Twins (lock (feeder_conn_mutex f)) (lock (feeder_conn_mutex f))
    unfolding lock
    Twins-lock f = Twins-same λ w p. ground (arith, p)

    pub Twins-release :
        {A : Type 0} (f : ℕ) (x y : Outcome A)
        → x ≡ y
        → Left P x
        → (release (feeder_conn_mutex f) x ≡ release (feeder_conn_mutex f) y)
          × Left P (release (feeder_conn_mutex f) x)
    unfolding release unlock
    Twins-release f (ok a v) y e l = rw⁻¹ e ground (arith, l)
    Twins-release f (throws what v) y e l = rw⁻¹ e ground (arith, l)
    Twins-release f (dies d) y e l = rw⁻¹ e (refl, tt)

    pub Twins-scoped :
        {A : Type 0} {m n : M A} (f : ℕ)
        → Twins m n
        → Twins (scoped (feeder_conn_mutex f) m) (scoped (feeder_conn_mutex f) n)
    unfolding scoped
    Twins-scoped {m = m} {n = n} f h =
        Twins-bind (Twins-lock f)
          (λ _. record { run = λ w p. Twins-release f (m w) (n w) (h.run w p).0 (h.run w p).1 })

pub ruleset twins_rules = (
  Twins-bind, Twins-pure, Twins-gets, Twins-os, Twins-raise_if, Twins-connection, Twins-feeder,
  Twins-set_connection, Twins-set_feeder, Twins-set_kernel, Twins-scoped,
)
