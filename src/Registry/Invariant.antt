-- ===== src/Registry/Invariant.antt =====
-- An invariant of the feeders' map in src/kernel.cpp and the handlers that wait for feeders, stated
-- at one label and one address.
use grind.Prelude.{
  ℕ, ◌+◌, ◌≤◌, ◌<◌, ◌≡◌, ◌≢◌, refl, Option, none, some, List, [], ◌∷◌, ◌++◌, Bytes, str_eq, ◌==◌,
  if◌then◌else◌, arith,
}
use grind.Lua.{Lua}
use grind.World.{Feeder, Pending, feeder_accept, dropping, World}
use grind.World.Monad.{Fault, end_iterator}
use grind.World.Frame.{Order}
use grind.Registry.{find, erase}

-- Whether a handler waits for a connection to the feeder `f`.
abbrev pub one_accept : ℕ → Pending → ℕ
one_accept f (feeder_accept g) = if g == f then 1 else 0
one_accept f p = 0

-- Whether a handler will drop the feeder of the label `l`.
abbrev pub one_drop : Bytes → Pending → ℕ
one_drop l (dropping k) = if str_eq k l then 1 else 0
one_drop l p = 0

unfoldable pub accepts : ℕ → List Pending → ℕ
accepts f [] = 0
accepts f (p ∷ ps) = one_accept f p + accepts f ps

unfoldable pub drops : Bytes → List Pending → ℕ
drops l [] = 0
drops l (p ∷ ps) = one_drop l p + drops l ps

pub accepts-append :
    (f : ℕ) (ps : List Pending) (p : Pending)
    → accepts f (ps ++ p ∷ []) ≡ accepts f ps + one_accept f p
unfolding accepts
accepts-append f [] p = omega arith
accepts-append f (q ∷ ps) p = omega (arith, accepts-append f ps p)

pub drops-append :
    (l : Bytes) (ps : List Pending) (p : Pending)
    → drops l (ps ++ p ∷ []) ≡ drops l ps + one_drop l p
unfolding drops
drops-append l [] p = omega arith
drops-append l (q ∷ ps) p = omega (arith, drops-append l ps p)

abbrev pub label_of : Option Feeder → Option Bytes
label_of none = none
label_of (some x) = some (x.label)

-- A feeder that waits for a connection is the one that its label leads to.
abbrev pub IsHome : Option Bytes → ℕ → (waiting : ℕ) → List (Bytes × ℕ) → Type 0
IsHome none f n m = n ≡ 0
IsHome (some k) f n m = 0 < n → find k m ≡ some f

pub IsHome-less :
    (o : Option Bytes) (f n k : ℕ) (m : List (Bytes × ℕ)) → n ≤ k → IsHome o f k m → IsHome o f n m
IsHome-less none f n k m h e = omega arith
IsHome-less (some j) f n k m h e = λ p. e (omega arith)

pub IsHome-none :
    (o : Option Bytes) (f n : ℕ) (m : List (Bytes × ℕ)) → o ≡ none → IsHome o f n m → n ≡ 0
IsHome-none none f n m e h = h
IsHome-none (some k) f n m e h = absurd (ground arith)

pub IsHome-some :
    (o : Option Bytes) (f n : ℕ) (m : List (Bytes × ℕ)) (k : Bytes)
    → o ≡ some k
    → IsHome o f n m
    → 0 < n
    → find k m ≡ some f
IsHome-some none f n m k e h p = absurd (ground arith)
IsHome-some (some j) f n m k e h p = ground (arith, e, h p)

pub IsHome-of_found :
    (o : Option Bytes) (f n : ℕ) (m : List (Bytes × ℕ)) (k : Bytes)
    → o ≡ some k
    → find k m ≡ some f
    → IsHome o f n m
IsHome-of_found none f n m k e h = absurd (ground arith)
IsHome-of_found (some j) f n m k e h = λ p. ground (arith, e, h)

module _ ⦃lua : Lua⦄ where
  abbrev pub label_at : ℕ → World → Option Bytes
  label_at f w = label_of (w.heap.feeder_at f)

  pub record Sound (l : Bytes) (f : ℕ) (w : World) : Type 0 where
    -- A label leads to a live feeder with that label, for which at most one handler waits: one for
    -- its next connection, or one that drops it.
    pub live : find l w.kernel.feeders ≡ some f → label_at f w ≡ some l
    pub single :
        find l w.kernel.feeders ≡ some f → accepts f w.io.pending + drops l w.io.pending ≤ 1
    -- Only a label that is there is to be dropped.
    pub known : find l w.kernel.feeders ≡ none → drops l w.io.pending ≡ 0
    pub home : IsHome (label_at f w) f (accepts f w.io.pending) w.kernel.feeders
    pub unique : find l (erase l w.kernel.feeders) ≡ none
    -- No feeder stands beyond the addresses given out.
    pub fresh : w.heap.next_feeder ≤ f → label_at f w ≡ none

  -- What every step that neither waits for the feeder `f` again nor drops the label `l` keeps.
  pub record Steady (l : Bytes) (f : ℕ) (w v : World) : Type 0 where
    pub grows : w.heap.next_feeder ≤ v.heap.next_feeder
    pub labels : f < w.heap.next_feeder → label_at f v ≡ label_at f w
    pub waits : f < w.heap.next_feeder → accepts f v.io.pending ≡ accepts f w.io.pending
    pub leaves : drops l v.io.pending ≡ drops l w.io.pending
    pub stays : find l w.kernel.feeders ≡ some f → find l v.kernel.feeders ≡ some f
    pub sound : Sound l f w → Sound l f v

  pub Steady-Order : (l : Bytes) (f : ℕ) → Order (Steady l f)
  Steady-Order l f = record {
    same = λ w. record {
      grows = omega arith;
      labels = λ h. refl;
      waits = λ h. refl;
      leaves = refl;
      stays = λ e. e;
      sound = λ s. s;
    };
    trans = λ r s. record {
      grows = omega (arith, r.grows, s.grows);
      labels = λ h. ground (arith, r.labels, s.labels, r.grows);
      waits = λ h. ground (arith, r.waits, s.waits, r.grows);
      leaves = ground (arith, r.leaves, s.leaves);
      stays = λ e. s.stays (r.stays e);
      sound = λ x. s.sound (r.sound x);
    };
  }

  -- The registry as it is seen from one label and one address has not changed.
  abbrev pub Unseen : Bytes → ℕ → World → World → Type 0
  Unseen l f w v =
      (v.kernel.feeders ≡ w.kernel.feeders)
      × (v.heap.next_feeder ≡ w.heap.next_feeder)
      × (label_at f v ≡ label_at f w)
      × (accepts f v.io.pending ≡ accepts f w.io.pending)
      × (drops l v.io.pending ≡ drops l w.io.pending)

  pub Unseen-Steady : (l : Bytes) (f : ℕ) (w v : World) → Unseen l f w v → Steady l f w v
  Unseen-Steady l f w v u = record {
    grows = omega arith;
    labels = λ h. u.2;
    waits = λ h. u.3;
    leaves = u.4;
    stays = λ e. rw u.0 e;
    sound = λ s. record {
      live = ground (arith, s.live);
      single = ground (arith, s.single);
      known = ground (arith, s.known);
      home = rw (u.2, u.3, u.0) s.home;
      unique = rw u.0 s.unique;
      fresh = ground (arith, s.fresh);
    };
  }

  -- Not the fault of reading past the map.
  abbrev pub InMap : Fault → Type 0
  InMap x = x ≢ end_iterator
