-- ===== src/Registry/Steady.antt =====
-- `kernel::register_feeder` and the queries of the registry keep its invariant.
use grind.Prelude.{
  ℕ, ℤ, suc, ◌+◌, ◌≤◌, ◌≡◌, refl, inl, inr, Bool, true, false, Option, Option-cases, none, some,
  List, [], ◌∷◌, Bytes, str_eq_iff, ◌==◌, if◌then◌else◌, arith,
}
use grind.Lua.{Lua}
use grind.Host.{Host}
use grind.World.{feeder_accept, World}
use grind.World.Monad.{Outcome, M}
use grind.World.Frame.{Leads, Respects, mono}
use grind.Registry.{
  find, insert, is_feeder_registered, is_port_available, ports_differ, register_feeder,
}
use grind.Registry.Maps.{find-insert, find-erase-insert}
use grind.Registry.Registering.{attempt}
use grind.Registry.Invariant.{
  Steady, Unseen, Unseen-Steady, InMap, IsHome, IsHome-none, accepts, drops, accepts-append,
  drops-append, label_at,
}

module _ ⦃lua : Lua⦄ (l : Bytes) (f : ℕ) where
  -- A call that keeps the registry steady.
  abbrev pub Safe : {A : Type 0} → M A → Type 0
  Safe m = Respects (Steady l f) InMap m

  pub Safe-Unseen :
      {A : Type 0} (w : World) (x : Outcome A)
      → Leads (Unseen l f) InMap w x
      → Leads (Steady l f) InMap w x
  Safe-Unseen w x = mono (Unseen l f) (Steady l f) InMap w x (Unseen-Steady l f w)

  pub is_feeder_registered-Safe : (k : Bytes) → Safe (is_feeder_registered k)
  unfolding is_feeder_registered
  is_feeder_registered-Safe k w = Safe-Unseen w _ (ground arith)

  ports_differ-Unseen :
      (p : ℤ) (m : List (Bytes × ℕ)) → Respects (Unseen l f) InMap (ports_differ p m)
  unfolding ports_differ
  ports_differ-Unseen p [] w = ground arith
  ports_differ-Unseen p ((k, g) ∷ m) w = ground (arith, ports_differ-Unseen p m w)

  pub is_port_available-Safe : (p : ℤ) → Safe (is_port_available p)
  unfolding is_port_available
  is_port_available-Safe p w = Safe-Unseen w _ (ports_differ-Unseen p w.kernel.feeders w)

  -- A new feeder that nothing waits for.
  IsHome-new :
      (k : Bytes) (o v : Option Bytes) (n : ℕ) (m : List (Bytes × ℕ))
      → o ≡ none
      → v ≡ some k
      → IsHome o f n m
      → IsHome v f n m
  IsHome-new k none none n m e q h = h
  IsHome-new k none (some j) n m e q h = λ p. ground (arith, h)
  IsHome-new k (some j) v n m e q h = absurd (ground arith)

  IsHome-refused :
      (k : Bytes) (b : Bool) (o v : Option Bytes) (n : ℕ) (m : List (Bytes × ℕ))
      → (b ≡ true → o ≡ none)
      → v ≡ (if b then some k else o)
      → IsHome o f n m
      → IsHome v f n m
  IsHome-refused k true o v n m e q h = IsHome-new k o v n m (e refl) q h
  IsHome-refused k false o v n m e q h = rw q h

  IsHome-entered :
      (k : Bytes) (g : ℕ) (o v : Option Bytes) (n : ℕ) (m : List (Bytes × ℕ))
      → find k m ≡ none
      → (g ≡ f → o ≡ none)
      → v ≡ (if g == f then some k else o)
      → IsHome o f n m
      → IsHome v f (n + (if g == f then 1 else 0)) (insert k g m)
  IsHome-entered k g none none n m e q r h = ground (arith, h)
  IsHome-entered k g none (some j) n m e q r h =
      λ p. ground (arith, find-insert k j g m e, str_eq_iff k j, h)
  IsHome-entered k g (some i) none n m e q r h = absurd (ground arith)
  IsHome-entered k g (some i) (some j) n m e q r h =
      λ p. ground (arith, find-insert k j g m e, str_eq_iff k j, h)

  -- A feeder with the label `k` has been made, and could not listen.
  abbrev Refused : Bytes → World → World → Type 0
  Refused k w v =
      (v.kernel.feeders ≡ w.kernel.feeders)
      × (v.heap.next_feeder ≡ suc (w.heap.next_feeder))
      × (label_at f v ≡ (if w.heap.next_feeder == f then some k else label_at f w))
      × (accepts f v.io.pending ≡ accepts f w.io.pending)
      × (drops l v.io.pending ≡ drops l w.io.pending)

  Refused-Steady : (k : Bytes) (w v : World) → Refused k w v → Steady l f w v
  Refused-Steady k w v r = record {
    grows = omega arith;
    labels = λ h. ground arith;
    waits = λ h. r.3;
    leaves = r.4;
    stays = λ e. rw r.0 e;
    sound = λ s. record {
      live = ground (arith, s.live, s.fresh);
      single = ground (arith, s.single);
      known = ground (arith, s.known);
      home =
          rw (r.0, r.3)
            (IsHome-refused k (w.heap.next_feeder == f) (label_at f w) (label_at f v) _ _
              (λ b. ground (arith, s.fresh)) r.2 s.home);
      unique = rw r.0 s.unique;
      fresh = ground (arith, s.fresh);
    };
  }

  -- The feeder has been entered under the label, and waits for its first connection.
  abbrev Entered : Bytes → World → World → Type 0
  Entered k w v =
      (v.kernel.feeders ≡ insert k (w.heap.next_feeder) w.kernel.feeders)
      × (v.heap.next_feeder ≡ suc (w.heap.next_feeder))
      × (label_at f v ≡ (if w.heap.next_feeder == f then some k else label_at f w))
      × (accepts f v.io.pending
          ≡ accepts f w.io.pending + (if w.heap.next_feeder == f then 1 else 0))
      × (drops l v.io.pending ≡ drops l w.io.pending)

  Entered-Steady :
      (k : Bytes) (w v : World) → find k w.kernel.feeders ≡ none → Entered k w v → Steady l f w v
  Entered-Steady k w v e r =
      let n = w.heap.next_feeder in
      let m = w.kernel.feeders in
      let at_l = find-insert k l n m e in
      record {
        grows = omega arith;
        labels = λ h. ground arith;
        waits = λ h. ground arith;
        leaves = r.4;
        stays = λ q. ground (arith, at_l, str_eq_iff k l);
        sound = λ s. record {
          live = ground (arith, at_l, str_eq_iff k l, s.live, s.fresh);
          single = λ q.
              let idle : (w.heap.next_feeder ≤ f → accepts f w.io.pending ≡ 0) =
                λ z. IsHome-none (label_at f w) f _ w.kernel.feeders (s.fresh z) s.home in
              ground (arith, q, at_l, str_eq_iff k l, s.single, s.known, s.live, s.fresh, idle);
          known = ground (arith, at_l, s.known);
          home =
              rw (r.0, r.3)
                (IsHome-entered k n (label_at f w) (label_at f v) _ m e
                  (λ b. ground (arith, s.fresh)) r.2 s.home);
          unique = rw r.0 (find-erase-insert k l n m e s.unique);
          fresh = ground (arith, s.fresh);
        };
      }

  module _ ⦃host : Host⦄ where
    pub register_feeder-Safe : (k : Bytes) (p : ℤ) → Safe (register_feeder k p)
    unfolding register_feeder
    register_feeder-Safe k p w = elim (Option-cases (find k w.kernel.feeders)) [
      | inr (g, e) ↦ Safe-Unseen w _ (ground (arith, e))
      | inl e ↦ elim (Option-cases (attempt p w)) [
        | inr (what, a) ↦
            mono (Refused k) (Steady l f) InMap w _ (Refused-Steady k w) (ground (arith, e, a))
        | inl a ↦
            mono (Entered k) (Steady l f) InMap w _ (λ v. Entered-Steady k w v e)
              (ground (
                arith,
                e,
                a,
                accepts-append f w.io.pending (feeder_accept w.heap.next_feeder),
                drops-append l w.io.pending (feeder_accept w.heap.next_feeder),
              ))
      ]
    ]
