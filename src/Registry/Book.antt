-- ===== src/Registry/Book.antt =====
-- The registry of feeders as what it promises: a book of ports by label, in which neither the order
-- of the map in src/kernel.cpp nor the addresses of the feeders can be seen.
use grind.Prelude.{
  ℕ, ℤ, int_eq, int_eq_iff, ◌≡◌, ◌≢◌, inl, inr, refl, Bool, Bool-cases, true, false, Option, none,
  some, List, [], ◌∷◌, Bytes, str_eq, str_eq_iff, if◌then◌else◌, arith,
}
use grind.Lua.{Lua}
use grind.World.{Feeder, World}
use grind.World.Monad.{Outcome, ok, throws, dies}
use grind.Registry.{find, erase, ports_differ}
use grind.Registry.Maps.{find-erase-none}

-- The ports that are open, by label.
abbrev pub Book : Type 0
Book = Bytes → Option ℤ

abbrev pub opened : Bytes → ℤ → Book → Book
opened label port b j = if str_eq label j then some port else b j

abbrev pub closed : Bytes → Book → Book
closed label b j = if str_eq label j then none else b j

pub data Operation : Type 0 where
  register : Bytes → ℤ → Operation
  drop : Bytes → Operation
  registered : Bytes → Operation
  available : ℤ → Operation

-- What an operation may answer, and the book after it.
abbrev pub Spec : Operation → Book → Bool → Book → Type 0
Spec (register label port) b true c = (b label ≡ none) × ((j : Bytes) → c j ≡ opened label port b j)
Spec (register label port) b false c = (j : Bytes) → c j ≡ b j
Spec (drop label) b answer c = (answer ≡ true) × ((j : Bytes) → c j ≡ closed label b j)
Spec (registered label) b true c = ((port : ℤ) × (b label ≡ some port)) × ((j : Bytes) → c j ≡ b j)
Spec (registered label) b false c = (b label ≡ none) × ((j : Bytes) → c j ≡ b j)
Spec (available port) b true c = ((j : Bytes) → b j ≢ some port) × ((j : Bytes) → c j ≡ b j)
Spec (available port) b false c = ((j : Bytes) × (b j ≡ some port)) × ((j : Bytes) → c j ≡ b j)

-- Only a label that is there may be dropped.
abbrev pub Allowed : Operation → Book → Type 0
Allowed (drop label) b = (port : ℤ) × (b label ≡ some port)
Allowed op b = Unit {0}

abbrev pub port_of : Option Feeder → Option ℤ
port_of none = none
port_of (some x) = some (x.port)

module _ ⦃lua : Lua⦄ where
  abbrev pub port_at : World → Option ℕ → Option ℤ
  port_at w none = none
  port_at w (some f) = port_of (w.heap.feeder_at f)

  -- The book that a state stands for.
  abbrev pub view : World → Book
  view w label = port_at w (find label w.kernel.feeders)

  -- An outcome that the book allows; it is neither an exception nor a fault.
  abbrev pub Refines : Operation → World → Outcome Bool → Type 0
  Refines op w (ok answer v) = Spec op (view w) answer (view v)
  Refines op w (throws what v) = ⊥
  Refines op w (dies f) = ⊥

  -- The lookups in a part of the map lead to live feeders, and no label stands twice.
  pub record Proper (w : World) (m : List (Bytes × ℕ)) : Type 0 where
    pub live :
        (l : Bytes) (f : ℕ) → find l m ≡ some f → (x : Feeder) × (w.heap.feeder_at f ≡ some x)
    pub unique : (l : Bytes) → find l (erase l m) ≡ none

  Proper-tail :
      {w : World} {k : Bytes} {g : ℕ} {m : List (Bytes × ℕ)}
      → Proper w ((k, g) ∷ m)
      → (find k m ≡ none) × Proper w m
  unfolding find erase
  Proper-tail {w} {k} {g} {m} p =
      let gone : (find k m ≡ none) = ground (arith, p.unique k, str_eq_iff k k) in
      (
        gone,
        record {
          live = λ l f e. p.live l f (ground (arith, e, gone, str_eq_iff k l));
          unique = λ l. ground (arith, p.unique l, gone, str_eq_iff k l, find-erase-none l l m);
        },
      )

  -- What the loop of `is_port_available` finds.
  abbrev pub Probed : ℤ → World → List (Bytes × ℕ) → Outcome Bool → Type 0
  Probed port w m (ok true v) = (v ≡ w) × ((j : Bytes) → port_at w (find j m) ≢ some port)
  Probed port w m (ok false v) = (v ≡ w) × ((j : Bytes) × (port_at w (find j m) ≡ some port))
  Probed port w m (throws what v) = ⊥
  Probed port w m (dies f) = ⊥

  Probed-cons :
      (port : ℤ) (w : World) (k : Bytes) (g : ℕ) (m : List (Bytes × ℕ)) (x : Feeder)
      (y : Outcome Bool)
      → w.heap.feeder_at g ≡ some x
      → find k m ≡ none
      → int_eq x.port port ≡ false
      → Probed port w m y
      → Probed port w ((k, g) ∷ m) y
  unfolding find
  Probed-cons port w k g m x (ok true v) e gone d (same, none_there) = (
    same,
    λ j h. elim (Bool-cases (str_eq k j)) [
      | inl s ↦ ground (arith, h, s, e, d, int_eq_iff x.port port)
      | inr s ↦ none_there j (ground (arith, h, s))
    ],
  )
  Probed-cons port w k g m x (ok false v) e gone d (same, (j, h)) =
      (same, (j, ground (arith, h, gone, str_eq_iff k j)))
  Probed-cons port w k g m x (throws what v) e gone d h = h
  Probed-cons port w k g m x (dies f) e gone d h = h

  ports_differ-nil : (port : ℤ) (w : World) → Probed port w [] (ports_differ port [] w)
  unfolding ports_differ find
  ports_differ-nil port w = (refl, λ j e. ground arith)

  found :
      (port : ℤ) (w : World) (k : Bytes) (g : ℕ) (m : List (Bytes × ℕ)) (x : Feeder)
      → w.heap.feeder_at g ≡ some x
      → int_eq x.port port ≡ true
      → ports_differ port ((k, g) ∷ m) w ≡ ok false w
  unfolding ports_differ
  found port w k g m x e b = ground (arith, e, b)

  -- A feeder on another port is passed over.
  step :
      (port : ℤ) (w : World) (k : Bytes) (g : ℕ) (m : List (Bytes × ℕ)) (x : Feeder)
      → w.heap.feeder_at g ≡ some x
      → int_eq x.port port ≡ false
      → ports_differ port ((k, g) ∷ m) w ≡ ports_differ port m w
  unfolding ports_differ
  step port w k g m x e b = ground (arith, e, b)

  pub ports_differ-Probed :
      (port : ℤ) (w : World) (m : List (Bytes × ℕ))
      → Proper w m
      → Probed port w m (ports_differ port m w)
  unfolding find
  ports_differ-Probed port w [] p = ports_differ-nil port w
  ports_differ-Probed port w ((k, g) ∷ m) p =
      let (gone, rest) = Proper-tail p in
      let (x, e) = p.live k g (ground (arith, str_eq_iff k k)) in
      elim (Bool-cases (int_eq x.port port)) [
        | inl b ↦
            rw (found port w k g m x e b)
              (refl, (k, ground (arith, e, b, str_eq_iff k k, int_eq_iff x.port port)))
        | inr b ↦ rw (step port w k g m x e b) (
            Probed-cons port w k g m x (ports_differ port m w) e gone b
              (ports_differ-Probed port w m rest))
      ]
