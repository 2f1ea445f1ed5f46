-- ===== src/World/Monad.antt =====
-- Calls that change the state, throw, or die: the control flow of the C++ code.
use grind.Prelude.{ℕ, ◌+◌, ◌≡◌, Option, none, some, List, [], ◌∷◌, ◌++◌, Bytes}
use grind.Lua.{Lua}
use grind.World.{Connection, Feeder, Kernel, Pending, Engine, World, update}

-- Behaviour that C++ leaves undefined, or a wait that never ends.
pub data Fault : Type 0 where
  -- A Lua function is called with the null pointer for its state.
  null_lua : Fault
  -- A mutex is locked by the thread that holds it.
  deadlock : Fault
  -- An object is used that was deleted or never made.
  dangling : Fault
  -- The null pointer is used as an object or a text.
  null_pointer : Fault
  -- An object is deleted that `new` has not made.
  bad_delete : Fault
  -- The end iterator of a map is read.
  end_iterator : Fault
  -- An address is read as an object of another type.
  bad_cast : Fault
  -- An assertion does not hold.
  assertion : Fault
  out_of_fuel : Fault

module _ ⦃lua : Lua⦄ where
  pub data Outcome {ℓ} (A : Type ℓ) : Type ℓ where
    ok : A → World → Outcome A
    throws : Bytes → World → Outcome A
    dies : Fault → Outcome A

  abbrev pub M : Type 0 → Type 0
  M A = World → Outcome A

  abbrev pub pure : {A : Type 0} → A → M A
  pure a w = ok a w

  abbrev pub throw : {A : Type 0} → Bytes → M A
  throw what w = throws what w

  abbrev pub die : {A : Type 0} → Fault → M A
  die f w = dies f

  infixl 5 ◌>>=◌ ◌>>◌
  abbrev pub ◌>>=◌ : {A B : Type 0} → M A → (A → M B) → M B
  ◌>>=◌ m f w = elim (m w) [ ok a w' ↦ f a w' | throws e w' ↦ throws e w' | dies x ↦ dies x ]

  abbrev pub ◌>>◌ : {B : Type 0} → M (Unit {0}) → M B → M B
  m >> k = m >>= λ _. k

  abbrev pub gets : {A : Type 0} → (World → A) → M A
  gets f w = ok (f w) w

  abbrev pub modify : (World → World) → M (Unit {0})
  modify f w = ok tt (f w)

  -- `try { m } catch (std::exception& e) { handler(e.what()) }`.
  abbrev pub try_catch : {A : Type 0} → M A → (Bytes → M A) → M A
  try_catch m handler w = elim (m w) [
    | ok a w' ↦ ok a w'
    | throws e w' ↦ handler e w'
    | dies x ↦ dies x
  ]

  unfoldable pub for_each : {A : Type 0} → (A → M (Unit {0})) → List A → M (Unit {0})
  for_each f [] w = ok tt w
  for_each f (a ∷ rest) w = elim (f a w) [
    | ok _ w' ↦ for_each f rest w'
    | throws e w' ↦ throws e w'
    | dies x ↦ dies x
  ]

  -- A system call.
  abbrev pub os : {A : Type 0} → (ℕ → A) → M A
  os call w = ok (call w.io.now) (record w { io = record (w.io) { now = w.io.now + 1 } })

  -- `strand_.post`, or the start of an asynchronous operation.
  abbrev pub post : Pending → M (Unit {0})
  post p = modify λ w. record w { io = record (w.io) { pending = w.io.pending ++ p ∷ [] } }

  -- A pointer is read.
  abbrev pub feeder : ℕ → M Feeder
  feeder f w = elim (w.heap.feeder_at f) [ none ↦ dies dangling | some x ↦ ok x w ]

  abbrev pub connection : ℕ → M Connection
  connection c w = elim (w.heap.connection_at c) [ none ↦ dies dangling | some x ↦ ok x w ]

  abbrev pub set_feeder : ℕ → Option Feeder → M (Unit {0})
  set_feeder f x =
      modify λ w. record w { heap = record (w.heap) { feeder_at = update (w.heap.feeder_at) f x } }

  abbrev pub set_connection : ℕ → Connection → M (Unit {0})
  set_connection c x = modify λ w. record w {
    heap = record (w.heap) { connection_at = update (w.heap.connection_at) c (some x) };
  }

  abbrev pub set_kernel : (Kernel → Kernel) → M (Unit {0})
  set_kernel f = modify λ w. record w { kernel = f (w.kernel) }

  abbrev pub set_engine : (Engine → Engine) → M (Unit {0})
  set_engine f = modify λ w. record w { engine = f (w.engine) }

  -- The end of a search that must not fail, or one that throws.
  abbrev pub or_die : {A : Type 0} → Option A → Fault → M A
  or_die none f w = dies f
  or_die (some a) f w = ok a w

  abbrev pub or_throw : {A : Type 0} → Option A → Bytes → M A
  or_throw none what w = throws what w
  or_throw (some a) what w = ok a w

  -- The exception of a system call, if there is one.
  abbrev pub raise_if : Option Bytes → M (Unit {0})
  raise_if none w = ok tt w
  raise_if (some what) w = throws what w

  -- A property of what follows a call that returned.
  pub carry :
      {A B : Type 0} (P : Outcome B → Type 0) {x : Outcome A} (f : A → M B) {a : A} {v : World}
      → x ≡ ok a v
      → P (f a v)
      → P (elim x [ ok a v ↦ f a v | throws e v ↦ throws e v | dies y ↦ dies y ])
  carry P f e p = rw e p
