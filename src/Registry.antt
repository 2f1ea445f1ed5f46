-- ===== src/Registry.antt =====
-- The feeders of the kernel: `feeder::listen`, `feeder::accept`, `kernel::register_feeder` and
-- what else src/kernel.cpp does with the map `feeders_`. The map is an association list in the
-- order of registration; the source's is in the order of the labels, which shows only in the order
-- in which feeders are stopped.
pub mod Untouched
pub mod Book
pub mod Closing
pub mod Refinement
pub mod Maps
pub mod Registering
pub mod Invariant
pub mod Steady
pub mod Steps
use grind.Prelude.{
  ℕ, ℤ, int_eq, zero, suc, ◌+◌, ◌≡◌, Bool, true, false, Option, none, some, List, [], ◌∷◌, ◌++◌,
  Bytes, lit, str_eq, ◌==◌, if◌then◌else◌, not,
}
use grind.Utility.{int_to_decimal}
use grind.Lua.{Lua}
use grind.Host.{Host}
use grind.World.{
  Connection, feeder_connection, feeder_close, Feeder, World, feeder_accept, dropping, update,
}
use grind.World.Monad.{
  Fault, end_iterator, dangling, Outcome, ok, throws, dies, M, pure, or_die, raise_if, ◌>>=◌, ◌>>◌,
  gets, modify, try_catch, os, post, feeder, set_feeder, set_kernel,
}
use grind.World.Mutex.{feeder_mutex, lock, unlock}
use grind.Objects.{new_connection, new_feeder, assign_close_handler}

-- `feeders_.find(label)`.
unfoldable pub find : Bytes → List (Bytes × ℕ) → Option ℕ
find label [] = none
find label ((l, f) ∷ m) = if str_eq l label then some f else find label m

-- `feeders_.insert(std::make_pair(label, f))`: a key that is there keeps its value.
unfoldable pub insert : Bytes → ℕ → List (Bytes × ℕ) → List (Bytes × ℕ)
insert label f [] = (label, f) ∷ []
insert label f ((l, g) ∷ m) = if str_eq l label then (l, g) ∷ m else (l, g) ∷ insert label f m

-- `feeders_.erase(label)`.
unfoldable pub erase : Bytes → List (Bytes × ℕ) → List (Bytes × ℕ)
erase label [] = []
erase label ((l, g) ∷ m) = if str_eq l label then m else (l, g) ∷ erase label m

unfoldable pub holds : ℕ → List ℕ → Bool
holds c [] = false
holds c (d ∷ ds) = let rest = holds c ds in if d == c then true else rest

-- Whether a feeder holds a connection, for the next accept or in its list.
unfoldable pub owned : ℕ → Feeder → Bool
unfolding holds
owned c x = elim (x.conn) [ none ↦ holds c x.connections | some d ↦ holds c (d ∷ x.connections) ]

module _ ⦃lua : Lua⦄ where
  -- `feeder::accept`.
  unfoldable pub accept : ℕ → M (Unit {0})
  unfolding new_connection assign_close_handler
  accept f = do
    c ← new_connection feeder_connection (some f)
    x ← feeder f
    set_feeder f (some (record x { conn = some c }))
    assign_close_handler c (some (feeder_close f))
    post (feeder_accept f)

  -- `kernel::is_feeder_registered`.
  unfoldable pub is_feeder_registered : Bytes → M Bool
  unfolding lock unlock find
  is_feeder_registered label = do
    lock feeder_mutex
    iter ← gets (λ w. find label w.kernel.feeders)
    unlock feeder_mutex
    pure (elim iter [ none ↦ false | some f ↦ true ])

  -- The loop of `kernel::is_port_available`.
  unfoldable pub ports_differ : ℤ → List (Bytes × ℕ) → M Bool
  ports_differ port [] w = ok true w
  ports_differ port ((l, f) ∷ m) w =
      let rest = ports_differ port m w in
      elim (feeder f w) [
        | ok x w' ↦ if int_eq x.port port then ok false w else rest
        | throws e w' ↦ throws e w'
        | dies y ↦ dies y
      ]

  unfoldable pub is_port_available : ℤ → M Bool
  unfolding ports_differ
  is_port_available port w = ports_differ port w.kernel.feeders w

  -- `kernel::remove_feeder`, called with the feeder's address.
  unfoldable pub remove_feeder : ℕ → M (Unit {0})
  remove_feeder f = do x ← feeder f; post (dropping x.label)

  -- `delete` of a feeder, whose destructor closes the acceptor. The pointers in it are the only ones
  -- that own its connections, and so these go with it.
  unfoldable pub delete_feeder : ℕ → M (Unit {0})
  unfolding owned
  delete_feeder f = do
    x ← feeder f
    modify λ w. record w {
      heap = record (w.heap) {
        connection_at = λ c. if owned c x then none else w.heap.connection_at c;
        feeder_at = update (w.heap.feeder_at) f none;
      };
    }

  -- `kernel::do_remove_feeder`. The end iterator cannot be read.
  unfoldable pub do_remove_feeder : Bytes → M (Unit {0})
  unfolding lock unlock find erase delete_feeder
  do_remove_feeder label = do
    lock feeder_mutex
    iter ← gets (λ w. find label w.kernel.feeders)
    f ← or_die iter end_iterator
    delete_feeder f
    set_kernel λ k. record k { feeders = erase label k.feeders }
    unlock feeder_mutex

  module _ ⦃host : Host⦄ where
    -- `feeder::listen`. A feeder that cannot listen is never looked at again, so whether its acceptor
    -- has been opened before the failure is not kept.
    unfoldable pub listen : ℕ → M (Unit {0})
    unfolding accept
    listen f = do
      x ← feeder f
      address ← gets (λ w. w.kernel.cfg.feeder_interface)
      problem ← os (λ now. host.listen now address (int_to_decimal x.port))
      raise_if problem
      set_feeder f (some (record x { acceptor_open = true }))
      accept f

    -- `kernel::register_feeder`. The feeder of a failed call is never deleted.
    unfoldable pub register_feeder : Bytes → ℤ → M Bool
    unfolding is_feeder_registered new_feeder listen insert lock unlock
    register_feeder label port = do
      registered ← is_feeder_registered label
      if registered then pure false else do
        f ← new_feeder label port
        listening ← try_catch (do listen f; pure true) (λ what. pure false)
        if not listening then pure false else do
          lock feeder_mutex
          set_kernel λ k. record k { feeders = insert label f k.feeders }
          unlock feeder_mutex
          pure true
