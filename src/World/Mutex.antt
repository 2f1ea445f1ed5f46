-- ===== src/World/Mutex.antt =====
-- The mutexes: `script_engine::mtx_`, `kernel::conn_mtx_`, `kernel::feeder_mtx_` and
-- `feeder::conn_mtx_`. None of them may be locked twice by one thread.
use grind.Prelude.{ℕ, true, false, some, if◌then◌else◌}
use grind.Lua.{Lua}
use grind.World.Monad.{
  deadlock, Outcome, ok, throws, dies, M, die, ◌>>=◌, ◌>>◌, feeder, set_feeder, set_kernel,
  set_engine,
}

pub data Mutex : Type 0 where
  lua_mutex conn_mutex feeder_mutex : Mutex
  feeder_conn_mutex : ℕ → Mutex

module _ ⦃lua : Lua⦄ where
  unfoldable pub lock : Mutex → M (Unit {0})
  lock lua_mutex =
      λ w. if w.engine.locked then dies deadlock else set_engine (λ e. record e { locked = true }) w
  lock conn_mutex = λ w.
      if w.kernel.conn_locked
      then dies deadlock
      else set_kernel (λ k. record k { conn_locked = true }) w
  lock feeder_mutex = λ w.
      if w.kernel.feeder_locked
      then dies deadlock
      else set_kernel (λ k. record k { feeder_locked = true }) w
  lock (feeder_conn_mutex f) = do
    x ← feeder f
    if x.conn_locked then die deadlock else set_feeder f (some (record x { conn_locked = true }))

  unfoldable pub unlock : Mutex → M (Unit {0})
  unlock lua_mutex = set_engine λ e. record e { locked = false }
  unlock conn_mutex = set_kernel λ k. record k { conn_locked = false }
  unlock feeder_mutex = set_kernel λ k. record k { feeder_locked = false }
  unlock (feeder_conn_mutex f) = do
    x ← feeder f
    set_feeder f (some (record x { conn_locked = false }))

  -- What the destructor of a `scoped_lock` does, however the block is left.
  unfoldable pub release : {A : Type 0} → Mutex → Outcome A → Outcome A
  unfolding unlock
  release m (ok a w) = (do unlock m; (λ w'. ok a w')) w
  release m (throws e w) = (do unlock m; (λ w'. throws e w')) w
  release m (dies x) = dies x

  -- `scoped_lock lock(m); body`.
  unfoldable pub scoped : {A : Type 0} → Mutex → M A → M A
  unfolding lock release
  scoped m body = do lock m; (λ w. release m (body w))
