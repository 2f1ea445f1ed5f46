-- ===== src/Kernel/Steady.antt =====
-- What the kernel does while it runs keeps the registry steady.
use grind.Prelude.{
  ℕ, zero, suc, ◌++◌, refl, if◌then◌else◌, not, arith, Bool, true, false, Bytes, [], ◌∷◌, Option,
  none, some,
}
use grind.Lua.{Lua}
use grind.Host.{Host}
use grind.World.{kernel_close, watcher_connection, ConnectionType, watcher_accept, World}
use grind.World.Monad.{Outcome, ok, dangling, M, modify}
use grind.World.Frame.{Leads}
use grind.World.Mutex.{conn_mutex}
use grind.Registry.Invariant.{Steady, Steady-Order, InMap}
use grind.Registry.Steady.{Safe-Unseen}
use grind.Registry.Steps.{
  Keeps, Keeps-bind, Keeps-gets, Keeps-if, Keeps-pure, Keeps-throw, Keeps-each, post-Keeps,
  or_die-Keeps, set_kernel-Keeps, scoped-Keeps,
}
use grind.Objects.{new_connection}
use grind.Connections.{remove}
use grind.Connections.Steady.{
  assign_close_handler-Keeps, destroy-Keeps, start-Keeps, stop-Keeps, stop_feeder-Keeps,
}
use grind.Engine
use grind.Engine.Steady
use grind.Kernel.{
  closes, forget, accept_watcher, do_close, stop_by, nested_stop, stop, on_watcher_accepted,
}

module _ ⦃lua : Lua⦄ (l : Bytes) (f : ℕ) where
  new_connection-Keeps : (t : ConnectionType) (g : Option ℕ) → Keeps l f (new_connection t g)
  unfolding new_connection
  new_connection-Keeps t g = record {
    run = λ w. Safe-Unseen l f w (new_connection t g w) (refl, refl, refl, refl, refl);
  }

  pub accept_watcher-Keeps : Keeps l f accept_watcher
  unfolding accept_watcher
  accept_watcher-Keeps = Keeps-bind l f (new_connection-Keeps watcher_connection none) (λ c.
      Keeps-bind l f (set_kernel-Keeps l f (λ k. record k { new_watcher = some c }) (λ k. refl))
        (λ _.
          Keeps-bind l f (assign_close_handler-Keeps l f c (some kernel_close))
            (λ _. post-Keeps l f watcher_accept refl refl)))

  forget-Keeps : (c : ℕ) → Keeps l f (forget c)
  unfolding forget
  forget-Keeps c =
      scoped-Keeps l f conn_mutex
        (set_kernel-Keeps l f (λ k. record k { connections = remove c k.connections }) (λ k. refl))

  pub do_close-Keeps : (c : ℕ) → Keeps l f (do_close c)
  unfolding do_close
  do_close-Keeps c = Keeps-bind l f (forget-Keeps c) (λ _.
      Keeps-bind l f (Keeps-gets l f (λ w. w.io.pending)) (λ pending.
        Keeps-if l f (closes c pending) (Keeps-pure l f tt) (destroy-Keeps l f (c ∷ []))))

  halt-Keeps : Keeps l f (modify λ w. record w { io = record (w.io) { stopped = true } })
  halt-Keeps = record {
    run = λ w.
        Safe-Unseen l f w (modify (λ w. record w { io = record (w.io) { stopped = true } }) w)
          (refl, refl, refl, refl, refl);
  }

  module _ ⦃host : Host⦄ where
    stop_cases :
        (w : World) (x : Outcome (Unit {0})) (b : Bool)
        → Leads (Steady l f) InMap w x
        → Leads (Steady l f) InMap w (if b then ok tt w else x)
    stop_cases w x true h = (Steady-Order l f).same w
    stop_cases w x false h = h

    stop_by-Keeps :
        {kernel_stop : M (Unit {0})} → Keeps l f kernel_stop → Keeps l f (stop_by kernel_stop)
    unfolding stop_by
    stop_by-Keeps {kernel_stop} h =
        let body =
          Keeps-bind l f
            (Keeps-bind l f (Keeps-gets l f (λ w. w.kernel.connections))
              (λ conns. Keeps-each l f conns (stop-Keeps l f h)))
            (λ _. Keeps-bind l f (Keeps-gets l f (λ w. w.kernel.feeders)) (λ feeders.
              Keeps-bind l f (Keeps-each l f feeders (λ (k, g). stop_feeder-Keeps l f h g)) (λ _.
                Keeps-bind l f
                  (set_kernel-Keeps l f (λ k. record k { new_watcher = none; connections = [] })
                    (λ k. refl))
                  (λ _. Keeps-bind l f halt-Keeps (λ _.
                    Keeps-bind l f (Engine.Steady.stop-Keeps l f h) (λ _.
                      set_kernel-Keeps l f (λ k. record k { running = false }) (λ k. refl))))))) in
        record { run = λ w. stop_cases w _ (not w.kernel.running) (body.run w) }

    nested_stop-Keeps : (n : ℕ) → Keeps l f (nested_stop n)
    unfolding nested_stop
    nested_stop-Keeps zero = record { run = λ w. ground arith }
    nested_stop-Keeps (suc n) = stop_by-Keeps (nested_stop-Keeps n)

    pub kernel_stop-Keeps : Keeps l f stop
    unfolding stop
    kernel_stop-Keeps = nested_stop-Keeps 2

    pub on_watcher_accepted-Keeps : (failed : Bool) → Keeps l f (on_watcher_accepted failed)
    unfolding on_watcher_accepted
    on_watcher_accepted-Keeps true = Keeps-throw l f _
    on_watcher_accepted-Keeps false =
        Keeps-bind l f (Keeps-gets l f (λ w. w.kernel.new_watcher)) (λ next.
          Keeps-bind l f (or_die-Keeps l f next dangling (ground arith)) (λ c.
            Keeps-bind l f
              (set_kernel-Keeps l f (λ k. record k { connections = k.connections ++ c ∷ [] })
                (λ k. refl))
              (λ _.
                Keeps-bind l f (start-Keeps l f kernel_stop-Keeps c) (λ _. accept_watcher-Keeps))))
