-- ===== src/Program/Lifetime.antt =====
-- The registry of the feeders from the program's first state to the end of its loop.
use grind.Prelude.{ℕ, refl, Bool, true, false, not, if◌then◌else◌, List, Bytes, arith}
use grind.Lua.{Lua}
use grind.Host.{Host}
use grind.World.{World}
use grind.World.Monad.{M, pure, ◌>>◌, try_catch}
use grind.World.Frame.{orelse}
use grind.Registry.{find, erase}
use grind.Registry.Invariant.{Steady-Order, InMap, accepts, drops}
use grind.Registry.Steps.{
  Keeps, Keeps-bind, Keeps-pure, Keeps-gets, set_kernel-Keeps, os-Keeps, raise_if-Keeps,
}
use grind.Engine
use grind.Engine.Starting
use grind.Kernel
use grind.Kernel.Steady.{accept_watcher-Keeps, kernel_stop-Keeps}
use grind.EventLoop.{Event, work}
use grind.EventLoop.Turns.{IsSound, EndsSound, Keeps-EndsSound}
use grind.EventLoop.Loop.{then_EndsSound, work-EndsSound}
use grind.CommandLine.{Options}
use grind.Program.{with_level, serve}

module _ ⦃lua : Lua⦄ ⦃host : Host⦄ where
  pub initial-IsSound : IsSound Kernel.initial
  unfolding Kernel.initial find erase accepts drops
  initial-IsSound l f = record {
    live = λ e. ground (arith, e);
    single = λ e. ground (arith, e);
    known = λ e. refl;
    home = refl;
    unique = refl;
    fresh = λ h. refl;
  }

  catch-Keeps :
      {A : Type 0} (l : Bytes) (f : ℕ) {m : M A} {handler : Bytes → M A}
      → Keeps l f m
      → ((what : Bytes) → Keeps l f (handler what))
      → Keeps l f (try_catch m handler)
  catch-Keeps l f {m} {handler} h k = record {
    run = λ w. orelse InMap (Steady-Order l f) (m w) handler (h.run w) (λ e v r. (k e).run v);
  }

  init-Keeps : (path : Bytes) (l : Bytes) (f : ℕ) → Keeps l f (Kernel.init path)
  unfolding Kernel.init
  init-Keeps path l f =
      Keeps-bind l f
        (set_kernel-Keeps l f (λ k. record k { threshold = k.cfg.log_level }) (λ k. refl))
        (λ _.
          catch-Keeps l f
            (Keeps-bind l f (Engine.Starting.start-Keeps l f (kernel_stop-Keeps l f) path) (λ _.
              Keeps-bind l f (Keeps-gets l f (λ w. w.engine.running)) (λ ready.
                Keeps-bind l f (set_kernel-Keeps l f (λ k. record k { init = ready }) (λ k. refl))
                  (λ _. Keeps-pure l f ready))))
            (λ what. Keeps-pure l f false))

  start-Keeps : (l : Bytes) (f : ℕ) → Keeps l f Kernel.start
  unfolding Kernel.start
  start-Keeps l f =
      Keeps-bind l f (Keeps-gets l f (λ w. w.kernel.cfg.watcher_interface)) (λ address.
        Keeps-bind l f (Keeps-gets l f (λ w. w.kernel.cfg.watcher_port)) (λ port.
          Keeps-bind l f (os-Keeps l f (λ now. host.listen now address port)) (λ problem.
            Keeps-bind l f (raise_if-Keeps l f problem) (λ _.
              Keeps-bind l f (accept_watcher-Keeps l f)
                (λ _. set_kernel-Keeps l f (λ k. record k { running = true }) (λ k. refl))))))

  if_EndsSound :
      {A : Type 0} (b : Bool) (m n : M A) (w : World)
      → EndsSound (m w)
      → EndsSound (n w)
      → EndsSound ((if b then m else n) w)
  if_EndsSound true m n w s h = s
  if_EndsSound false m n w s h = h

  -- From the program's first state, and whatever Lua, the configuration, the system and the events
  -- do, the registry of the feeders is sound when the loop ends, also by an exception: every label
  -- leads to a live feeder of that label, and a feeder that waits for a connection is the one that
  -- its label leads to. The program may die of another fault before, but it never reads past the
  -- end of the map of the feeders, as `do_remove_feeder` would for a label that is not there.
  pub serve-EndsSound :
      (options : Options) (events : List Event) → EndsSound (serve options events Kernel.initial)
  unfolding serve
  serve-EndsSound options events =
      then_EndsSound (with_level options.log_level Kernel.initial) _
        (Keeps-EndsSound (with_level options.log_level) Kernel.initial initial-IsSound
          (λ l f. set_kernel-Keeps l f _ (λ k. refl)))
        (λ _ w level.
          then_EndsSound (Kernel.init options.config_file w) _
            (Keeps-EndsSound (Kernel.init options.config_file) w level
              (init-Keeps options.config_file))
            (λ _ v s.
              if_EndsSound (not v.kernel.init) (pure false)
                (do Kernel.start; work events; pure true) v s
                (then_EndsSound (Kernel.start v) _ (Keeps-EndsSound Kernel.start v s start-Keeps)
                  (λ _ u t.
                    then_EndsSound (work events u) _ (work-EndsSound events u t) (λ _ z r. r)))))
