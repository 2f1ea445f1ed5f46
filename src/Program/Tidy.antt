-- ===== src/Program/Tidy.antt =====
-- The mutexes over the run of the whole program: src/kernel.cpp and src/main.cpp.
use grind.Prelude.{refl, not, true, false, Bytes, List}
use grind.Lua.{Lua}
use grind.Host.{Host}
use grind.World.Monad.{Outcome, ok, throws, dies, M, try_catch}
use grind.World.Tidy.{
  EndsTidy, Free, Free-bind, Free-pure, Free-if, Free-gets, Free-os, Free-raise_if, Free-set_kernel,
}
use grind.Engine.Tidy.Start.{start-Free}
use grind.Kernel
use grind.EventLoop.{Event}
use grind.EventLoop.Tidy.{accept_watcher-Free, work-EndsTidy}
use grind.CommandLine.{Options}
use grind.Program.{serve}

module _ ⦃lua : Lua⦄ where
  caught_EndsTidy :
      {A : Type 0} (x : Outcome A) (handler : Bytes → M A)
      → EndsTidy false x
      → ((what : Bytes) → Free false (handler what))
      → EndsTidy false (elim x [ ok a v ↦ ok a v | throws e v ↦ handler e v | dies y ↦ dies y ])
  caught_EndsTidy (ok a v) handler t h = t
  caught_EndsTidy (throws what v) handler t h = (h what).run v t
  caught_EndsTidy (dies f) handler t h = t

  Free-try_catch :
      {A : Type 0} {m : M A} {handler : Bytes → M A}
      → Free false m
      → ((what : Bytes) → Free false (handler what))
      → Free false (try_catch m handler)
  Free-try_catch {m = m} {handler = handler} h k = record {
    run = λ w t. caught_EndsTidy (m w) handler (h.run w t) k;
  }

  module _ ⦃host : Host⦄ where
    init-Free : (path : Bytes) → Free false (Kernel.init path)
    unfolding Kernel.init
    init-Free path =
        Free-bind false
          (Free-set_kernel false (λ k. record k { threshold = k.cfg.log_level })
            (λ k. (refl, refl)))
          (λ _.
            Free-try_catch
              (Free-bind false (start-Free Kernel.stop path) (λ _.
                Free-bind false (Free-gets false (λ w. w.engine.running)) (λ set_init.
                  Free-bind false
                    (Free-set_kernel false (λ k. record k { init = set_init }) (λ k. (refl, refl)))
                    (λ _. Free-pure false set_init))))
              (λ what. Free-pure false false))

    start_kernel-Free : Free false Kernel.start
    unfolding Kernel.start
    start_kernel-Free =
        Free-bind false (Free-gets false (λ w. w.kernel.cfg.watcher_interface)) (λ address.
          Free-bind false (Free-gets false (λ w. w.kernel.cfg.watcher_port)) (λ port.
            Free-bind false (Free-os false (λ now. host.listen now address port)) (λ problem.
              Free-bind false (Free-raise_if false problem) (λ _.
                Free-bind false accept_watcher-Free (λ _.
                  Free-set_kernel false (λ k. record k { running = true }) (λ k. (refl, refl)))))))

    serve-Free : (options : Options) (events : List Event) → Free false (serve options events)
    unfolding serve
    serve-Free options events = Free-bind false (Free-set_kernel false _ (λ k. (refl, refl))) (λ _.
        Free-bind false (init-Free options.config_file) (λ done.
          Free-bind false (Free-gets false (λ w. w.kernel.init)) (λ is_init.
            Free-if false (not is_init) (Free-pure false false) (
              Free-bind false start_kernel-Free (λ _.
                Free-bind false (record { run = work-EndsTidy events })
                  (λ _. Free-pure false true))))))

    -- From the first state of the program, whatever the configuration, Lua, the system and the events
    -- are, no call waits for a mutex that its own thread holds, until the loop ends; and then, also
    -- after an exception, the mutexes of the engine, the kernel and the live feeders are free.
    pub serve-EndsTidy :
        (options : Options) (events : List Event)
        → EndsTidy false (serve options events Kernel.initial)
    unfolding Kernel.initial
    serve-EndsTidy options events =
        (serve-Free options events).run Kernel.initial (refl, refl, refl, refl, λ f. refl)
