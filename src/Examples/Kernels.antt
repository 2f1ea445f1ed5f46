-- ===== src/Examples/Kernels.antt =====
-- The stop of the kernel, and the book of ports, at concrete states.
use grind.Prelude.{none, some, false, true, List, ◌≡◌, arith, refl, Bool, pos, [], ◌∷◌, lit}
use grind.World.{Feeder, World}
use grind.Connections.{on_accept}
use grind.World.Monad.{Outcome, ok, throws, dies, dangling, throw, for_each}
use grind.Registry.{register_feeder, owned}
use grind.Registry.Registering.{listening}
use grind.Registry.Steady.{register_feeder-Safe}
use grind.EventLoop.{take_out, work}
use grind.EventLoop.Turns.{IsSound, EndsSound, Keeps-EndsSound}
use grind.EventLoop.Leaving.{IsGone, failing_accept, ready, work-IsGone}
use grind.EventLoop.Loop.{work-EndsSound}
use grind.EventLoop.{Event}
use grind.EventLoop.Outliving.{work-dangling}
use grind.EventLoop.Tidy.{work-EndsTidy}
use grind.World.Tidy.{NoneHeld, EndsTidy}
use grind.Engine.{choose_config}
use grind.Engine.Locating.{Chosen, choose_config-Chosen}
use grind.Registry.Book.{Refines, register}
use grind.Registry.Refinement.{run, run-Refines}
use grind.Kernel.{initial, stop, stop_by}
use grind.Kernel.Stopping.{stop-stop_by, stop_levels, stop_unique}
use grind.Program.Lifetime.{initial-IsSound}
use grind.Examples.Stub.{host}
use grind.Examples.Calls.{calm, failing, online}

stop_levels_example :
    stop_by ⦃lua = failing⦄ ⦃host = host⦄
      (stop_by ⦃lua = failing⦄ ⦃host = host⦄ (throw ⦃lua = failing⦄ (lit "a third stop")))
      (online failing [])
    ≡ stop ⦃lua = failing⦄ ⦃host = host⦄ (online failing [])
stop_levels_example =
    stop_levels ⦃lua = failing⦄ ⦃host = host⦄ (throw ⦃lua = failing⦄ (lit "a third stop"))
      (online failing [])

stop_unique_example :
    stop ⦃lua = failing⦄ ⦃host = host⦄ (online failing [])
    ≡ stop ⦃lua = failing⦄ ⦃host = host⦄ (online failing [])
stop_unique_example =
    stop_unique ⦃lua = failing⦄ ⦃host = host⦄ (stop ⦃lua = failing⦄ ⦃host = host⦄)
      (online failing []) (λ v. stop-stop_by ⦃lua = failing⦄ ⦃host = host⦄ v)

run-Refines_example :
    Refines ⦃lua = calm⦄
      (register (lit "apache") (pos 5140))
      (initial ⦃lua = calm⦄)
      (run ⦃lua = calm⦄ ⦃host = host⦄ (register (lit "apache") (pos 5140)) (initial ⦃lua = calm⦄))
unfolding initial
run-Refines_example =
    run-Refines ⦃lua = calm⦄ ⦃host = host⦄ (register (lit "apache") (pos 5140))
      (initial ⦃lua = calm⦄) refl (initial-IsSound ⦃lua = calm⦄ ⦃host = host⦄) tt

-- The kernel with one feeder, which waits for its first connection.
abbrev entered : Outcome ⦃lua = calm⦄ Bool
entered =
    register_feeder ⦃lua = calm⦄ ⦃host = host⦄ (lit "apache") (pos 5140) (initial ⦃lua = calm⦄)

abbrev one_feeder : World ⦃lua = calm⦄
one_feeder = elim entered [ ok b v ↦ v | throws e v ↦ v | dies y ↦ initial ⦃lua = calm⦄ ]

one_feeder-IsSound : IsSound ⦃lua = calm⦄ one_feeder
one_feeder-IsSound = pass entered (
    Keeps-EndsSound ⦃lua = calm⦄
      (register_feeder ⦃lua = calm⦄ ⦃host = host⦄ (lit "apache") (pos 5140)) (initial ⦃lua = calm⦄)
      (initial-IsSound ⦃lua = calm⦄ ⦃host = host⦄)
      (λ l f. record {
        run = register_feeder-Safe ⦃lua = calm⦄ l f ⦃host = host⦄ (lit "apache") (pos 5140);
      }))
  where
    pass :
        (x : Outcome ⦃lua = calm⦄ Bool)
        → EndsSound ⦃lua = calm⦄ x
        → IsSound ⦃lua = calm⦄
            (elim x [ ok b v ↦ v | throws e v ↦ v | dies y ↦ initial ⦃lua = calm⦄ ])
    pass (ok b v) s = s
    pass (throws e v) s = s
    pass (dies y) s = initial-IsSound ⦃lua = calm⦄ ⦃host = host⦄

work-IsGone_example :
    IsGone ⦃lua = calm⦄
      (lit "apache")
      0
      (work ⦃lua = calm⦄ ⦃host = host⦄ (failing_accept 0 ∷ ready 0 ∷ []) one_feeder)
unfolding initial register_feeder take_out
work-IsGone_example =
    work-IsGone ⦃lua = calm⦄ ⦃host = host⦄ 0 0 one_feeder
      (listening ⦃lua = calm⦄ ⦃host = host⦄ (lit "apache") (pos 5140) 0) one_feeder-IsSound refl
      refl refl refl

-- A connection comes, and the feeder waits for the next one.
abbrev come : List Event
come = record { index = 0; failed = false; received = none } ∷ []

abbrev accepted : World ⦃lua = calm⦄
accepted = elim (work ⦃lua = calm⦄ ⦃host = host⦄ come one_feeder) [
  | ok b v ↦ v
  | throws e v ↦ v
  | dies y ↦ initial ⦃lua = calm⦄
]

accepted-IsSound : IsSound ⦃lua = calm⦄ accepted
accepted-IsSound =
    pass (work ⦃lua = calm⦄ ⦃host = host⦄ come one_feeder)
      (work-EndsSound ⦃lua = calm⦄ ⦃host = host⦄ come one_feeder one_feeder-IsSound)
  where
    pass :
        (x : Outcome ⦃lua = calm⦄ (Unit {0}))
        → EndsSound ⦃lua = calm⦄ x
        → IsSound ⦃lua = calm⦄
            (elim x [ ok b v ↦ v | throws e v ↦ v | dies y ↦ initial ⦃lua = calm⦄ ])
    pass (ok b v) s = s
    pass (throws e v) s = s
    pass (dies y) s = initial-IsSound ⦃lua = calm⦄ ⦃host = host⦄

abbrev apache : Feeder
apache = record {
  label = lit "apache";
  port = pos 5140;
  conn = some 1;
  connections = 0 ∷ [];
  conn_locked = false;
  acceptor_open = true;
}

-- A line of a log.
abbrev line : Event
line = record { index = 0; failed = false; received = some (lit "GET /") }

work-dangling_example :
    work ⦃lua = calm⦄ ⦃host = host⦄ (failing_accept 1 ∷ ready 1 ∷ line ∷ []) accepted
    ≡ dies dangling
unfolding initial register_feeder take_out work owned for_each on_accept
work-dangling_example =
    work-dangling ⦃lua = calm⦄ ⦃host = host⦄ 0 1 0 line accepted apache accepted-IsSound refl refl
      refl refl refl refl

choose_config-Chosen_example :
    Chosen ⦃lua = calm⦄ ⦃host = host⦄
      (stop ⦃lua = calm⦄ ⦃host = host⦄)
      (lit "grind.cfg")
      (initial ⦃lua = calm⦄)
      (choose_config ⦃lua = calm⦄ ⦃host = host⦄
        (stop ⦃lua = calm⦄ ⦃host = host⦄)
        (lit "grind.cfg")
        (initial ⦃lua = calm⦄))
choose_config-Chosen_example =
    choose_config-Chosen ⦃lua = calm⦄ ⦃host = host⦄ (stop ⦃lua = calm⦄ ⦃host = host⦄)
      (lit "grind.cfg") (initial ⦃lua = calm⦄)
      (record { directory = λ now path. refl; file = λ now path. refl })

one_feeder-NoneHeld : NoneHeld ⦃lua = calm⦄ one_feeder
unfolding initial register_feeder
one_feeder-NoneHeld f = ground arith

work-EndsTidy_example :
    EndsTidy ⦃lua = calm⦄ false
      (work ⦃lua = calm⦄ ⦃host = host⦄ (failing_accept 0 ∷ ready 0 ∷ []) one_feeder)
unfolding initial register_feeder
work-EndsTidy_example =
    work-EndsTidy ⦃lua = calm⦄ ⦃host = host⦄ (failing_accept 0 ∷ ready 0 ∷ []) one_feeder
      (refl, refl, refl, refl, one_feeder-NoneHeld)
