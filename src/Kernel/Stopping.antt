-- ===== src/Kernel/Stopping.antt =====
-- A stop of the kernel (src/kernel.cpp) that a failing Lua call makes inside another stop.
use grind.Prelude.{
  ℕ, ◌≡◌, refl, sym, ◌∙◌, ap, Bool, true, false, not, Option, none, some, List, [], ◌∷◌, Bytes, lit,
  if◌then◌else◌,
}
use grind.Lua.{Lua}
use grind.Host.{Host}
use grind.World.{
  CloseHandler, kernel_close, feeder_close, watcher_connection, feeder_connection, ConnectionType,
  Engine, World,
}
use grind.World.Monad.{
  Outcome, ok, throws, dies, deadlock, out_of_fuel, M, ◌>>◌, pure, modify, set_engine,
}
use grind.Bridge.{Argument}
use grind.Engine.{notify, pass_to_lua, stop_after}
use grind.Engine
use grind.Engine.Nested.{Locked, pass_to_lua-Locked, pass_to_lua-same}
use grind.Objects.{assign_close_handler, close_watcher}
use grind.Connections.{
  remove, close_feed, run_close_handler, notify_watcher, disengage, stop_feeder, destroy,
}
use grind.Connections
use grind.Kernel.{stop_by, nested_stop, stop}
use grind.World.Twins.{
  Left, Twins, Twins-bind, Twins-each, Twins-same, Twins-pure, Twins-gets, Twins-os, Twins-raise_if,
  Twins-connection, Twins-feeder, Twins-set_connection, Twins-set_feeder, Twins-set_kernel,
  Twins-scoped,
}

module _ ⦃lua : Lua⦄ ⦃host : Host⦄ where
  notify-Locked :
      (k : M (Unit {0})) (in_func : Bytes) (arguments : List Argument) (w : World)
      → Locked w.engine
      → notify k in_func arguments w ≡ dies deadlock
  unfolding notify
  notify-Locked k in_func arguments w p =
      ap (λ x. elim x [ ok a v ↦ ok tt v | throws e v ↦ throws e v | dies d ↦ dies d ])
        (pass_to_lua-Locked k in_func arguments w p)

  notify-same :
      (k n : M (Unit {0})) (h : Twins Locked k n) (in_func : Bytes) (arguments : List Argument)
      (w : World)
      → notify k in_func arguments w ≡ notify n in_func arguments w
  unfolding notify
  notify-same k n h in_func arguments w =
      ap (λ x. elim x [ ok a v ↦ ok tt v | throws e v ↦ throws e v | dies d ↦ dies d ])
        (pass_to_lua-same k n h in_func arguments w (w.engine.locked) refl)

  -- A property of the engine that its marks and its Lua state have no part in, and two stops of the
  -- kernel that the calls of Lua do not tell apart.
  module _ (P : Engine → Type 0)
      (stable : (e : Engine) (s : Option lua.State) (b : Bool)
        → P e
        → P (record e { lua_state = s; stopping = b }))
      (k n : M (Unit {0}))
      (calls : (in_func : Bytes) (arguments : List Argument)
        → Twins P (notify k in_func arguments) (notify n in_func arguments)) where
    close_feed-Twins : (f c : ℕ) → Twins P (close_feed f c) (close_feed f c)
    unfolding close_feed
    close_feed-Twins f c = Twins-scoped P f (
        Twins-bind P (Twins-feeder P f)
          (λ x. Twins-set_feeder P f (some (record x { connections = remove c (x.connections) }))))

    destroy-Twins : (cs : List ℕ) → Twins P (destroy cs) (destroy cs)
    unfolding destroy
    destroy-Twins cs = record { run = λ w p. (refl, p) }

    run_close_handler-Twins :
        (o : Option CloseHandler) (c : ℕ) → Twins P (run_close_handler o c) (run_close_handler o c)
    unfolding run_close_handler close_watcher
    run_close_handler-Twins none c = Twins-pure P tt
    run_close_handler-Twins (some kernel_close) c = Twins-same P λ w p. p
    run_close_handler-Twins (some (feeder_close f)) c =
        Twins-bind P (close_feed-Twins f c) (λ _. destroy-Twins (c ∷ []))

    leave-Twins :
        (t : ConnectionType) (c : ℕ)
        → Twins P
            (elim t [
              | watcher_connection ↦ notify_watcher k (lit "grind.remove_watcher") c
              | feeder_connection ↦ pure tt
            ])
            (elim t [
              | watcher_connection ↦ notify_watcher n (lit "grind.remove_watcher") c
              | feeder_connection ↦ pure tt
            ])
    unfolding notify_watcher
    leave-Twins watcher_connection c = calls _ _
    leave-Twins feeder_connection c = Twins-pure P tt

    stop_connection-Twins : (c : ℕ) → Twins P (Connections.stop k c) (Connections.stop n c)
    unfolding Connections.stop
    stop_connection-Twins c = Twins-bind P (Twins-connection P c) (λ x.
        Twins-bind P (leave-Twins (x.type) c) (λ _.
          Twins-bind P (Twins-os P (λ now. host.cancel now c)) (λ problem.
            Twins-bind P (Twins-raise_if P problem) (λ _. Twins-bind P (Twins-connection P c) (λ x.
              Twins-bind P (Twins-set_connection P c (record x { is_shut = true }))
                (λ _. run_close_handler-Twins (x.close_handler) c))))))

    disengage-Twins : (c : ℕ) → Twins P (disengage k c) (disengage n c)
    unfolding disengage assign_close_handler
    disengage-Twins c =
        Twins-bind P
          (Twins-bind P (Twins-connection P c)
            (λ x. Twins-set_connection P c (record x { close_handler = none })))
          (λ _. stop_connection-Twins c)

    stop_feeder-Twins : (f : ℕ) → Twins P (stop_feeder k f) (stop_feeder n f)
    unfolding stop_feeder
    stop_feeder-Twins f = Twins-scoped P f (
        Twins-bind P (Twins-feeder P f) (λ x.
          Twins-bind P (Twins-each P (x.connections) disengage-Twins) (λ _.
            Twins-bind P (Twins-feeder P f) (λ x. Twins-bind P (destroy-Twins x.connections) (λ _.
              Twins-bind P (Twins-feeder P f)
                (λ x. Twins-set_feeder P f (some (record x { connections = [] }))))))))

    mark-Twins :
        (b : Bool)
        → Twins P
            (set_engine λ e. record e { stopping = b })
            (set_engine λ e. record e { stopping = b })
    mark-Twins b = record { run = λ w p. (refl, stable (w.engine) (w.engine.lua_state) b p) }

    close-Twins :
        Twins P
          (set_engine λ e. record e { lua_state = none })
          (set_engine λ e. record e { lua_state = none })
    close-Twins = record { run = λ w p. (refl, stable (w.engine) none (w.engine.stopping) p) }

    stop_after-Twins : {f g : M (Unit {0})} → Twins P f g → Twins P (stop_after f) (stop_after g)
    unfolding stop_after
    stop_after-Twins {f = f} {g = g} h = record {
      run = λ w p. go w p (w.engine.lua_state) (w.engine.stopping);
    }
      where
        whole : M (Unit {0}) → M (Unit {0})
        whole f = do
          set_engine λ e. record e { stopping = true }
          f
          set_engine λ e. record e { lua_state = none }
          set_engine λ e. record e { stopping = false }

        after : M (Unit {0}) → Option lua.State → Bool → M (Unit {0})
        after f o b w = elim o [
          | none ↦ ok tt w
          | some s ↦ elim b [ true ↦ ok tt w | false ↦ whole f w ]
        ]

        go :
            (w : World)
            → P w.engine
            → (o : Option lua.State) (b : Bool)
            → (after f o b w ≡ after g o b w) × Left P (after f o b w)
        go w p none b = (refl, p)
        go w p (some s) true = (refl, p)
        go w p (some s) false =
            (Twins-bind P (mark-Twins true)
                (λ _. Twins-bind P h (λ _. Twins-bind P close-Twins (λ _. mark-Twins false)))).run
              w p

    engine_stop-Twins : Twins P (Engine.stop k true) (Engine.stop n true)
    unfolding Engine.stop
    engine_stop-Twins = stop_after-Twins (calls _ _)

    halt-Twins :
        Twins P
          (modify λ w. record w { io = record (w.io) { stopped = true } })
          (modify λ w. record w { io = record (w.io) { stopped = true } })
    halt-Twins = record { run = λ w p. (refl, p) }

    running-Twins :
        (b : Bool) {f g : M (Unit {0})} (w : World)
        → P w.engine
        → Twins P f g
        → ((if not b then ok tt w else f w) ≡ (if not b then ok tt w else g w))
          × Left P (if not b then ok tt w else f w)
    running-Twins true w p h = h.run w p
    running-Twins false w p h = (refl, p)

    stop_by-Twins : Twins P (stop_by k) (stop_by n)
    unfolding stop_by
    stop_by-Twins = record {
      run = λ w p. running-Twins (w.kernel.running) w p (
          Twins-bind P (Twins-each P (w.kernel.connections) stop_connection-Twins) (λ _.
            Twins-bind P (Twins-gets P (λ w. w.kernel.feeders)) (λ feeders.
              Twins-bind P (Twins-each P feeders (λ (l, f). stop_feeder-Twins f)) (λ _.
                Twins-bind P
                  (Twins-set_kernel P (λ k. record k { new_watcher = none; connections = [] }))
                  (λ _. Twins-bind P halt-Twins (λ _.
                    Twins-bind P engine_stop-Twins
                      (λ _. Twins-set_kernel P (λ k. record k { running = false }))))))));
    }

  inner-Twins : (k n : M (Unit {0})) → Twins Locked (stop_by k) (stop_by n)
  inner-Twins k n =
      stop_by-Twins Locked (λ e s b p. p) k n
        λ in_func arguments. record {
          run = λ w p. (
            notify-Locked k in_func arguments w p ∙ sym (notify-Locked n in_func arguments w p),
            rw (notify-Locked k in_func arguments w p) tt,
          );
        }

  -- No property.
  abbrev Any : Engine → Type 0
  Any e = Unit {0}

  Left-Any : {A : Type 0} (x : Outcome A) → Left Any x
  Left-Any (ok a v) = tt
  Left-Any (throws what v) = tt
  Left-Any (dies f) = tt

  -- What a third stop would do does not matter.
  outer-same : (k n : M (Unit {0})) (w : World) → stop_by (stop_by k) w ≡ stop_by (stop_by n) w
  outer-same k n w =
      ((stop_by-Twins Any (λ e s b p. tt) (stop_by k) (stop_by n)
          λ in_func arguments. record {
            run = λ v p. (
              notify-same (stop_by k) (stop_by n) (inner-Twins k n) in_func arguments v,
              Left-Any _,
            );
          }).run
        w tt).0

  -- Whatever is put in the place of a third stop inside two others, the stop of the kernel ends the
  -- same: its two levels never run out.
  pub stop_levels : (k : M (Unit {0})) (w : World) → stop_by (stop_by k) w ≡ stop w
  unfolding stop nested_stop
  stop_levels k w = outer-same k (λ w. dies out_of_fuel) w

  -- The stop of the kernel satisfies the recursion of the source, in which a failing call of Lua
  -- stops the kernel by the same function.
  pub stop-stop_by : (w : World) → stop w ≡ stop_by stop w
  unfolding stop nested_stop
  stop-stop_by w = outer-same (λ w. dies out_of_fuel) (stop_by (λ w. dies out_of_fuel)) w

  -- Every function that satisfies the recursion of the source is the stop of the kernel.
  pub stop_unique :
      (r : M (Unit {0})) (w : World) → ((v : World) → r v ≡ stop_by r v) → r w ≡ stop w
  unfolding stop nested_stop
  stop_unique r w h =
      h w
      ∙ ap (λ (m : M (Unit {0})). stop_by m w) (λ i v. h v i)
      ∙ outer-same r (λ w. dies out_of_fuel) w
