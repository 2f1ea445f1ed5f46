-- ===== src/Engine/Starting.antt =====
-- `script_engine::start` keeps the registry steady.
use grind.Prelude.{ℕ, ◌==◌, not, true, Bytes, c_str, lit, List, [], ◌∷◌, Option, none, some}
use grind.Lua.{Lua, the_kernel}
use grind.Host.{Host}
use grind.World.{World}
use grind.World.Monad.{Outcome, ok, M, pure, throw}
use grind.World.Frame.{Leads}
use grind.Registry.Invariant.{Steady, Steady-Order, InMap}
use grind.Registry.Steps.{
  Keeps, Keeps-if, Keeps-bind, Keeps-pure, Keeps-gets, Keeps-throw, os-Keeps, set_engine-Keeps,
}
use grind.Bridge.{object_at, set_state}
use grind.Bridge.Steady.{run_script-Safe}
use grind.Engine.{
  locate_file, locate_config, choose_config, start, on_grind_start, unable_to_locate, invalid_file,
  not_a_directory,
}
use grind.Engine.Steady.{handle_error-Keeps, pass_to_lua-Keeps, on_grind_start-Keeps}

module _ ⦃lua : Lua⦄ (l : Bytes) (f : ℕ) ⦃host : Host⦄ {kernel_stop : M (Unit {0})}
    (safe_stop : Keeps l f kernel_stop) where
  locate_file-Keeps :
      (directories : List Bytes) (filename : Bytes)
      → Keeps l f (locate_file kernel_stop directories filename)
  unfolding locate_file
  locate_file-Keeps [] filename = Keeps-pure l f {A = Bytes} []
  locate_file-Keeps (d ∷ directories) filename =
      let file = host.slash d (lit "config.lua") in
      let skip = locate_file-Keeps directories filename in
      Keeps-bind l f (os-Keeps l f (λ now. host.is_directory now d)) (λ directory.
        Keeps-if l f (not directory) skip (
          Keeps-bind l f (os-Keeps l f (λ now. host.exists now file))
            (λ there. Keeps-if l f there (Keeps-pure l f {A = Bytes} file) skip)))

  found-Keeps :
      (path : Bytes)
      → Keeps l f {A = Unit {0}} (elim path [ [] ↦ throw unable_to_locate | c ∷ rest ↦ pure tt ])
  found-Keeps [] = Keeps-throw l f unable_to_locate
  found-Keeps (c ∷ rest) = Keeps-pure l f tt

  choose_config-Keeps : (path : Bytes) → Keeps l f (choose_config kernel_stop path)
  unfolding choose_config locate_config
  choose_config-Keeps [] =
      Keeps-bind l f
        (locate_file-Keeps
          (lit "/etc/grind" ∷ lit "/usr/share/grind" ∷ lit "/usr/local/share/grind" ∷ [])
          (lit "config.lua"))
        (λ path.
          Keeps-bind l f (set_engine-Keeps l f (λ e. record e { cfg_path = path }))
            (λ _. found-Keeps path))
  choose_config-Keeps (c ∷ rest) =
      Keeps-bind l f (set_engine-Keeps l f (λ e. record e { cfg_path = c ∷ rest })) (λ _.
        Keeps-bind l f (os-Keeps l f (λ now. host.exists now (c ∷ rest))) (λ there.
          Keeps-if l f (not there) (Keeps-throw l f (invalid_file (c ∷ rest))) (
            Keeps-bind l f (os-Keeps l f (λ now. host.is_directory now (c ∷ rest))) (λ directory.
              Keeps-if l f directory (Keeps-throw l f (not_a_directory (c ∷ rest)))
                (Keeps-pure l f tt)))))

  start_cases :
      (w : World) (x : Outcome (Unit {0})) (s : Option lua.State)
      → Leads (Steady l f) InMap w x
      → Leads (Steady l f) InMap w (elim s [ some s ↦ ok tt w | none ↦ x ])
  start_cases w x none h = h
  start_cases w x (some s) h = (Steady-Order l f).same w

  pub start-Keeps : (path : Bytes) → Keeps l f (start kernel_stop path)
  unfolding start set_state
  start-Keeps path =
      let body = Keeps-bind l f (choose_config-Keeps path) (λ _.
        Keeps-bind l f (Keeps-gets l f (λ w. w.engine.cfg_path)) (λ path.
          Keeps-bind l f (set_engine-Keeps l f (λ e. record e { lua_state = some lua.lua_open }))
            (λ _.
              Keeps-bind l f
                (record { run = run_script-Safe l f (lua.dofile (c_str path) lua.lua_open) })
                (λ rc. Keeps-if l f (rc == 1) (handle_error-Keeps l f safe_stop) (
                  Keeps-bind l f (set_engine-Keeps l f (λ e. record e { running = true })) (λ _.
                    Keeps-bind l f
                      (pass_to_lua-Keeps l f safe_stop (some on_grind_start) 1
                        (on_grind_start-Keeps l f) (lit "grind.start")
                        (record { type = lit "grind::kernel"; value = object_at the_kernel } ∷ []))
                      (λ done. Keeps-pure l f tt))))))) in
      record { run = λ w. start_cases w _ w.engine.lua_state (body.run w) }
