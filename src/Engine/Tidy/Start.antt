-- ===== src/Engine/Tidy/Start.antt =====
-- The mutexes over the start of the engine: `script_engine::start` of src/script_engine.cpp.
use grind.Prelude.{
  refl, ◌==◌, not, Bool, true, false, Bytes, c_str, lit, List, [], ◌∷◌, Option, none, some,
}
use grind.Lua.{Lua, the_kernel}
use grind.Host.{Host}
use grind.World.{World}
use grind.World.Monad.{throw, set_engine, Outcome, ok, M, pure}
use grind.World.Tidy.{
  Tidy, EndsTidy, Free, Free-bind, Free-pure, Free-if, Free-gets, Free-throw, Free-os,
  Free-set_engine,
}
use grind.Bridge.{object_at}
use grind.Bridge.Tidy.{run_script-Free}
use grind.Engine.{
  on_grind_start, locate_file, locate_config, choose_config, start, unable_to_locate, invalid_file,
  not_a_directory,
}
use grind.Engine.Tidy.{state-Free, set_state-Free, pop-Free, handle_error-Free, pass_to_lua-Free}

module _ ⦃lua : Lua⦄ where
  module _ ⦃host : Host⦄ (kernel_stop : M (Unit {0})) where
    on_grind_start-Free : (b : Bool) → Free b on_grind_start
    unfolding on_grind_start
    on_grind_start-Free b = Free-bind b (state-Free b) (λ s.
        Free-bind b
          (Free-set_engine b (λ e. record e { running = lua.toboolean s }) (λ e. (refl, refl)))
          (λ _. pop-Free b 1))

    locate_file-Free :
        (directories : List Bytes) (filename : Bytes)
        → Free false (locate_file kernel_stop directories filename)
    unfolding locate_file
    locate_file-Free [] filename = Free-pure false []
    locate_file-Free (d ∷ directories) filename =
        Free-bind false (Free-os false (λ now. host.is_directory now d)) (λ directory.
          Free-if false (not directory) (locate_file-Free directories filename) (
            Free-bind false
              (Free-os false (λ now. host.exists now (host.slash d (lit "config.lua"))))
              (λ there.
                Free-if false there (Free-pure false (host.slash d (lit "config.lua")))
                  (locate_file-Free directories filename))))

    locate_config-Free : Free false (locate_config kernel_stop)
    unfolding locate_config
    locate_config-Free =
        locate_file-Free
          (lit "/etc/grind" ∷ lit "/usr/share/grind" ∷ lit "/usr/local/share/grind" ∷ [])
          (lit "config.lua")

    set_path-Free : (path : Bytes) → Free false (set_engine λ e. record e { cfg_path = path })
    set_path-Free path = Free-set_engine false _ (λ e. (refl, refl))

    found-Free :
        (path : Bytes)
        → Free {A = Unit {0}} false (elim path [ [] ↦ throw unable_to_locate | c ∷ rest ↦ pure tt ])
    found-Free [] = Free-throw false _
    found-Free (c ∷ rest) = Free-pure false tt

    choose_config-Free : (path : Bytes) → Free false (choose_config kernel_stop path)
    unfolding choose_config
    choose_config-Free [] =
        Free-bind false locate_config-Free
          (λ path. Free-bind false (set_path-Free path) (λ _. found-Free path))
    choose_config-Free (c ∷ rest) = Free-bind false (set_path-Free (c ∷ rest)) (λ _.
        Free-bind false (Free-os false (λ now. host.exists now (c ∷ rest))) (λ there.
          Free-if false (not there) (Free-throw false (invalid_file (c ∷ rest))) (
            Free-bind false (Free-os false (λ now. host.is_directory now (c ∷ rest))) (λ directory.
              Free-if false directory (Free-throw false (not_a_directory (c ∷ rest)))
                (Free-pure false tt)))))

    start_cases :
        (w : World) (x : Outcome (Unit {0})) (s : Option lua.State)
        → Tidy false w
        → EndsTidy false x
        → EndsTidy false (elim s [ some s ↦ ok tt w | none ↦ x ])
    start_cases w x (some s) t h = t
    start_cases w x none t h = h

    pub start-Free : (path : Bytes) → Free false (start kernel_stop path)
    unfolding start
    start-Free in_cfg_path =
        let body = Free-bind false (choose_config-Free in_cfg_path) (λ _.
          Free-bind false (Free-gets false (λ w. w.engine.cfg_path)) (λ path.
            Free-bind false (set_state-Free false lua.lua_open) (λ _.
              Free-bind false (run_script-Free false (lua.dofile (c_str path) lua.lua_open)) (λ rc.
                Free-if false (rc == 1) (handle_error-Free false kernel_stop) (
                  Free-bind false
                    (Free-set_engine false (λ e. record e { running = true }) (λ e. (refl, refl)))
                    (λ _.
                      Free-bind false
                        (pass_to_lua-Free kernel_stop (lit "grind.start") (some on_grind_start) 1
                          (on_grind_start-Free true)
                          (record { type = lit "grind::kernel"; value = object_at the_kernel }
                            ∷ []))
                        (λ done. Free-pure false tt))))))) in
        record { run = λ w t. start_cases w _ w.engine.lua_state t (body.run w t) }
