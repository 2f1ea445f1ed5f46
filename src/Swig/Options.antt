-- ===== src/Swig/Options.antt =====
-- The wrappers of `grind::kernel_cfg_t` in src/bindings/SWIG/wrappers/lua_grind_wrap.cxx.
use grind.Prelude.{ℕ, suc, true, Option, none, some, [], ◌∷◌, Bytes, lit, c_str}
use grind.Lua.{Lua, Object, kernel_cfg, cfg_at, string, userdata}
use grind.World.{Cfg, update}
use grind.World.Monad.{dangling, ok, dies, M, set_kernel}
use grind.Swig.Arguments.{
  kernel_cfg_type, Args, Wrap, ◌>>=◌, ◌>>◌, give, lift, arg, is_ptr_type, is_string, is_nil_string,
  to_string, check_num_args, check_arg, pointer, deref,
}

module _ ⦃lua : Lua⦄ where
  -- The options of the kernel, or those that a script has made. No other object has their type.
  unfoldable pub load_cfg : Object → M Cfg
  load_cfg kernel_cfg w = ok (w.kernel.cfg) w
  load_cfg (cfg_at c) w = elim (w.boxes.cfg_at c) [ none ↦ dies dangling | some x ↦ ok x w ]
  load_cfg o w = dies dangling

  unfoldable pub update_cfg : (Cfg → Cfg) → Object → M (Unit {0})
  update_cfg change kernel_cfg = set_kernel λ k. record k { cfg = change (k.cfg) }
  update_cfg change (cfg_at c) = λ w. elim (w.boxes.cfg_at c) [
    | none ↦ dies dangling
    | some x ↦ ok tt (record w {
      boxes = record (w.boxes) { cfg_at = update (w.boxes.cfg_at) c (some (change x)) };
    })
  ]
  update_cfg change o = λ w. dies dangling

  -- `if (arg1) (arg1)->... = ...;`.
  unfoldable pub update_if : (Cfg → Cfg) → Option Object → M (Unit {0})
  unfolding update_cfg
  update_if change none = λ w. ok tt w
  update_if change (some o) = update_cfg change o

  -- What the setters of the three texts share.
  unfoldable pub text_set : (func_name func : Bytes) → (Bytes → Cfg → Cfg) → Args → Wrap Args
  unfolding update_if
  text_set func_name func change args = do
    check_num_args func_name 2 2 args
    check_arg is_ptr_type func_name 1 (lit "grind::kernel_cfg_t *") args
    check_arg is_string func_name 2 (lit "string_t const &") args
    arg1 ← pointer func 1 kernel_cfg_type args
    temp2 ← deref (to_string (arg args 2))
    lift (update_if (change temp2) arg1)
    give []

  -- What the getters share.
  unfoldable pub cfg_get : (func_name func : Bytes) → (Cfg → Bytes) → Args → Wrap Args
  unfolding load_cfg
  cfg_get func_name func result args = do
    check_num_args func_name 1 1 args
    check_arg is_ptr_type func_name 1 (lit "grind::kernel_cfg_t *") args
    p ← pointer func 1 kernel_cfg_type args
    arg1 ← deref p
    x ← lift (load_cfg arg1)
    give (string (result x) ∷ [])

  unfoldable pub wrap_feeder_interface_set : Args → Wrap Args
  unfolding text_set
  wrap_feeder_interface_set =
      text_set (lit "grind::kernel_cfg_t::feeder_interface")
        (lit "kernel_cfg_t_feeder_interface_set") (λ s c. record c { feeder_interface = s })

  unfoldable pub wrap_feeder_interface_get : Args → Wrap Args
  unfolding cfg_get
  wrap_feeder_interface_get =
      cfg_get (lit "grind::kernel_cfg_t::feeder_interface")
        (lit "kernel_cfg_t_feeder_interface_get") (λ c. c.feeder_interface)

  unfoldable pub wrap_watcher_interface_set : Args → Wrap Args
  unfolding text_set
  wrap_watcher_interface_set =
      text_set (lit "grind::kernel_cfg_t::watcher_interface")
        (lit "kernel_cfg_t_watcher_interface_set") (λ s c. record c { watcher_interface = s })

  unfoldable pub wrap_watcher_interface_get : Args → Wrap Args
  unfolding cfg_get
  wrap_watcher_interface_get =
      cfg_get (lit "grind::kernel_cfg_t::watcher_interface")
        (lit "kernel_cfg_t_watcher_interface_get") (λ c. c.watcher_interface)

  unfoldable pub wrap_watcher_port_set : Args → Wrap Args
  unfolding text_set
  wrap_watcher_port_set =
      text_set (lit "grind::kernel_cfg_t::watcher_port") (lit "kernel_cfg_t_watcher_port_set")
        (λ s c. record c { watcher_port = s })

  unfoldable pub wrap_watcher_port_get : Args → Wrap Args
  unfolding cfg_get
  wrap_watcher_port_get =
      cfg_get (lit "grind::kernel_cfg_t::watcher_port") (lit "kernel_cfg_t_watcher_port_get")
        (λ c. c.watcher_port)

  -- `s[0]`: of an empty text, the NUL at its end.
  unfoldable pub first_char : Bytes → ℕ
  first_char [] = 0
  first_char (c ∷ s) = c

  unfoldable pub wrap_log_level_set : Args → Wrap Args
  unfolding update_if first_char
  wrap_log_level_set args = do
    check_num_args (lit "grind::kernel_cfg_t::log_level") 2 2 args
    check_arg is_ptr_type (lit "grind::kernel_cfg_t::log_level") 1 (lit "grind::kernel_cfg_t *")
        args
    check_arg is_nil_string (lit "grind::kernel_cfg_t::log_level") 2 (lit "char") args
    arg1 ← pointer (lit "kernel_cfg_t_log_level_set") 1 kernel_cfg_type args
    text ← deref (to_string (arg args 2))
    lift (update_if (λ c. record c { log_level = first_char text }) arg1)
    give []

  -- `lua_pushfstring(L, "%c", result)`, which pushes a C string.
  unfoldable pub wrap_log_level_get : Args → Wrap Args
  unfolding cfg_get
  wrap_log_level_get =
      cfg_get (lit "grind::kernel_cfg_t::log_level") (lit "kernel_cfg_t_log_level_get")
        (λ c. c_str (c.log_level ∷ []))

  -- `new grind::kernel_cfg_t()`: every member is empty or zero.
  unfoldable pub new_cfg : M Object
  new_cfg w =
      let b = w.boxes.next_box in
      ok (cfg_at b) (record w {
        boxes = record (w.boxes) {
          cfg_at = update (w.boxes.cfg_at) b (
              some (record {
                feeder_interface = [];
                watcher_interface = [];
                watcher_port = [];
                log_level = 0;
              }));
          next_box = suc b;
        };
      })

  unfoldable pub wrap_new_kernel_cfg_t : Args → Wrap Args
  unfolding new_cfg
  wrap_new_kernel_cfg_t args = do
    check_num_args (lit "grind::kernel_cfg_t::kernel_cfg_t") 0 0 args
    result ← lift new_cfg
    give (userdata result true ∷ [])

  -- `swig_delete_kernel_cfg_t`.
  unfoldable pub swig_delete_kernel_cfg_t : ℕ → M (Unit {0})
  swig_delete_kernel_cfg_t c w = elim (w.boxes.cfg_at c) [
    | none ↦ dies dangling
    | some x ↦
        ok tt (record w { boxes = record (w.boxes) { cfg_at = update (w.boxes.cfg_at) c none } })
  ]
