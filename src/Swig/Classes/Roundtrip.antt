-- ===== src/Swig/Classes/Roundtrip.antt =====
-- Options that a script assigns and reads through
-- src/bindings/SWIG/wrappers/lua_grind_wrap.cxx.
use grind.Prelude.{
  ◌==◌, if◌then◌else◌, ◌≡◌, refl, ap, ◌∙◌, Bool, Option, none, some, [], ◌∷◌, Bytes, lit, str_eq,
  arith,
}
use grind.Lua.{Lua, Object, kernel_cfg, cfg_at, Value, string}
use grind.Host.{Host}
use grind.World.{Cfg, World}
use grind.World.Monad.{Outcome, ok}
use grind.Swig.{class_of, invoke}
use grind.Swig.Arguments.{
  Args, Result, gives, arg, check_num_args, check_arg, convert_ptr, pointer, is_ptr_type, is_string,
  to_string,
}
use grind.Swig.Options
use grind.Swig.Classes.{class_get, class_set, one_result}
use grind.Swig.Classes.Members.{Reads, Writes, class_get-Reads, class_set-Writes}

-- The options that are texts, with their names.
pub data TextOption : Type 0 where
  feeder_interface watcher_interface watcher_port : TextOption

abbrev pub name_of : TextOption → Bytes
name_of feeder_interface = lit "feeder_interface"
name_of watcher_interface = lit "watcher_interface"
name_of watcher_port = lit "watcher_port"

module _ ⦃lua : Lua⦄ where
  -- The kernel's options, or options that a script has made and not yet given up.
  abbrev pub options_at : Object → World → Option Cfg
  options_at kernel_cfg w = some (w.kernel.cfg)
  options_at (cfg_at c) w = w.boxes.cfg_at c
  options_at o w = none

  abbrev pub with_text : TextOption → Bytes → Cfg → Cfg
  with_text feeder_interface s x = record x { feeder_interface = s }
  with_text watcher_interface s x = record x { watcher_interface = s }
  with_text watcher_port s x = record x { watcher_port = s }

  abbrev text_in : TextOption → Cfg → Bytes
  text_in feeder_interface x = x.feeder_interface
  text_in watcher_interface x = x.watcher_interface
  text_in watcher_port x = x.watcher_port

  text_in-with_text :
      (option : TextOption) (s : Bytes) (x : Cfg) → text_in option (with_text option s x) ≡ s
  text_in-with_text feeder_interface s x = refl
  text_in-with_text watcher_interface s x = refl
  text_in-with_text watcher_port s x = refl

  -- The state in which the options at an address are `x`, and nothing else has changed.
  abbrev pub with_options : Object → Cfg → World → World
  with_options kernel_cfg x w = record w { kernel = record (w.kernel) { cfg = x } }
  with_options (cfg_at c) x w = record w {
    boxes = record (w.boxes) { cfg_at = λ d. if c == d then some x else w.boxes.cfg_at d };
  }
  with_options o x w = w

  options_at-with_options :
      (o : Object) (x y : Cfg) (w : World)
      → options_at o w ≡ some x
      → options_at o (with_options o y w) ≡ some y
  options_at-with_options kernel_cfg x y w h = refl
  options_at-with_options (cfg_at c) x y w h = ground arith
  options_at-with_options o x y w h = absurd (ground (arith, h))

  module _ ⦃host : Host⦄ where
    Writes-with_options :
        (o : Object) (own : Bool) (option : TextOption) (v : Value lua.Number) (s : Bytes) (x : Cfg)
        (w : World)
        → options_at o w ≡ some x
        → to_string v ≡ some s
        → Writes o own (string (name_of option)) v w
          ≡ ok (gives []) (with_options o (with_text option s x) w)
    unfolding class_of invoke str_eq check_num_args check_arg convert_ptr pointer arg is_ptr_type
        is_string to_string Options.wrap_feeder_interface_set Options.wrap_watcher_interface_set
        Options.wrap_watcher_port_set Options.text_set Options.update_if Options.update_cfg
    Writes-with_options kernel_cfg own feeder_interface v s x w h e = ground (arith, h, e)
    Writes-with_options kernel_cfg own watcher_interface v s x w h e = ground (arith, h, e)
    Writes-with_options kernel_cfg own watcher_port v s x w h e = ground (arith, h, e)
    Writes-with_options (cfg_at c) own feeder_interface v s x w h e = ground (arith, h, e)
    Writes-with_options (cfg_at c) own watcher_interface v s x w h e = ground (arith, h, e)
    Writes-with_options (cfg_at c) own watcher_port v s x w h e = ground (arith, h, e)
    Writes-with_options o own option v s x w h e = absurd (ground (arith, h))

    Reads-text :
        (o : Object) (own : Bool) (option : TextOption) (x : Cfg) (w : World)
        → options_at o w ≡ some x
        → Reads o own (string (name_of option)) w ≡ ok (gives (string (text_in option x) ∷ [])) w
    unfolding class_of invoke str_eq check_num_args check_arg convert_ptr pointer arg is_ptr_type
        Options.wrap_feeder_interface_get Options.wrap_watcher_interface_get
        Options.wrap_watcher_port_get Options.cfg_get Options.load_cfg one_result
    Reads-text kernel_cfg own feeder_interface x w h = ground (arith, h)
    Reads-text kernel_cfg own watcher_interface x w h = ground (arith, h)
    Reads-text kernel_cfg own watcher_port x w h = ground (arith, h)
    Reads-text (cfg_at c) own feeder_interface x w h = ground (arith, h)
    Reads-text (cfg_at c) own watcher_interface x w h = ground (arith, h)
    Reads-text (cfg_at c) own watcher_port x w h = ground (arith, h)
    Reads-text o own option x w h = absurd (ground (arith, h))

    -- The assignment changes that text and nothing else in the whole state, and it reads back.
    abbrev pub ReadsBack :
        Object
        → (own : Bool) → TextOption
        → (s : Bytes) → Cfg
        → World
        → Outcome (Result Args)
        → Type 0
    ReadsBack o own option s x w y =
        let v : World = with_options o (with_text option s x) w in
        (y ≡ ok (gives []) v)
        × (class_get o own (string (name_of option)) v ≡ ok (gives (string s ∷ [])) v)

    -- A script that assigns a string or a number to one of the three texts among the options of the
    -- kernel, or among live options of its own, reads exactly its bytes again, NULs included; and
    -- nothing else in the whole state has changed, no other option of the same object either.
    pub class_get-class_set :
        (o : Object) (own own_later : Bool) (option : TextOption) (v : Value lua.Number) (s : Bytes)
        (x : Cfg) (w : World)
        → options_at o w ≡ some x
        → to_string v ≡ some s
        → ReadsBack o own_later option s x w (class_set o own (string (name_of option)) v w)
    class_get-class_set o own own_later option v s x w h e =
        let u : World = with_options o (with_text option s x) w in
        (
          class_set-Writes o own (string (name_of option)) v w
              ∙ Writes-with_options o own option v s x w h e,
          class_get-Reads o own_later (string (name_of option)) u
              ∙ Reads-text o own_later option (with_text option s x) u
                  (options_at-with_options o x (with_text option s x) w h)
              ∙ ap (λ t. ok (gives (string t ∷ [])) u) (text_in-with_text option s x),
        )
