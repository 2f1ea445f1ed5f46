-- ===== src/Engine/Arguments.antt =====
-- What `relay` of src/script_engine.cpp puts before the handler in Lua.
use grind.Prelude.{
  ℕ, ◌≡◌, ◌≢◌, refl, ◌∙◌, none, some, Bytes, ap, lit, c_str, str_eq, List, [], ◌∷◌, arith,
}
use grind.Lua.{Lua, Plain}
use grind.Bridge.{Argument, string_at, push_argument, push_arguments}
use grind.Host.{Host}
use grind.World.{Feeder, World}
use grind.World.Monad.{M, or_die, null_pointer, dangling, Outcome, ok, dies, ◌>>=◌}
use grind.Engine.{notify, relay}
use grind.Engine.Calls.{named}

-- No byte of the text is NUL.
abbrev pub Whole : Bytes → Type 0
Whole [] = Unit {0}
Whole (c ∷ s) = (c ≢ 0) × Whole s

c_str-Whole : (s : Bytes) → Whole s → c_str s ≡ s
unfolding c_str
c_str-Whole [] h = refl
c_str-Whole (c ∷ s) (n, h) = ground (arith, c_str-Whole s h)

-- A message and a label as `relay` passes them.
abbrev pub relayed : Bytes → Bytes → List Argument
relayed text label =
    record { type = lit "std::string"; value = string_at text }
    ∷ record { type = lit "std::string"; value = string_at label }
    ∷ []

module _ ⦃lua : Lua⦄ where
  pushed_arguments :
      (text label : Bytes) (s : lua.State)
      → Whole text
      → Plain text
      → Whole label
      → Plain label
      → (t : lua.State) × (push_arguments (relayed text label) (named (lit "grind.handle") s)
          ≡ some t)
        × (lua.tostring 0 t ≡ some label)
        × (lua.tostring 1 t ≡ some text)
        × (lua.tostring 2 t ≡ some (lit "grind.handle"))
  unfolding push_arguments push_argument c_str str_eq
  pushed_arguments text label s wt pt wl pl =
      rw (c_str-Whole text wt, c_str-Whole label wl)
        (
          lua.pushfstring label (lua.pushfstring text (named (lit "grind.handle") s)),
          refl,
          lua.tostring-pushfstring label _ pl,
          lua.tostring-under label 0 _ ∙ lua.tostring-pushfstring text _ pt,
          lua.tostring-under label 1 _
              ∙ lua.tostring-under text 0 _
              ∙ lua.tostring-pushfstring (lit "grind.handle") _ (omega arith),
        )

  module _ ⦃host : Host⦄ (kernel_stop : M (Unit {0})) where
    relay_lem :
        (text : Bytes) (f : ℕ) (x : Feeder) (w : World)
        → w.heap.feeder_at f ≡ some x
        → relay kernel_stop text (some f) w
          ≡ notify kernel_stop (lit "grind.handle") (relayed text x.label) w
    unfolding relay
    relay_lem text f x w h =
        ap
          (λ o.
            (do
              f ← or_die (some f) null_pointer
              x ← (λ w. elim o as (λ _. Outcome Feeder) [ none ↦ dies dangling | some x ↦ ok x w ])
              notify kernel_stop (lit "grind.handle") (relayed text x.label))
              w)
          h

    -- For a live feeder, `relay` calls `grind.handle` in Lua; and whatever stands on the stack of
    -- Lua, the arguments of that call put the feeder's label on its top, the message below it, and
    -- the name of the function below that, each byte for byte, if message and label have neither
    -- a NUL nor a percent sign.
    pub relay_arguments :
        (text : Bytes) (f : ℕ) (x : Feeder) (w : World) (s : lua.State)
        → w.heap.feeder_at f ≡ some x
        → Whole text
        → Plain text
        → Whole x.label
        → Plain x.label
        → (arguments : List Argument) × (relay kernel_stop text (some f) w
            ≡ notify kernel_stop (lit "grind.handle") arguments w)
          × (t : lua.State) × (push_arguments arguments (named (lit "grind.handle") s) ≡ some t)
          × (lua.tostring 0 t ≡ some x.label)
          × (lua.tostring 1 t ≡ some text)
          × (lua.tostring 2 t ≡ some (lit "grind.handle"))
    relay_arguments text f x w s h wt pt wl pl =
        let (t, pushed, top, below, name) = pushed_arguments text x.label s wt pt wl pl in
        (relayed text x.label, relay_lem text f x w h, t, pushed, top, below, name)
