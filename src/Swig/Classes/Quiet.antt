-- ===== src/Swig/Classes/Quiet.antt =====
-- What the reading and the assignment of a member leave alone.
use grind.Prelude.{Bool, Option, none, some, [], lit}
use grind.Lua.{Lua, Object, Value}
use grind.Host.{Host}
use grind.World.{World}
use grind.World.Monad.{Fault}
use grind.Swig.Arguments.{Args, Wrap, ◌>>=◌, give}
use grind.Swig.Frame.{Frame, Quietly, bind-Quietly, give-Quietly}
use grind.Swig.Quiet.{invoke-Quietly}
use grind.Swig.Classes.{
  Entry, wrapper, class_disown, raw_get, at_key, metatable, call_entry, one_result, class_get,
  class_set,
}

module _ ⦃lua : Lua⦄ ⦃host : Host⦄ {R : World → World → Type 0} {D : World → Fault → Type 0}
    (frame : Frame R D) where
  call_entry-Quietly : (f : Entry) (args : Args) → Quietly frame (call_entry f args)
  unfolding call_entry
  call_entry-Quietly (wrapper f) args = invoke-Quietly frame f args
  call_entry-Quietly class_disown args = give-Quietly frame []

  -- The results of an entry are passed on.
  passed-Quietly :
      (f : Entry) (args : Args) (pass : Args → Args)
      → Quietly frame (call_entry f args >>= λ results. give (pass results))
  passed-Quietly f args pass =
      bind-Quietly frame (call_entry-Quietly f args) (λ results. give-Quietly frame (pass results))

  choose-Quietly :
      {A : Type 0} (x : Option A) {f : A → Wrap Args} {m : Wrap Args}
      → ((a : A) → Quietly frame (f a))
      → Quietly frame m
      → Quietly frame (elim x [ some a ↦ f a | none ↦ m ])
  choose-Quietly none h k = k
  choose-Quietly (some a) h k = h a

  pub class_get-Quietly :
      (o : Object) (own : Bool) (key : Value lua.Number) → Quietly frame (class_get o own key)
  unfolding class_get
  class_get-Quietly o own key =
      choose-Quietly (at_key key (metatable o).getters) (λ f. passed-Quietly f _ one_result)
        (choose-Quietly (at_key key (metatable o).functions) (λ f. give-Quietly frame _)
          (choose-Quietly (raw_get (lit "__getitem") (metatable o).overloads)
            (λ f. passed-Quietly f _ one_result) (give-Quietly frame _)))

  pub class_set-Quietly :
      (o : Object) (own : Bool) (key v : Value lua.Number) → Quietly frame (class_set o own key v)
  unfolding class_set
  class_set-Quietly o own key v =
      choose-Quietly (at_key key (metatable o).setters) (λ f. passed-Quietly f _ (λ results. []))
        (choose-Quietly (raw_get (lit "__setitem") (metatable o).overloads)
          (λ f. passed-Quietly f _ (λ results. [])) (give-Quietly frame _))
