-- ===== src/Examples/Scripts.antt =====
-- What scripts do to the program: calls of wrappers, members, options, nil.
use grind.Prelude.{none, some, true, c_str, ◌≡◌, refl, ℤ, false, [], ◌∷◌, List, Bytes, lit}
use grind.Lua.{
  watcher_port_set, boxed_string, string_assign, Callback, newindex, Value, nil, string, userdata,
  the_kernel, kernel_cfg, kernel_register_feeder, kernel_set_logging_threshold,
}
use grind.World.{World, update}
use grind.Swig.Arguments.{gives}
use grind.World.Monad.{ok, dies, null_pointer}
use grind.Swig.{invoke}
use grind.Swig.Signature.{signatures, arity, takes, fit, fits, has_nil, Typed}
use grind.Swig.Typed.{invoke-Typed}
use grind.Swig.Texts.{ReadsText, string_assign-ReadsText}
use grind.Swig.Nil.{is_setter, invoke-nil, invoke-is_setter}
use grind.Swig.Arguments.{to_string}
use grind.Swig.Classes.{class_get, class_set}
use grind.Swig.Classes.Members.{Reads, Writes, members}
use grind.Swig.Classes.Roundtrip.{watcher_port, ReadsBack, class_get-class_set}
use grind.Registry.Untouched.{SameEngine, ForeignIn, Quiet}
use grind.Swig.Modules.{Session, swig_init}
use grind.Swig.Modules.Table.{Compares, equals-Compares, Finds, assigns, read-assigns}
use grind.Bridge.{callback}
use grind.Bridge.Untouched.{callback-SameEngine}
use grind.Examples.Stub.{host}
use grind.Examples.Calls.{calm, online, registration}

abbrev world : World ⦃lua = calm⦄
world = online calm []

invoke-Typed_example :
    Typed ⦃lua = calm⦄
      (takes ⦃lua = calm⦄ (signatures kernel_register_feeder) registration)
      (arity kernel_register_feeder)
      registration
      world
      (invoke ⦃lua = calm⦄ ⦃host = host⦄ kernel_register_feeder registration world)
invoke-Typed_example =
    invoke-Typed ⦃lua = calm⦄ ⦃host = host⦄ kernel_register_feeder registration world

-- `kernel:set_logging_threshold(nil)`.
abbrev no_level : List (Value ℤ)
no_level = userdata the_kernel false ∷ nil ∷ []

invoke-nil_example :
    invoke ⦃lua = calm⦄ ⦃host = host⦄ kernel_set_logging_threshold no_level world
    ≡ dies null_pointer
unfolding is_setter signatures takes fit fits has_nil
invoke-nil_example =
    invoke-nil ⦃lua = calm⦄ ⦃host = host⦄ kernel_set_logging_threshold no_level world refl refl refl

members_example :
    (class_get ⦃lua = calm⦄ ⦃host = host⦄ kernel_cfg false (string (lit "watcher_port")) world
      ≡ Reads ⦃lua = calm⦄ ⦃host = host⦄ kernel_cfg false (string (lit "watcher_port")) world)
    × (class_set ⦃lua = calm⦄ ⦃host = host⦄ kernel_cfg false
          (string (lit "watcher_port"))
          (string (lit "5141"))
          world
        ≡ Writes ⦃lua = calm⦄ ⦃host = host⦄ kernel_cfg false
            (string (lit "watcher_port"))
            (string (lit "5141"))
            world)
members_example =
    members ⦃lua = calm⦄ ⦃host = host⦄ kernel_cfg false (string (lit "watcher_port"))
      (string (lit "5141")) world

class_get-class_set_example :
    ReadsBack ⦃lua = calm⦄ ⦃host = host⦄ kernel_cfg false watcher_port
      (lit "5141")
      world.kernel.cfg
      world
      (class_set ⦃lua = calm⦄ ⦃host = host⦄ kernel_cfg false
        (string (lit "watcher_port"))
        (string (lit "5141"))
        world)
unfolding to_string c_str
class_get-class_set_example =
    class_get-class_set ⦃lua = calm⦄ ⦃host = host⦄ kernel_cfg false false watcher_port
      (string (lit "5141")) (lit "5141") world.kernel.cfg world refl refl

abbrev assignment : Callback ℤ
assignment = newindex kernel_cfg false (string (lit "watcher_port")) (string (lit "5141"))

callback-SameEngine_example :
    Quiet ⦃lua = calm⦄
      (SameEngine ⦃lua = calm⦄)
      (ForeignIn ⦃lua = calm⦄)
      world
      (callback ⦃lua = calm⦄ ⦃host = host⦄ assignment world)
callback-SameEngine_example = callback-SameEngine ⦃lua = calm⦄ ⦃host = host⦄ assignment world

-- A state with the string `grind` at the address 3.
abbrev with_string : World ⦃lua = calm⦄
with_string = record world {
  boxes = record (world.boxes) { string_at = update (λ b. none) 3 (some (lit "grind")) };
}

string_assign-ReadsText_example :
    ReadsText ⦃lua = calm⦄ ⦃host = host⦄ 3 false (lit "apache") with_string (
      invoke ⦃lua = calm⦄ ⦃host = host⦄ string_assign
        (userdata (boxed_string 3) true ∷ string (lit "apache") ∷ [])
        with_string)
unfolding to_string c_str
string_assign-ReadsText_example =
    string_assign-ReadsText ⦃lua = calm⦄ ⦃host = host⦄ 3 true false (string (lit "apache"))
      (lit "apache") (lit "grind") with_string refl refl

invoke-is_setter_example :
    invoke ⦃lua = calm⦄ ⦃host = host⦄ watcher_port_set (nil ∷ string (lit "5141") ∷ []) world
    ≡ ok (gives []) world
unfolding is_setter signatures takes fit fits has_nil
invoke-is_setter_example =
    invoke-is_setter ⦃lua = calm⦄ ⦃host = host⦄ watcher_port_set (string (lit "5141")) world refl
      refl refl

-- A Lua state where no class is registered.
abbrev fresh : Session ⦃lua = calm⦄
fresh = record { globals = []; members = []; getters = []; setters = []; registry = [] }

equals-Compares_example :
    Compares ⦃lua = calm⦄
      (swig_init ⦃lua = calm⦄ (λ n. n) fresh)
      the_kernel
      (boxed_string 0)
      false
      true
      []
equals-Compares_example =
    equals-Compares ⦃lua = calm⦄ (λ n. n) fresh the_kernel (boxed_string 0) false true []

-- The script hides the constructor of strings, and then stores a text under another name.
abbrev hidden : List (Bytes × Value ℤ)
hidden = (lit "string", nil) ∷ (lit "version", string (lit "1")) ∷ []

read-assigns_example :
    Finds ⦃lua = calm⦄ ⦃host = host⦄
      (lit "string")
      hidden
      world
      (assigns ⦃lua = calm⦄ ⦃host = host⦄ hidden (swig_init ⦃lua = calm⦄ (λ n. n) fresh) world)
read-assigns_example =
    read-assigns ⦃lua = calm⦄ ⦃host = host⦄ (λ n. n) fresh hidden (lit "string") world
