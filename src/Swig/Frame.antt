-- ===== src/Swig/Frame.antt =====
-- What the wrappers leave alone: relations that the few changes respect which a wrapper can make,
-- and the rules by which a call is shown to respect them.
use grind.Prelude.{ℕ, ℤ, ◌++◌, Bool, true, false, Option, none, some, [], ◌∷◌, Bytes, arith}
use grind.Lua.{Lua, Value}
use grind.Host.{Host}
use grind.World.{Boxes, Cfg, Connection, sending, World}
use grind.World.Monad.{Fault, null_pointer, dangling, bad_delete, Outcome, ok, throws, dies, M}
use grind.World.Frame.{Order}
use grind.Registry.Untouched.{Quiet}
use grind.Registry.{is_port_available, is_feeder_registered, register_feeder}
use grind.Swig.Arguments.{
  SwigType, Args, Wrap, Result, gives, fails, resume, ◌>>=◌, give, fail, lift, check,
  check_num_args, check_arg, pointer, deref,
}

module _ ⦃lua : Lua⦄ ⦃host : Host⦄ where
  -- A relation that the changes respect which a script can make.
  pub record Frame (R : World → World → Type 0) (D : World → Fault → Type 0) : Type 0 where
    pub order : Order R
    pub null : (w : World) → D w null_pointer
    pub dangle : (w : World) → D w dangling
    pub delete : (w : World) → D w bad_delete
    -- A fault after a change.
    pub back : {v w : World} {f : Fault} → R v w → D w f → D v f
    pub boxes : (w : World) (b : Boxes) → R w (record w { boxes = b })
    pub options :
        (w : World) (cfg : Cfg) (threshold : ℕ)
        → R w (record w { kernel = record (w.kernel) { cfg = cfg; threshold = threshold } })
    pub connections :
        (w : World) (at : ℕ → Option Connection)
        → R w (record w { heap = record (w.heap) { connection_at = at } })
    pub sends :
        (w : World) (c : ℕ) (message : Bytes)
        → R w (record w { io = record (w.io) { pending = w.io.pending ++ sending c message ∷ [] } })
    pub available : (p : ℤ) (w : World) → Quiet R D w (is_port_available p w)
    pub registered : (label : Bytes) (w : World) → Quiet R D w (is_feeder_registered label w)
    pub registers : (label : Bytes) (p : ℤ) (w : World) → Quiet R D w (register_feeder label p w)

  module _ {R : World → World → Type 0} {D : World → Fault → Type 0} (frame : Frame R D) where
    pub record Quietly {A : Type 0} (m : M A) : Type 0 where
      pub run : (w : World) → Quiet R D w (m w)

    resume-Quiet :
        {A B : Type 0} (w : World) (x : Outcome (Result A)) (f : A → Wrap B)
        → Quiet R D w x
        → ((a : A) → Quietly (f a))
        → Quiet R D w (resume x f)
    resume-Quiet w (ok (gives a) v) f r k = later w v (f a v) r ((k a).run v)
      where
        later : {B : Type 0} (w v : World) (x : Outcome B) → R w v → Quiet R D v x → Quiet R D w x
        later w v (ok b u) r s = frame.order.trans r s
        later w v (throws e u) r s = s
        later w v (dies y) r s = frame.back r s
    resume-Quiet w (ok (fails e) v) f r k = r
    resume-Quiet w (throws e v) f r k = r
    resume-Quiet w (dies y) f r k = r

    pub bind-Quietly :
        {A B : Type 0} {m : Wrap A} {f : A → Wrap B}
        → Quietly m
        → ((a : A) → Quietly (f a))
        → Quietly (m >>= f)
    bind-Quietly {m = m} {f = f} h k = record { run = λ w. resume-Quiet w (m w) f (h.run w) k }

    lift-Quiet :
        {A : Type 0} (w : World) (x : Outcome A)
        → Quiet R D w x
        → Quiet R D w
            (elim x [ ok a v ↦ ok (gives a) v | throws e v ↦ throws e v | dies y ↦ dies y ])
    lift-Quiet w (ok a v) r = r
    lift-Quiet w (throws e v) r = r
    lift-Quiet w (dies y) r = r

    pub lift-Quietly : {A : Type 0} {m : M A} → Quietly m → Quietly (lift m)
    lift-Quietly {m = m} h = record { run = λ w. lift-Quiet w (m w) (h.run w) }

    pub give-Quietly : {A : Type 0} (a : A) → Quietly (give a)
    give-Quietly a = record { run = λ w. frame.order.same w }

    pub fail-Quietly : {A : Type 0} (message : Bytes) → Quietly (fail {A = A} message)
    fail-Quietly message = record { run = λ w. frame.order.same w }

    check-Quietly : (b : Bool) (message : Bytes) → Quietly (check b message)
    check-Quietly true message = record { run = λ w. frame.order.same w }
    check-Quietly false message = record { run = λ w. frame.order.same w }

    pub check_num_args-Quietly :
        (func_name : Bytes) (a b : ℕ) (args : Args) → Quietly (check_num_args func_name a b args)
    unfolding check_num_args
    check_num_args-Quietly func_name a b args = check-Quietly _ _

    pub check_arg-Quietly :
        (test : Value lua.Number → Bool) (func_name : Bytes) (argnum : ℕ) (type : Bytes)
        (args : Args)
        → Quietly (check_arg test func_name argnum type args)
    unfolding check_arg
    check_arg-Quietly test func_name argnum type args = check-Quietly _ _

    pub deref-Quietly : {A : Type 0} (p : Option A) → Quietly (deref p)
    deref-Quietly none = record { run = λ w. frame.null w }
    deref-Quietly (some a) = record { run = λ w. frame.order.same w }

    pub pointer-Quietly :
        (func : Bytes) (n : ℕ) (type : SwigType) (args : Args) → Quietly (pointer func n type args)
    unfolding pointer
    pointer-Quietly func n type args = record { run = λ w. ground (arith, frame.order.same w) }

pub ruleset quiet_rules = (
  bind-Quietly, lift-Quietly, give-Quietly, fail-Quietly, check_num_args-Quietly, check_arg-Quietly,
  deref-Quietly, pointer-Quietly,
)
