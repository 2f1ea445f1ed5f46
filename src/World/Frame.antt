-- ===== src/World/Frame.antt =====
-- What a call leaves alone: `m` leads from a state only to states that `R` relates to it, and dies
-- only of a fault in `D`.
use grind.Prelude.{List, [], ◌∷◌, Bytes}
use grind.Lua.{Lua}
use grind.World.{World}
use grind.World.Monad.{Fault, Outcome, ok, throws, dies, M, for_each}

module _ ⦃lua : Lua⦄ where
  abbrev pub Leads :
      {A : Type 0} → (World → World → Type 0) → (Fault → Type 0) → World → Outcome A → Type 0
  Leads R D w (ok a v) = R w v
  Leads R D w (throws e v) = R w v
  Leads R D w (dies f) = D f

  abbrev pub Respects : {A : Type 0} → (World → World → Type 0) → (Fault → Type 0) → M A → Type 0
  Respects R D m = (w : World) → Leads R D w (m w)

  pub record Order (R : World → World → Type 0) : Type 0 where
    pub same : (w : World) → R w w
    pub trans : {u v w : World} → R u v → R v w → R u w

  module _ {R : World → World → Type 0} (D : Fault → Type 0) (o : Order R) where
    pub weaken : {A : Type 0} {u v : World} (x : Outcome A) → R u v → Leads R D v x → Leads R D u x
    weaken (ok a w) r s = o.trans r s
    weaken (throws e w) r s = o.trans r s
    weaken (dies f) r d = d

    -- A call, and then what is done with its result.
    pub andthen :
        {A B : Type 0} {w : World} (x : Outcome A) (f : A → M B)
        → Leads R D w x
        → ((a : A) (v : World) → R w v → Leads R D v (f a v))
        → Leads R D w (elim x [ ok a v ↦ f a v | throws e v ↦ throws e v | dies y ↦ dies y ])
    andthen (ok a v) f r k = weaken (f a v) r (k a v r)
    andthen (throws e v) f r k = r
    andthen (dies y) f d k = d

    -- A call in a `try` block, and then its handler.
    pub orelse :
        {A : Type 0} {w : World} (x : Outcome A) (handler : Bytes → M A)
        → Leads R D w x
        → ((e : Bytes) (v : World) → R w v → Leads R D v (handler e v))
        → Leads R D w (elim x [ ok a v ↦ ok a v | throws e v ↦ handler e v | dies y ↦ dies y ])
    orelse (ok a v) h r k = r
    orelse (throws e v) h r k = weaken (h e v) r (k e v r)
    orelse (dies y) h d k = d

    pub for_each-Leads :
        {A : Type 0} (f : A → M (Unit {0}))
        → ((a : A) → Respects R D (f a))
        → (xs : List A) → Respects R D (for_each f xs)
    unfolding for_each
    for_each-Leads f k [] w = o.same w
    for_each-Leads f k (x ∷ xs) w =
        andthen (f x w) (λ _. for_each f xs) (k x w) (λ _ v r. for_each-Leads f k xs v)

  -- A weaker relation.
  pub mono :
      {A : Type 0} (R S : World → World → Type 0) (D : Fault → Type 0) (w : World) (x : Outcome A)
      → ((v : World) → R w v → S w v)
      → Leads R D w x
      → Leads S D w x
  mono R S D w (ok a v) h r = h v r
  mono R S D w (throws e v) h r = h v r
  mono R S D w (dies f) h d = d
