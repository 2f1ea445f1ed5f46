-- ===== src/Engine/Locating.antt =====
-- Where src/script_engine.cpp finds its configuration.
use grind.Prelude.{
  ℕ, ◌+◌, ◌≡◌, refl, not, ◌&&◌, Option, none, some, List, [], ◌∷◌, Bytes, lit, if◌then◌else◌, arith,
}
use grind.Lua.{Lua}
use grind.Host.{Host}
use grind.World.{World}
use grind.World.Monad.{Outcome, ok, throws, dies, M, ◌>>◌, set_engine, throw, pure}
use grind.Engine.{
  locate_file, locate_config, choose_config, unable_to_locate, invalid_file, not_a_directory,
}

module _ ⦃lua : Lua⦄ ⦃host : Host⦄ where
  -- The files do not change while they are looked for.
  pub record Still : Type 0 where
    pub directory : (now : ℕ) (path : Bytes) → host.is_directory now path ≡ host.is_directory 0 path
    pub file : (now : ℕ) (path : Bytes) → host.exists now path ≡ host.exists 0 path

  -- The first of the directories that holds a `config.lua`.
  unfoldable pub first : List Bytes → Bytes
  first [] = []
  first (d ∷ ds) =
      let rest = first ds in
      if host.is_directory 0 d && host.exists 0 (host.slash d (lit "config.lua"))
      then host.slash d (lit "config.lua")
      else rest

  abbrev Located : Bytes → World → Outcome Bytes → Type 0
  Located path w (ok p v) =
      (p ≡ path)
      × (v.kernel ≡ w.kernel)
      × (v.engine ≡ w.engine)
      × (v.heap ≡ w.heap)
      × (v.io.pending ≡ w.io.pending)
  Located path w (throws what v) = ⊥
  Located path w (dies f) = ⊥

  -- The state when the system has been asked `n` more times.
  abbrev asked : ℕ → World → World
  asked n w = record w { io = record (w.io) { now = w.io.now + n } }

  module _ (kernel_stop : M (Unit {0})) where
    locate_file-first :
        (still : Still) (ds : List Bytes) (name : Bytes) (w : World)
        → Located (first ds) w (locate_file kernel_stop ds name w)
    unfolding locate_file first
    locate_file-first still [] name w = (refl, refl, refl, refl, refl)
    locate_file-first still (d ∷ ds) name w = ground (
      arith,
      still.directory w.io.now d,
      still.file (w.io.now + 1) (host.slash d (lit "config.lua")),
      locate_file-first still ds name (asked 1 w),
      locate_file-first still ds name (asked 2 w),
    )

    -- The directories that are searched.
    abbrev pub directories : List Bytes
    directories = lit "/etc/grind" ∷ lit "/usr/share/grind" ∷ lit "/usr/local/share/grind" ∷ []

    -- The configuration that is chosen, and the message of a refusal.
    abbrev pub target : Bytes → Bytes
    target [] = first directories
    target (c ∷ rest) = c ∷ rest

    abbrev pub refusal : Bytes → Option Bytes
    refusal [] = elim (first directories) [ [] ↦ some unable_to_locate | c ∷ rest ↦ none ]
    refusal (c ∷ rest) =
        if not (host.exists 0 (c ∷ rest))
        then some (invalid_file (c ∷ rest))
        else (if host.is_directory 0 (c ∷ rest) then some (not_a_directory (c ∷ rest)) else none)

    abbrev pub Chosen : Bytes → World → Outcome (Unit {0}) → Type 0
    Chosen path w (ok _ v) =
        (refusal path ≡ none) × (v.engine ≡ record (w.engine) { cfg_path = target path })
    Chosen path w (throws what v) =
        (refusal path ≡ some what) × (v.engine ≡ record (w.engine) { cfg_path = target path })
    Chosen path w (dies f) = ⊥

    -- If the files do not change meanwhile: a path that the program was given is taken if there is a
    -- file, and refused by name if there is none or a directory; without a path, the first of the
    -- three directories that holds a `config.lua` decides, or the search is given up. In every case
    -- the engine keeps what was tried, and nothing else of it changes.
    pub choose_config-Chosen :
        (path : Bytes) (w : World) (still : Still)
        → Chosen path w (choose_config kernel_stop path w)
    unfolding choose_config locate_config
    choose_config-Chosen [] w still =
        pass (locate_file kernel_stop directories (lit "config.lua") w)
          (locate_file-first still directories (lit "config.lua") w)
      where
        pass :
            (x : Outcome Bytes)
            → Located (first directories) w x
            → Chosen [] w (elim x [
              | ok path v ↦
                  (do
                    set_engine λ e. record e { cfg_path = path }
                    elim path [ [] ↦ throw unable_to_locate | c ∷ rest ↦ pure tt ])
                    v
              | throws e v ↦ throws e v
              | dies f ↦ dies f
            ])
        pass (ok [] v) r = ground (arith, r)
        pass (ok (c ∷ rest) v) r = ground (arith, r)
        pass (throws e v) r = absurd r
        pass (dies f) r = absurd r
    choose_config-Chosen (c ∷ rest) w still =
        ground (arith, still.file w.io.now (c ∷ rest), still.directory (w.io.now + 1) (c ∷ rest))
