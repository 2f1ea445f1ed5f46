-- ===== src/Registry/Maps.antt =====
-- The map of the feeders by label.
use grind.Prelude.{
  ℕ, ◌≡◌, refl, false, none, some, List, [], ◌∷◌, Bytes, str_eq, str_eq_iff, if◌then◌else◌, arith,
}
use grind.Registry.{find, insert, erase}

-- A new label is added, and no other one changes.
pub find-insert :
    (l j : Bytes) (f : ℕ) (m : List (Bytes × ℕ))
    → find l m ≡ none
    → find j (insert l f m) ≡ (if str_eq l j then some f else find j m)
unfolding find insert
find-insert l j f [] h = refl
find-insert l j f ((k, g) ∷ m) h =
    ground (arith, str_eq_iff k l, str_eq_iff k j, str_eq_iff l j, find-insert l j f m)

-- A label that is there keeps its feeder.
pub insert_of_found :
    (l : Bytes) (f g : ℕ) (m : List (Bytes × ℕ)) → find l m ≡ some g → insert l f m ≡ m
unfolding find insert
insert_of_found l f g [] h = cc
insert_of_found l f g ((k, x) ∷ m) h = ground (arith, insert_of_found l f g m)

-- Erasing a label leaves the others.
pub find-erase_ne :
    (l j : Bytes) (m : List (Bytes × ℕ)) → str_eq l j ≡ false → find j (erase l m) ≡ find j m
unfolding find erase
find-erase_ne l j [] h = refl
find-erase_ne l j ((k, g) ∷ m) h =
    ground (arith, str_eq_iff k l, str_eq_iff k j, str_eq_iff l j, find-erase_ne l j m)

-- Erasing finds nothing twice, also behind a new label.
pub find-erase-insert :
    (l j : Bytes) (f : ℕ) (m : List (Bytes × ℕ))
    → find l m ≡ none
    → find j (erase j m) ≡ none
    → find j (erase j (insert l f m)) ≡ none
unfolding find insert erase
find-erase-insert l j f [] h e = ground (arith, str_eq_iff l j)
find-erase-insert l j f ((k, g) ∷ m) h e = ground (
  arith,
  str_eq_iff k l,
  str_eq_iff k j,
  str_eq_iff l j,
  find-insert l j f m,
  find-erase-insert l j f m,
)

pub find-erase-none :
    (l j : Bytes) (m : List (Bytes × ℕ)) → find j m ≡ none → find j (erase l m) ≡ none
unfolding find erase
find-erase-none l j [] h = refl
find-erase-none l j ((k, g) ∷ m) h = ground (arith, find-erase-none l j m)

-- What erasing a label leaves is found at most once, too.
pub find-erase-erase :
    (l j : Bytes) (m : List (Bytes × ℕ))
    → find j (erase j m) ≡ none
    → find j (erase j (erase l m)) ≡ none
unfolding find erase
find-erase-erase l j [] h = refl
find-erase-erase l j ((k, g) ∷ m) h = ground (
  arith,
  str_eq_iff k l,
  str_eq_iff k j,
  find-erase-none l j m,
  find-erase-none j j m,
  find-erase-erase l j m,
)
