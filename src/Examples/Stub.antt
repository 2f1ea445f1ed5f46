-- ===== src/Examples/Stub.antt =====
-- A Lua whose state is its stack, and a host, for the examples. A called function makes one
-- callback or none, and then returns or fails.
use grind.Prelude.{
  ℕ, zero, suc, ◌+◌, ◌≤◌, ◌≡◌, ◌≢◌, refl, Bool, true, false, Option, none, some, List, [], ◌∷◌,
  ◌++◌, Bytes, lit, ℤ, pos, length, drop, replicate, length-append, length-replicate, arith,
}
use grind.Lua.{Lua, Callback, Script, done, ask, Ends, Object}
use grind.Utility.{int_to_decimal}
use grind.Host.{Host}

pub data Slot : Type 0 where
  empty : Slot
  function : Slot
  text : Bytes → Slot
  pointer : Object → Slot

pub length-drop : (n : ℕ) (s : List Slot) → n ≤ length s → length (drop n s) + n ≡ length s
length-drop zero s h = omega arith
length-drop (suc n) [] h = absurd (omega arith)
length-drop (suc n) (x ∷ s) h = omega (arith, length-drop n s (omega arith))

-- The results of a call, or its message.
abbrev pub results : Bool → (nargs nresults : ℕ) → List Slot → Script ℤ (List Slot)
results true nargs nresults s = done 2 (text (lit "boom") ∷ drop (suc nargs) s)
results false nargs nresults s = done 0 (replicate nresults empty ++ drop (suc nargs) s)

results-Ends :
    (fails : Bool) (nargs nresults : ℕ) (s : List Slot)
    → suc nargs ≤ length s
    → Ends
        (λ rc t.
          (rc ≡ 0 → length t + suc nargs ≡ length s + nresults)
          × (rc ≢ 0 → length t + nargs ≡ length s))
        (results fails nargs nresults s)
results-Ends true nargs nresults s h =
    (λ e. absurd (omega arith), λ e. omega (arith, length-drop (suc nargs) s h))
results-Ends false nargs nresults s h = (
  λ e. omega (
    arith,
    length-append (replicate nresults empty) (drop (suc nargs) s),
    length-replicate nresults empty,
    length-drop (suc nargs) s h,
  ),
  λ e. absurd (e refl),
)

abbrev pub scripted :
    Bool → Option (Callback ℤ) → (nargs nresults : ℕ) → List Slot → Script ℤ (List Slot)
scripted fails none nargs nresults s = results fails nargs nresults s
scripted fails (some c) nargs nresults s = ask c (λ r. results fails nargs nresults s)

pub scripted-Ends :
    (fails : Bool) (c : Option (Callback ℤ)) (nargs nresults : ℕ) (s : List Slot)
    → suc nargs ≤ length s
    → Ends
        (λ rc t.
          (rc ≡ 0 → length t + suc nargs ≡ length s + nresults)
          × (rc ≢ 0 → length t + nargs ≡ length s))
        (scripted fails c nargs nresults s)
scripted-Ends fails none nargs nresults s h = results-Ends fails nargs nresults s h
scripted-Ends fails (some c) nargs nresults s h = λ r. results-Ends fails nargs nresults s h

abbrev pub text_at : ℕ → List Slot → Option Bytes
text_at d [] = none
text_at zero (text s ∷ rest) = some s
text_at zero (x ∷ rest) = none
text_at (suc d) (x ∷ rest) = text_at d rest

abbrev pub is_function : List Slot → Bool
is_function (function ∷ s) = true
is_function s = false

abbrev pub stub : (fails : Bool) → Option (Callback ℤ) → Lua
stub fails c = record {
  State = List Slot;
  Number = ℤ;
  of_ℕ = pos;
  to_int = λ n. n;
  to_text = int_to_decimal;
  of_text = λ s. none;
  lua_open = [];
  gettop = length;
  pop = drop;
  pushcfunction = λ s. function ∷ s;
  getglobal = λ name s. function ∷ s;
  isfunction = is_function;
  pushfstring = λ f s. text f ∷ s;
  pushpointer = λ o t s. pointer o ∷ s;
  pcall = λ nargs nresults errfunc s. scripted fails c nargs nresults s;
  dofile = λ path s. done 0 s;
  toboolean = λ s. true;
  tostring = text_at;
  gettop-pop = length-drop;
  gettop-pushcfunction = λ s. omega arith;
  gettop-getglobal = λ name s. omega arith;
  gettop-pushfstring = λ f s. omega arith;
  gettop-pushpointer = λ o t s. omega arith;
  gettop-pcall = λ nargs nresults errfunc s h. scripted-Ends fails c nargs nresults s h;
  tostring-pushfstring = λ f s p. refl;
  tostring-under = λ f d s. refl;
}

-- A host on which everything succeeds, with one configuration file.
abbrev pub host : Host
host = record {
  exists = λ now path. true;
  is_directory = λ now path. false;
  slash = λ d f. d ++ b'/' ∷ f;
  listen = λ now address port. none;
  configure = λ now c. none;
  remote_endpoint = λ now c. some (lit "127.0.0.1", 40000);
  cancel = λ now c. none;
  write_fails = λ now c message. false;
}
