-- ===== src/Utility/Padding.antt =====
-- What `expand` of include/utility.hpp returns.
use grind.Prelude.{
  ℕ, zero, suc, ◌+◌, ◌-◌, ◌≤◌, ◌≡◌, ◌∙◌, inl, inr, [], ◌∷◌, ◌++◌, Bytes, length, replicate,
  length-append, ltb, leb, Bool-cases, arith,
}
use mathlib.Core.List.{append-nil, append_assoc}
use grind.Utility.{expand_loop, expand}

expand_loop-append :
    (f : ℕ) (out : Bytes) (size fill : ℕ)
    → size ≤ f + length out
    → expand_loop f out size fill ≡ out ++ replicate (size - length out) fill
unfolding expand_loop
expand_loop-append zero out size fill h =
    let e : size - length out ≡ 0 = omega arith in rw e (simp append-nil)
expand_loop-append (suc f) out size fill h = elim (Bool-cases (ltb (length out) size)) [
  | inl more ↦
      let e : size - length out ≡ suc (size - length (out ++ fill ∷ [])) =
        ground (arith, length-append out (fill ∷ [])) in
      rw (more, e)
        (expand_loop-append f (out ++ fill ∷ []) size fill
            (omega (arith, length-append out (fill ∷ [])))
          ∙ append_assoc out (fill ∷ []) _)
  | inr full ↦ let e : size - length out ≡ 0 = ground arith in rw (full, e) (simp append-nil)
]

-- `expand` appends exactly as many fill characters as are missing, and never shortens its input.
pub expand-replicate :
    (s : Bytes) (size fill : ℕ) → expand s size fill ≡ s ++ replicate (size - length s) fill
unfolding expand
expand-replicate s size fill = elim (Bool-cases (leb size (length s))) [
  | inl full ↦ let e : size - length s ≡ 0 = ground arith in rw (full, e) (simp append-nil)
  | inr more ↦ rw more (expand_loop-append size s size fill (omega arith))
]
