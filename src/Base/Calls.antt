-- ===== src/Base/Calls.antt =====
-- A sequence of calls: one that may fail leaves the sequence when it does, as the operator ? does.
use mathlib.Core.Path.{◌≡◌, refl}
use mathlib.Core.Bool.{Bool, true, false, not, ◌&&◌}
use mathlib.Core.List.{List, [], ◌∷◌, ◌++◌}
use native.Mathlib.Omega.{arith}
use esp32_universal_control.Base.Lists.{any}

module _ {A : Type 0} (is_fallible succeeds : A → Bool) where
  -- The calls that are made, and whether all of them are.
  unfoldable pub run_calls : List A → List A × Bool
  run_calls [] = ([], true)
  run_calls (call ∷ calls) =
      let (made, done) = run_calls calls in
      elim (is_fallible call && not (succeeds call)) [
        | true ↦ (call ∷ [], false)
        | false ↦ (call ∷ made, done)
      ]

  pub makes_all : (calls : List A) → (run_calls calls).1 ≡ true → (run_calls calls).0 ≡ calls
  unfolding run_calls
  makes_all [] done = refl
  makes_all (call ∷ calls) done = ground (arith, makes_all calls)

  -- A call that stands only behind one that may fail is made only if that one succeeds.
  pub made_after :
      (p : A → Bool) (before : List A) (call : A) (after : List A)
      → is_fallible call ≡ true
      → any p (before ++ call ∷ []) ≡ false
      → any p (run_calls (before ++ call ∷ after)).0 ≡ true
      → succeeds call ≡ true
  unfolding run_calls
  made_after p [] call after fails absent there = ground arith
  made_after p (first ∷ before) call after fails absent there =
      ground (arith, made_after p before call after fails)
