-- ===== src/Drift/Decision.antt =====
-- What a verdict of drift rests on.
use provider_crossplane_akui.Common.{
  Result, ok, err, if◌then◌else◌, Bool-cases, All, ◌≡◌, refl, ◌≢◌, ◌↔◌, inl, inr, Bool, true, false,
  List, [], ◌∷◌, ◌++◌,
}
use provider_crossplane_akui.Reason.{Error}
use provider_crossplane_akui.Drift.{DriftSpec, run_side, normalized, projected, evaluate_drift}

abbrev pub AllPassed : List (Result Error Bool) → Type 0
AllPassed = All (λ r. r ≡ ok true)

run_side-AllPassed : (side : List (Result Error Bool)) → (run_side side ≡ ok true) ↔ AllPassed side
unfolding run_side
run_side-AllPassed [] = (λ _. tt, λ _. refl)
run_side-AllPassed (err e ∷ rest) = (λ h. cc, λ h. cc)
run_side-AllPassed (ok false ∷ rest) = (λ h. cc, λ h. cc)
run_side-AllPassed (ok true ∷ rest) =
    (λ h. (refl, (run_side-AllPassed rest).0 h), λ h. (run_side-AllPassed rest).1 h.1)

-- The first check that does not pass, if the checks before it pass.
run_side-first :
    (before after : List (Result Error Bool)) (r : Result Error Bool)
    → AllPassed before
    → r ≢ ok true
    → run_side (before ++ (r ∷ after)) ≡ r
unfolding run_side
run_side-first [] after (err e) h n = refl
run_side-first [] after (ok false) h n = refl
run_side-first [] after (ok true) h n = absurd (n refl)
run_side-first (b ∷ before) after r h n = rw h.0 (run_side-first before after r h.1 n)

module _ {T P : Type 0} (equal : T → T → Bool) (project : T → P → T) where
  abbrev pub compared : DriftSpec T P → T → T → T × T
  compared spec d o = projected equal project spec (normalized equal project spec d o)

  -- A resource is up to date exactly if the normalised, projected states compare equal and every
  -- side check returns true.
  pub evaluate_drift-up_to_date :
      (spec : DriftSpec T P) (d o : T)
      → ((evaluate_drift equal project spec d o).up_to_date ≡ ok true)
        ↔ ((equal (compared spec d o).0 (compared spec d o).1 ≡ true) × AllPassed spec.side)
  unfolding evaluate_drift
  evaluate_drift-up_to_date spec d o = (
    λ h. elim (Bool-cases (equal (compared spec d o).0 (compared spec d o).1)) [
      | inl e ↦ (e, (run_side-AllPassed spec.side).0 (rw e at h))
      | inr e ↦ absurd (cc (rw e at h))
    ],
    λ h. rw h.0 ((run_side-AllPassed spec.side).1 h.1),
  )

  -- States that differ are drift whatever the side checks would say, even an error; of states
  -- that compare equal the first side check that does not pass gives the verdict.
  pub evaluate_drift-first :
      (spec : DriftSpec T P) (d o : T) (before after : List (Result Error Bool))
      (r : Result Error Bool)
      → spec.side ≡ before ++ (r ∷ after)
      → AllPassed before
      → r ≢ ok true
      → (evaluate_drift equal project spec d o).up_to_date
        ≡ (if equal (compared spec d o).0 (compared spec d o).1 then r else ok false)
  unfolding evaluate_drift
  evaluate_drift-first spec d o before after r s h n = rw (s, run_side-first before after r h n)
