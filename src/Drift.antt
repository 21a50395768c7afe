-- ===== src/Drift.antt =====
-- internal/controller/base/drift.go and drift_eval.go: whether the desired state matches the
-- observed one. `cmp.Equal` with the merged options is a parameter, and so is the projection to
-- the fields that the user supplied. The two arguments are pointers, so they come back.
mod Decision
mod Tests
use provider_crossplane_akui.Common.{
  Result, ok, err, if◌then◌else◌, Bool, true, false, Option, none, some, List, [], ◌∷◌,
}
use provider_crossplane_akui.Reason.{Error}

pub record DriftSpec (T P : Type 0) : Type 0 where
  pub normalize : Option (T → T → T × T)
  pub presence : Option P
  -- What each side check returns, in order.
  pub side : List (Result Error Bool)

pub record Verdict (T : Type 0) : Type 0 where
  pub up_to_date : Result Error Bool
  pub desired : T
  pub observed : T

-- The loop over the side checks: the first that fails, by an error or by false, decides.
unfoldable pub run_side : List (Result Error Bool) → Result Error Bool
run_side [] = ok true
run_side (err e ∷ rest) = err e
run_side (ok false ∷ rest) = ok false
run_side (ok true ∷ rest) = run_side rest

module _ {T P : Type 0} (equal : T → T → Bool) (project : T → P → T) where
  unfoldable pub normalized : DriftSpec T P → T → T → T × T
  normalized spec desired observed = elim spec.normalize [
    | none ↦ (desired, observed)
    | some f ↦ f desired observed
  ]

  unfoldable pub projected : DriftSpec T P → T × T → T × T
  projected spec (d, o) = elim spec.presence [ none ↦ (d, o) | some p ↦ (project d p, project o p) ]

  -- DriftSpec.UpToDate; EvaluateDrift adds a debug line only.
  unfoldable pub evaluate_drift : DriftSpec T P → T → T → Verdict T
  unfolding normalized projected run_side
  evaluate_drift spec desired observed =
      let (d, o) = projected spec (normalized spec desired observed) in
      record {
        up_to_date = if equal d o then run_side spec.side else ok false;
        desired = d;
        observed = o;
      }
