-- ===== src/Drift/Tests.antt =====
-- Verdicts on numbers, with side checks that fail.
use provider_crossplane_akui.Common.{
  ok, err, if◌then◌else◌, ltb, nat_eq, ℕ, ◌≡◌, refl, true, false, none, some, [], ◌∷◌,
}
use provider_crossplane_akui.Reason.{new}
use provider_crossplane_akui.Drift.{DriftSpec, run_side, normalized, projected, evaluate_drift}

abbrev keep : ℕ → Unit {0} → ℕ
keep n _ = n

-- The normaliser forgets the observed number's surplus.
abbrev spec : DriftSpec ℕ (Unit {0})
spec = record {
  normalize = some (λ d o. (d, if ltb d o then d else o));
  presence = none;
  side = ok true ∷ err (new "no secret") ∷ ok false ∷ [];
}

stops_at_error : (evaluate_drift nat_eq keep spec 3 5).up_to_date ≡ err (new "no secret")
unfolding evaluate_drift normalized projected run_side
stops_at_error = refl
