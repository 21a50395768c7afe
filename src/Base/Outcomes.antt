-- ===== src/Base/Outcomes.antt =====
-- The outcomes of a get exclude one another, and only a terminal one carries an error.
use provider_crossplane_akui.Common.{◌≡◌, ◌↔◌, true, none, some, arith}
use provider_crossplane_akui.Reason.{Err, is_not_found, ErrorApi}
use provider_crossplane_akui.Managed.{no_observation}
use provider_crossplane_akui.Base.{
  get_ok, get_absent, get_provisioning, get_terminal, classify_get_error,
}

-- `ClassifyGetError` returns an error exactly on the terminal outcome, and then the one that it
-- was given; it says that the resource exists, and is up to date, exactly while it is being
-- provisioned; and only a missing error counts as usable.
classify_get_error_lem :
    (api : ErrorApi) (e : Err)
    → ((classify_get_error api e).2
        ≡ (elim (classify_get_error api e).0 [ get_terminal ↦ e | _ ↦ none ]))
      × ((classify_get_error api e).1 ≡ (elim (classify_get_error api e).0 [
        | get_provisioning ↦ record { resource_exists = true; resource_up_to_date = true }
        | _ ↦ no_observation
      ]))
      × (((classify_get_error api e).0 ≡ get_ok) ↔ (e ≡ none))
      × (((classify_get_error api e).0 ≡ get_absent) ↔ (is_not_found e ≡ true))
unfolding classify_get_error
classify_get_error_lem api none = ground arith
classify_get_error_lem api (some e) = ground arith
