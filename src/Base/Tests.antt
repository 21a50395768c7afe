-- ===== src/Base/Tests.antt =====
-- A get that finds nothing.
use provider_crossplane_akui.Common.{◌≡◌, refl, false, none, some}
use provider_crossplane_akui.Reason.{not_found, new, marked, Err, is_kind, ErrorApi}
use provider_crossplane_akui.Base.{get_absent, classify_get_error}

abbrev silent : ErrorApi
silent = record {
  from_error = λ _. none;
  is_kube_not_found = λ _. false;
  is_forbidden = λ _. false;
  is_unauthorized = λ _. false;
}

abbrev missing : Err
missing = some (marked not_found (new "no such instance"))

finds_nothing : (classify_get_error silent missing).0 ≡ get_absent
unfolding classify_get_error is_kind
finds_nothing = refl
