-- ===== src/Reason/Classify.antt =====
-- Which errors of a write are terminal, and that the classification is final.
use provider_crossplane_akui.Common.{
  String, ◌≡◌, refl, ◌≢◌, Bool, true, false, not, ◌&&◌, ◌||◌, Option, none, some, arith,
}
use provider_crossplane_akui.Reason.{
  invalid_argument, permission_denied_code, Status, terminal, Error, Err, text, is_kind,
  is_terminal, ErrorApi, is_retryable_grpc, is_retryable, is_provisioning_wait,
  classify_apply_error, classify_manifest_install_error,
}

-- A code that tells bad input.
abbrev is_bad_input : Option Status → Bool
is_bad_input none = false
is_bad_input (some s) = elim s.code [
  | invalid_argument ↦ true
  | permission_denied_code ↦ true
  | _ ↦ false
]

abbrev pub err_text : Err → Option String
err_text none = none
err_text (some e) = some (text e)

module _ (api : ErrorApi) where
  -- After `ClassifyApplyError` an error is terminal exactly if it was before, or if it is not
  -- retryable and its status has a code of bad input.
  pub is_terminal-classify_apply_error :
      (e : Error)
      → is_terminal (classify_apply_error api (some e)) ≡ (
          is_kind terminal e
          || (not (is_retryable api (some e)) && is_bad_input (api.from_error e)))
  unfolding classify_apply_error is_kind
  is_terminal-classify_apply_error e = ground arith

  -- `ClassifyApplyError` adds nothing when it is applied again, and never changes the text of an
  -- error.
  classify_apply_error_idem :
      (e : Err)
      → (classify_apply_error api (classify_apply_error api e) ≡ classify_apply_error api e)
        × (err_text (classify_apply_error api e) ≡ err_text e)
  unfolding classify_apply_error is_kind text
  classify_apply_error_idem none = (refl, refl)
  classify_apply_error_idem (some e) = (ground arith, ground arith)

  -- While a resource is still being provisioned a failed write stays retryable:
  -- `ClassifyApplyError` returns an error that is not terminal yet unchanged.
  pub classify_apply_error-provisioning :
      (e : Error)
      → is_provisioning_wait api (some e) ≡ true
      → is_kind terminal e ≡ false
      → (classify_apply_error api (some e) ≡ some e) × (is_retryable api (some e) ≡ true)
  unfolding classify_apply_error is_provisioning_wait is_retryable is_retryable_grpc
  classify_apply_error-provisioning e h t = (ground arith, ground arith)

  -- `ClassifyManifestInstallError` leaves no error undecided: each is terminal or retryable after
  -- it, with the same text, and a second application changes nothing.
  pub classify_manifest_install_error_decides :
      (e : Error)
      → ((is_terminal (classify_manifest_install_error api (some e))
            || is_retryable api (classify_manifest_install_error api (some e)))
          ≡ true)
        × (err_text (classify_manifest_install_error api (some e)) ≡ some (text e))
        × (classify_manifest_install_error api (classify_manifest_install_error api (some e))
            ≡ classify_manifest_install_error api (some e))
  unfolding classify_manifest_install_error is_kind text is_retryable
  classify_manifest_install_error_decides e = (ground arith, ground arith, ground arith)

  pub classify_apply_error-ne-none : (e : Error) → classify_apply_error api (some e) ≢ none
  unfolding classify_apply_error
  classify_apply_error-ne-none e = ground arith
