-- ===== src/Reason/Tests.antt =====
-- Runs of the classification on concrete errors.
use provider_crossplane_akui.Common.{zero, suc, ◌≡◌, refl, true, false, not, ◌&&◌, ◌||◌, none, some}
use provider_crossplane_akui.Reason.{
  invalid_argument, terminal, Error, new, marked, foreign, text, is_kind, is_terminal, ErrorApi,
  is_retryable_grpc, is_retryable, is_provisioning_wait, classify_apply_error,
  is_manifest_reconciliation_wait, classify_manifest_install_error,
}
use provider_crossplane_akui.Reason.Classify.{
  is_terminal-classify_apply_error, classify_apply_error-provisioning,
}

-- The error 0 has a status of bad input, 1 is a resource that is still being provisioned, and 2
-- comes from the network.
abbrev grpc : ErrorApi
grpc = record {
  from_error = λ e. elim e [
    | foreign zero m ↦ some (record { code = invalid_argument; message = m })
    | foreign (suc zero) m ↦ some (record { code = invalid_argument; message = m })
    | _ ↦ none
  ];
  is_kube_not_found = λ _. false;
  is_forbidden = λ _. false;
  is_unauthorized = λ _. false;
}

abbrev bad_input : Error
bad_input = foreign 0 "unknown field spec.shard"

abbrev waiting : Error
waiting = foreign 1 "instance is still being provisioned"

abbrev network : Error
network = foreign 2 "dial tcp: connection refused"

marks_bad_input : classify_apply_error grpc (some bad_input) ≡ some (marked terminal bad_input)
unfolding classify_apply_error is_kind is_retryable is_retryable_grpc text
marks_bad_input = refl

keeps_network : classify_apply_error grpc (some network) ≡ some network
unfolding classify_apply_error is_kind is_retryable is_retryable_grpc text
keeps_network = refl

install_gives_up :
    classify_manifest_install_error grpc (some (new "no")) ≡ some (marked terminal (new "no"))
unfolding classify_manifest_install_error is_kind is_retryable is_retryable_grpc text
    is_manifest_reconciliation_wait
install_gives_up = refl

is_terminal-classify_apply_error_example :
    is_terminal (classify_apply_error grpc (some bad_input))
    ≡ (is_kind terminal bad_input || (not (is_retryable grpc (some bad_input)) && true))
is_terminal-classify_apply_error_example = is_terminal-classify_apply_error grpc bad_input

is_waiting : is_provisioning_wait grpc (some waiting) ≡ true
unfolding is_provisioning_wait
is_waiting = refl

is_not_terminal : is_kind terminal waiting ≡ false
unfolding is_kind
is_not_terminal = refl

classify_apply_error-provisioning_example :
    (classify_apply_error grpc (some waiting) ≡ some waiting)
    × (is_retryable grpc (some waiting) ≡ true)
classify_apply_error-provisioning_example =
    classify_apply_error-provisioning grpc waiting is_waiting is_not_terminal
