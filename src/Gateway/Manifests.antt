-- ===== src/Gateway/Manifests.antt =====
-- internal/clients/akuity/client.go: the loop that collects a stream of manifests, and the wait for
-- a reconciliation.
use provider_crossplane_akui.Common.{
  Result, ok, err, if◌then◌else◌, ℕ, String, ◌<>◌, Bool, true, false, ◌||◌, Option, none, some,
}
use provider_crossplane_akui.Common.Exec.{pure, raise, ◌>>=◌}
use provider_crossplane_akui.Reason.{
  Error, new, wrap, ErrorApi, unavailable_code, is_not_found, as_not_reconciled, is_not_reconciled,
}
use provider_crossplane_akui.Gateway.State.{
  ReconciliationCode, successful, failed, Agent, Receives, chunk, nil_error, server_error,
  chunks_closed, errors_closed, Method,
}

-- getManifestsFromResponse, from the manifests collected so far: a closed channel ends the loop.
unfoldable pub get_manifests_from_response : String → Receives → Result Error String
get_manifests_from_response manifests (chunk s r) = get_manifests_from_response (manifests <> s) r
get_manifests_from_response manifests (nil_error r) = get_manifests_from_response manifests r
get_manifests_from_response manifests (server_error e) =
    err (wrap "could not get cluster manifests from Akuity API, error" e)
get_manifests_from_response manifests chunks_closed = ok manifests
get_manifests_from_response manifests errors_closed = ok manifests

-- waitForReconciliationRetryAttempts
abbrev pub retry_attempts : ℕ
retry_attempts = 5

abbrev pub is_reconciled : Option ReconciliationCode → Bool
is_reconciled (some successful) = true
is_reconciled (some failed) = true
is_reconciled _ = false

unfoldable pub cluster_not_found_or_reconciled_error : Error → Bool
cluster_not_found_or_reconciled_error e = is_not_found (some e) || is_not_reconciled (some e)

unfoldable pub kargo_agent_not_found_or_reconciled_error : ErrorApi → Error → Bool
kargo_agent_not_found_or_reconciled_error errors e =
    if is_not_found (some e) || is_not_reconciled (some e)
    then true
    else elim (errors.from_error e) [
      | none ↦ false
      | some s ↦ elim s.code [ unavailable_code ↦ true | _ ↦ false ]
    ]

-- One attempt of a wait: the agent, if it is reconciled.
unfoldable pub reconciled_or_raise : {S : Type 0} → String → Method S Agent → Method S Agent
reconciled_or_raise what get = do
  a ← get
  if is_reconciled a.reconciliation_status
      then pure a
      else raise (as_not_reconciled (new (what <> " has not yet been reconciled")))
