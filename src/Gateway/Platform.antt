-- ===== src/Gateway/Platform.antt =====
-- A platform with one instance, one cluster, one agent and two workspaces, on which the client is
-- tried; its state is the log of the calls that write.
use provider_crossplane_akui.Common.{
  ok, err, if◌then◌else◌, ◌==◌, ℕ, zero, suc, ◌<>◌, String, Bool, true, false, none, some, [], ◌∷◌,
}
use provider_crossplane_akui.Reason.{
  Error, not_found_code, permission_denied_code, foreign, ErrorApi,
}
use provider_crossplane_akui.Json.{null}
use provider_crossplane_akui.Gateway.State.{
  new_workspace_id_cache, successful, Instance, Agent, Workspace, body, chunk, chunks_closed,
  Client, ClientWorld, Method, GatewayApi,
}

-- `foreign 0` has the code NOT_FOUND, `foreign 1` PERMISSION_DENIED.
abbrev pub errors : ErrorApi
errors = record {
  from_error = λ e. elim e [
    | foreign zero m ↦ some (record { code = not_found_code; message = m })
    | foreign (suc n) m ↦ some (record { code = permission_denied_code; message = m })
    | _ ↦ none
  ];
  is_kube_not_found = λ _. false;
  is_forbidden = λ _. false;
  is_unauthorized = λ _. false;
}

abbrev pub instance_a : Instance
instance_a = record { id = "i-1"; workspace_id = ""; rest = null }

abbrev pub agent_a : Agent
agent_a = record { id = "a-1"; name = "east"; reconciliation_status = some successful; rest = null }

abbrev pub home : Workspace
home = record { id = "w-1"; name = "home"; is_default = true }

-- Its name is the ID of the other one.
abbrev pub lab : Workspace
lab = record { id = "w-2"; name = "w-1"; is_default = false }

-- At most `n` attempts.
unfoldable pub attempts : ℕ → (Error → Bool) → Method String Agent → Method String Agent
attempts zero test m w = m w
attempts (suc n) test m w =
    let next = attempts n test m (m w).1 in
    elim (m w).0 [ ok a ↦ (ok a, (m w).1) | err e ↦ if test e then next else (err e, (m w).1) ]

abbrev pub platform : GatewayApi String String
platform = record {
  errors = errors;
  get_instance = λ r s. (if r.id == "i-1" then ok (body instance_a) else err (foreign 0 "no"), s);
  export_instance = λ r s. (ok (some null), s);
  patch_instance = λ r s. (none, s <> " patch " <> r.id);
  apply_instance = λ r s. (none, s <> " apply " <> r.organization_id <> "/" <> r.workspace_id);
  delete_instance = λ r s. (none, s <> " delete " <> r.id);
  get_instance_cluster =
      λ r s. (if r.id == "east" then ok (body agent_a) else err (foreign 1 "denied"), s);
  get_instance_cluster_manifests = λ r s. (ok (chunk "a" (chunk "b" chunks_closed)), s);
  delete_instance_cluster = λ r s. (none, s <> " delete " <> r.id);
  set_cluster_maintenance_mode = λ r s. (none, s);
  get_kargo_instance = λ r s. (ok (body instance_a), s);
  list_kargo_instances = λ o s. (ok (instance_a ∷ []), s);
  export_kargo_instance = λ r s. (ok null, s);
  patch_kargo_instance = λ r s. (none, s);
  apply_kargo_instance = λ r s. (none, s);
  delete_kargo_instance = λ r s. (none, s);
  list_kargo_instance_agents = λ r s. (ok (agent_a ∷ []), s);
  get_kargo_instance_agent = λ r s. (ok (body agent_a), s);
  get_kargo_instance_agent_manifests = λ r s. (ok chunks_closed, s);
  delete_instance_agent = λ r s. (none, s);
  list_workspaces = λ o s. (ok (lab ∷ home ∷ []), s);
  do_with_data = attempts;
}

abbrev pub client : Client
client = record {
  organization_id = "org";
  api_key_id = "key";
  api_key_secret = "secret";
  has_kargo = true;
  has_org = true;
}

abbrev pub fresh : ClientWorld String
fresh = record { remote = ""; cache = some new_workspace_id_cache; writes = some [] }
