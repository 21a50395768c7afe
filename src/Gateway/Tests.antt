-- ===== src/Gateway/Tests.antt =====
-- Tests of the client, on a small platform.
use provider_crossplane_akui.Common.{
  ok, ℕ, zero, suc, String, ◌≡◌, ◌≢◌, refl, inl, inr, Bool, true, false, none, some, List, [], ◌∷◌,
  arith, Result-cases, Bool-cases,
}
use provider_crossplane_akui.Reason.{Error, new}
use provider_crossplane_akui.Json.{null}
use provider_crossplane_akui.Gateway.State.{
  get_entry, set_entry, new_workspace_id_cache, unspecified, by_id, Agent, body, ApplyRequest,
  Receives, chunk, nil_error, errors_closed, ClientWorld, Method, inc_api_write,
}
use provider_crossplane_akui.Gateway.Gets.{
  scan_workspaces, get_instance, get_instance_by_id, choose_workspace, resolve_workspace,
  new_client,
}
use provider_crossplane_akui.Gateway.Workspaces.{
  resolve_workspace_id, argo_workspace_id_for_instance, argo_workspace_id_for_apply,
  kargo_workspace_id_for_instance,
}
use provider_crossplane_akui.Gateway.Manifests.{
  get_manifests_from_response, is_reconciled, reconciled_or_raise,
}
use provider_crossplane_akui.Gateway.Argo.{
  agent_request, read_cluster, get_cluster, get_cluster_manifests_once, check_cluster_reconciled,
  get_cluster_manifests, delete_cluster, filled, apply_instance,
}
use provider_crossplane_akui.Gateway.Kargo.{
  find_agent_id, choose_kargo_agent_id, resolve_kargo_agent_id_by_name, read_kargo_agent,
  get_kargo_agent_by_id, get_kargo_instance_agent,
}
use provider_crossplane_akui.Gateway.Platform.{
  agent_a, home, lab, attempts, platform, client, fresh,
}
use provider_crossplane_akui.Gateway.Reads.{HasPureReads}
use provider_crossplane_akui.Gateway.Transparent.{IsSound, IsTransparent}
use provider_crossplane_akui.Gateway.Instances.{lookups-IsTransparent}
use provider_crossplane_akui.Gateway.Precedence.{named_workspace, IsFound, resolve_workspace-named}
use provider_crossplane_akui.Gateway.Streams.{
  Serves, next_chunk, next_nil, last_error, IsServed, get_manifests_from_response-Serves,
  get_manifests_from_response-loses, concat,
}
use provider_crossplane_akui.Gateway.Absent.{is_absent, gets-is_absent}
use provider_crossplane_akui.Gateway.Calls.{delete_cluster-found, apply_instance-scoped}
use provider_crossplane_akui.Gateway.Waits.{
  Retries, manifests_request, get_cluster_manifests-is_reconciled,
}
use provider_crossplane_akui.Gateway.Named.{IsFirstNamed, get_kargo_instance_agent-IsFirstNamed}
use provider_crossplane_akui.Gateway.Defaults.{resolve_workspace_id-collides}

platform-HasPureReads : HasPureReads platform
platform-HasPureReads = record {
  get_instance_keeps = λ r s. refl;
  list_workspaces_keeps = λ o s. refl;
}

fresh-IsSound : IsSound platform client fresh
unfolding get_entry
fresh-IsSound = record {
  refs_sound = λ ref id p h. absurd (ground (arith, h));
  argo_sound = λ i id h. absurd (ground (arith, h));
}

lookups-IsTransparent_example :
    IsTransparent platform client platform-HasPureReads
      (resolve_workspace_id platform client "home")
      fresh
    × IsTransparent platform client platform-HasPureReads
        (argo_workspace_id_for_instance platform client "i-1")
        fresh
lookups-IsTransparent_example =
    lookups-IsTransparent platform client platform-HasPureReads "home" "i-1" fresh refl
      fresh-IsSound

-- The ID goes before the name.
resolve_workspace-named_example :
    IsFound
      (named_workspace "w-1" (lab ∷ home ∷ []))
      (resolve_workspace platform client "w-1" fresh).0
resolve_workspace-named_example =
    resolve_workspace-named platform client "w-1" (lab ∷ home ∷ []) fresh refl refl

the_id_first : (resolve_workspace platform client "w-1" fresh).0 ≡ ok home
unfolding resolve_workspace choose_workspace scan_workspaces
the_id_first = refl

get_manifests_from_response-Serves_example :
    (get_manifests_from_response "" (nil_error (chunk "a" errors_closed)) ≡ ok "a")
    × IsServed ("a" ∷ "b" ∷ []) (none ∷ []) (nil_error (chunk "a" errors_closed))
get_manifests_from_response-Serves_example =
    get_manifests_from_response-Serves ("a" ∷ "b" ∷ []) (none ∷ [])
      (nil_error (chunk "a" errors_closed)) (next_nil (next_chunk last_error))

get_manifests_from_response-loses_example :
    ((r : Receives) × Serves ("a" ∷ "b" ∷ []) [] r × (get_manifests_from_response "" r ≡ ok ""))
    × ((r : Receives) × Serves ("a" ∷ "b" ∷ []) (some (new "reset") ∷ []) r
        × (get_manifests_from_response "" r ≡ ok (concat ("a" ∷ "b" ∷ []))))
get_manifests_from_response-loses_example =
    get_manifests_from_response-loses ("a" ∷ "b" ∷ []) (new "reset") []

abbrev stored : ClientWorld String
stored = record {
  remote = "";
  cache = some (record new_workspace_id_cache { argo_by_instance = ("i-1", "w-1") ∷ [] });
  writes = some [];
}

gets-is_absent_example :
    (is_absent (get_instance platform client "west" stored).0 ≡ true)
    × (is_absent (get_instance_by_id platform client "i-1" stored).0 ≡ false)
    × (is_absent (get_cluster platform client "i-1" "west" stored).0 ≡ true)
unfolding argo_workspace_id_for_instance get_entry
gets-is_absent_example = gets-is_absent platform client "i-1" "west" "w-1" stored stored refl

delete_cluster-found_example :
    (a : Agent) × (ws : String) × (v : ClientWorld String) × ((get_cluster platform client "i-1"
        "east" stored).0
      ≡ ok a)
    × (argo_workspace_id_for_instance platform client "i-1"
          (get_cluster platform client "i-1" "east" stored).1
        ≡ (ok ws, v))
    × (platform.delete_instance_cluster
          (agent_request platform client "i-1" ws unspecified a.id)
          v.remote
        ≡ (none, (delete_cluster platform client "i-1" "east" stored).1.remote))
unfolding delete_cluster get_cluster read_cluster argo_workspace_id_for_instance get_entry
    inc_api_write
delete_cluster-found_example = delete_cluster-found platform client "i-1" "east" stored refl

abbrev request : ApplyRequest
request = record {
  organization_id = "";
  id_type = by_id;
  id = "i-1";
  workspace_id = "";
  rest = null;
}

apply_instance-scoped_example :
    (sent : ApplyRequest) × (v : ClientWorld String) × (platform.apply_instance sent v.remote
      ≡ (none, (apply_instance platform client request stored).1.remote))
    × (argo_workspace_id_for_apply platform client (filled platform client request) stored
        ≡ (ok sent.workspace_id, v))
    × (sent.organization_id ≢ "")
    × (sent.organization_id ≡ "org")
    × (sent.id_type ≡ by_id)
    × (sent.id ≡ "i-1")
    × (sent.rest ≡ null)
unfolding new_client apply_instance filled argo_workspace_id_for_apply
    argo_workspace_id_for_instance get_entry inc_api_write
apply_instance-scoped_example =
    apply_instance-scoped platform "org" "key" "secret" true true client new_workspace_id_cache
      request stored refl refl

-- A loop of attempts returns what one of them returned.
attempts-from_attempt :
    (n : ℕ) (test : Error → Bool) (m : Method String Agent) (w : ClientWorld String) (a : Agent)
    → (attempts n test m w).0 ≡ ok a
    → (v : ClientWorld String) × (m v ≡ (ok a, (attempts n test m w).1))
unfolding attempts
attempts-from_attempt zero test m w a h = (w, ground (arith, h))
attempts-from_attempt (suc n) test m w a h = elim (Result-cases (m w).0) [
  | inl (b, g) ↦ (w, ground (arith, h, g))
  | inr (e, g) ↦ elim (Bool-cases (test e)) [
    | inr t ↦ absurd (ground (arith, h, g, t))
    | inl t ↦
        let (v, k) = attempts-from_attempt n test m (m w).1 a (ground (arith, h, g, t)) in
        (v, ground (arith, k, g, t))
  ]
]

platform-Retries : Retries platform
platform-Retries = record { from_attempt = attempts-from_attempt }

get_cluster_manifests-is_reconciled_example :
    (a : Agent) × (v : ClientWorld String) × ((get_cluster platform client "i-1" "east" v).0 ≡ ok a)
    × (is_reconciled a.reconciliation_status ≡ true)
    × (ws : String) × (u : ClientWorld String) × (stream : Receives)
    × (argo_workspace_id_for_instance platform client "i-1"
          (check_cluster_reconciled platform client "i-1" "east" stored).1
        ≡ (ok ws, u))
    × ((platform.get_instance_cluster_manifests
          (manifests_request platform client platform-Retries "i-1" ws a.id)
          u.remote).0
        ≡ ok stream)
    × (get_manifests_from_response "" stream ≡ ok "ab")
unfolding attempts get_cluster_manifests check_cluster_reconciled reconciled_or_raise
    get_cluster_manifests_once get_cluster read_cluster argo_workspace_id_for_instance get_entry
    get_manifests_from_response
get_cluster_manifests-is_reconciled_example =
    get_cluster_manifests-is_reconciled platform client platform-Retries "i-1" "east" "ab" stored
      refl

abbrev kargo : ClientWorld String
kargo = record {
  remote = "";
  cache = some (record new_workspace_id_cache { kargo_by_instance = ("i-1", "w-1") ∷ [] });
  writes = none;
}

get_kargo_instance_agent-IsFirstNamed_example :
    (ws : String) × (v : ClientWorld String) × (agents : List Agent) × (s : String) × (id : String)
    × (kargo_workspace_id_for_instance platform client "i-1" kargo ≡ (ok ws, v))
    × (platform.list_kargo_instance_agents
          (agent_request platform client "i-1" ws unspecified "")
          v.remote
        ≡ (ok agents, s))
    × IsFirstNamed "east" id agents
    × ((platform.get_kargo_instance_agent
          (agent_request platform client "i-1" ws unspecified id)
          s).0
        ≡ ok (body agent_a))
unfolding get_kargo_instance_agent kargo_workspace_id_for_instance get_entry
    resolve_kargo_agent_id_by_name choose_kargo_agent_id find_agent_id get_kargo_agent_by_id
    read_kargo_agent
get_kargo_instance_agent-IsFirstNamed_example =
    get_kargo_instance_agent-IsFirstNamed platform client "i-1" "east" agent_a kargo refl

resolve_workspace_id-collides_example :
    resolve_workspace_id platform client "<default>"
      (resolve_workspace_id platform client "" fresh).1
    ≡ (ok "w-1", (resolve_workspace_id platform client "" fresh).1)
unfolding resolve_workspace_id get_entry set_entry resolve_workspace choose_workspace
    scan_workspaces
resolve_workspace_id-collides_example =
    resolve_workspace_id-collides platform client new_workspace_id_cache fresh "w-1" refl refl refl
