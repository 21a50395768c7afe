-- ===== src/Gateway/Absent.antt =====
-- When a get of the client says that what it looks for is absent: the reconciler then creates it.
use provider_crossplane_akui.Common.{
  Result, ok, err, ◌≡◌, String, Bool, true, false, ◌||◌, none, some, arith,
}
use provider_crossplane_akui.Reason.{
  Error, Code, not_found_code, permission_denied_code, is_kind, is_not_found,
}
use provider_crossplane_akui.Gateway.State.{by_name, by_id, Client, ClientWorld, GatewayApi}
use provider_crossplane_akui.Gateway.Gets.{
  read_instance, get_instance, read_instance_by_id, get_instance_by_id,
}
use provider_crossplane_akui.Gateway.Workspaces.{argo_workspace_id_for_instance}
use provider_crossplane_akui.Gateway.Argo.{agent_request, read_cluster, get_cluster}

abbrev pub is_not_found_code : Code → Bool
is_not_found_code not_found_code = true
is_not_found_code _ = false

abbrev pub is_permission_denied_code : Code → Bool
is_permission_denied_code permission_denied_code = true
is_permission_denied_code _ = false

-- The error is a "not found" error.
abbrev pub is_absent : {A : Type 0} → Result Error A → Bool
is_absent (ok a) = false
is_absent (err e) = is_not_found (some e)

module _ {S T : Type 0} (api : GatewayApi S T) (c : Client) where
  -- The status of an error has a code.
  abbrev pub has_status : (Code → Bool) → Error → Bool
  has_status p e = elim (api.errors.from_error e) [ none ↦ false | some s ↦ p s.code ]

  -- The gateway failed, with the code NOT_FOUND or an error that is itself "not found".
  abbrev pub says_not_found : {A : Type 0} → Result Error A → Bool
  says_not_found (ok a) = false
  says_not_found (err e) = has_status is_not_found_code e || is_not_found (some e)

  -- As before, or with the code PERMISSION_DENIED.
  abbrev pub says_missing : {A : Type 0} → Result Error A → Bool
  says_missing (ok a) = false
  says_missing (err e) =
      has_status (λ (k : Code). is_not_found_code k || is_permission_denied_code k) e
      || is_not_found (some e)

  -- A get of an Argo CD instance, by name or by ID, says that it is absent exactly if the gateway
  -- failed with the status NOT_FOUND or with an error that is itself marked "not found"; a get of a
  -- cluster, once the workspace of its instance is found, exactly if it failed so or with the
  -- status PERMISSION_DENIED. An answer without a body is another error.
  pub gets-is_absent :
      (instance_id name ws : String) (w v : ClientWorld S)
      → argo_workspace_id_for_instance api c instance_id w ≡ (ok ws, v)
      → (is_absent (get_instance api c name w).0
          ≡ says_not_found (
              (api.get_instance
                (record { organization_id = c.organization_id; id_type = by_name; id = name })
                w.remote).0))
        × (is_absent (get_instance_by_id api c instance_id w).0
            ≡ says_not_found (
                (api.get_instance
                  (record {
                    organization_id = c.organization_id;
                    id_type = by_id;
                    id = instance_id;
                  })
                  w.remote).0))
        × (is_absent (get_cluster api c instance_id name w).0
            ≡ says_missing (
                (api.get_instance_cluster
                  (agent_request api c instance_id ws by_name name)
                  v.remote).0))
  unfolding get_instance read_instance get_instance_by_id read_instance_by_id get_cluster
      read_cluster is_kind
  gets-is_absent instance_id name ws w v h = (ground arith, ground arith, ground (arith, h))
