-- ===== src/Gateway/Named.antt =====
-- The agent that a get by its name returns.
use provider_crossplane_akui.Common.{
  ok, Result-cases, Bool-cases, Option-cases, ◌==◌, ==_iff, ◌≡◌, ◌≢◌, ◌⊎◌, inl, inr, String, some,
  List, [], ◌∷◌, arith,
}
use provider_crossplane_akui.Gateway.State.{
  unspecified, Agent, body, Client, ClientWorld, GatewayApi,
}
use provider_crossplane_akui.Gateway.Gets.{has_not_found_code, code_of}
use provider_crossplane_akui.Gateway.Workspaces.{kargo_workspace_id_for_instance}
use provider_crossplane_akui.Gateway.Argo.{agent_request}
use provider_crossplane_akui.Gateway.Kargo.{
  find_agent_id, choose_kargo_agent_id, resolve_kargo_agent_id_by_name, read_kargo_agent,
  get_kargo_agent_by_id, get_kargo_instance_agent,
}

-- Of the agents of a list, the one that has the name, and whose ID is chosen, is the first.
abbrev pub IsFirstNamed : String → String → List Agent → Type 0
IsFirstNamed name id [] = ⊥
IsFirstNamed name id (a ∷ as') =
    ((a.name ≡ name) × (a.id ≡ id)) ⊎ (a.name ≢ name) × IsFirstNamed name id as'

find_agent_id-IsFirstNamed :
    (name id : String) (as' : List Agent)
    → find_agent_id name as' ≡ some id
    → IsFirstNamed name id as'
unfolding find_agent_id
find_agent_id-IsFirstNamed name id [] h = absurd (ground (arith, h))
find_agent_id-IsFirstNamed name id (a ∷ as') h = elim (Bool-cases (a.name == name)) [
  | inl e ↦ inl ((==_iff a.name name).0 e, ground (arith, h, e))
  | inr e ↦ inr (
    ground (arith, e, ==_iff a.name name),
    find_agent_id-IsFirstNamed name id as' (ground (arith, h, e)),
  )
]

module _ {S T : Type 0} (api : GatewayApi S T) (c : Client) where
  resolve_kargo_agent_id_by_name-IsFirstNamed :
      (instance_id name ws id : String) (v : ClientWorld S)
      → (resolve_kargo_agent_id_by_name api c instance_id name ws v).0 ≡ ok id
      → (agents : List Agent) × ((api.list_kargo_instance_agents
            (agent_request api c instance_id ws unspecified "")
            v.remote).0
          ≡ ok agents)
        × IsFirstNamed name id agents
  unfolding resolve_kargo_agent_id_by_name choose_kargo_agent_id
  resolve_kargo_agent_id_by_name-IsFirstNamed instance_id name ws id v h =
      elim (Result-cases
        (api.list_kargo_instance_agents (agent_request api c instance_id ws unspecified "")
          v.remote).0) [
            | inr (e, g) ↦ absurd (elim (Bool-cases (has_not_found_code (code_of api c e))) [
              | inl k ↦ ground (arith, h, g, k)
              | inr k ↦ ground (arith, h, g, k)
            ])
            | inl (as', g) ↦ elim (Option-cases (find_agent_id name as')) [
              | inl k ↦ absurd (ground (arith, h, g, k))
              | inr (x, k) ↦
                  (as', g, find_agent_id-IsFirstNamed name id as' (ground (arith, h, g, k)))
            ]
          ]

  resolve_kargo_agent_id_by_name-remote :
      (instance_id name ws : String) (v : ClientWorld S)
      → (resolve_kargo_agent_id_by_name api c instance_id name ws v).1.remote
        ≡ (api.list_kargo_instance_agents
            (agent_request api c instance_id ws unspecified "")
            v.remote).1
  unfolding resolve_kargo_agent_id_by_name
  resolve_kargo_agent_id_by_name-remote instance_id name ws v = ground arith

  get_kargo_agent_by_id-body :
      (instance_id name ws id : String) (a : Agent) (u : ClientWorld S)
      → (get_kargo_agent_by_id api c instance_id name ws id u).0 ≡ ok a
      → (api.get_kargo_instance_agent
          (agent_request api c instance_id ws unspecified id)
          u.remote).0
        ≡ ok (body a)
  unfolding get_kargo_agent_by_id read_kargo_agent
  get_kargo_agent_by_id-body instance_id name ws id a u h = ground (arith, h)

  -- `GetKargoInstanceAgent` returns what the gateway holds under the ID of the first agent of the
  -- instance that has the name, looked up in the workspace of the instance.
  pub get_kargo_instance_agent-IsFirstNamed :
      (instance_id name : String) (a : Agent) (w : ClientWorld S)
      → (get_kargo_instance_agent api c instance_id name w).0 ≡ ok a
      → (ws : String) × (v : ClientWorld S) × (agents : List Agent) × (s : S) × (id : String)
        × (kargo_workspace_id_for_instance api c instance_id w ≡ (ok ws, v))
        × (api.list_kargo_instance_agents
              (agent_request api c instance_id ws unspecified "")
              v.remote
            ≡ (ok agents, s))
        × IsFirstNamed name id agents
        × ((api.get_kargo_instance_agent (agent_request api c instance_id ws unspecified id) s).0
            ≡ ok (body a))
  unfolding get_kargo_instance_agent
  get_kargo_instance_agent-IsFirstNamed instance_id name a w h =
      let m = kargo_workspace_id_for_instance api c instance_id w in
      elim (Bool-cases c.has_kargo) [
        | inr o ↦ absurd (ground (arith, o, h))
        | inl o ↦ elim (Result-cases m.0) [
          | inr (e, g) ↦ absurd (ground (arith, o, h, g))
          | inl (ws, g) ↦
              let r = resolve_kargo_agent_id_by_name api c instance_id name ws m.1 in
              elim (Result-cases r.0) [
                | inr (e, k) ↦ absurd (ground (arith, o, h, g, k))
                | inl (id, k) ↦
                    let (agents, l, first) =
                      resolve_kargo_agent_id_by_name-IsFirstNamed instance_id name ws id m.1 k in
                    (
                      ws,
                      m.1,
                      agents,
                      r.1.remote,
                      id,
                      ground (arith, g),
                      ground
                          (arith, l, resolve_kargo_agent_id_by_name-remote instance_id name ws m.1),
                      first,
                      get_kargo_agent_by_id-body instance_id name ws id a r.1
                          (ground (arith, o, h, g, k)),
                    )
              ]
        ]
      ]
