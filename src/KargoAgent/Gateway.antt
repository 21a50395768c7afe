-- ===== src/KargoAgent/Gateway.antt =====
-- The client of the gateways as the client of the controller of Kargo agents.
use provider_crossplane_akui.Common.{Option, List}
use provider_crossplane_akui.Common.Exec.{pure, ◌>>=◌}
use provider_crossplane_akui.Json.{Json}
use provider_crossplane_akui.Gateway.State.{Agent, Client, ClientWorld, GatewayApi}
use provider_crossplane_akui.Gateway.Gets.{get_kargo_instance}
use provider_crossplane_akui.Gateway.Kargo.{
  export_kargo_instance, apply_kargo_instance, get_kargo_instance_agent,
  get_kargo_instance_agent_manifests, delete_kargo_instance_agent,
}
use provider_crossplane_akui.KargoAgent.World.{ProtoAgent, KargoClient}

-- `agent_of` and `agents_of` read the messages that the client passes on.
abbrev pub gateway_client :
    {S T Tm : Type 0}
    → GatewayApi S T
    → Client
    → (Agent → ProtoAgent Tm)
    → (Json → List (Option Json))
    → KargoClient (ClientWorld S) Tm
gateway_client api c agent_of agents_of = record {
  get_agent =
      λ id name. get_kargo_instance_agent api c id name >>= λ (a : Agent). pure (agent_of a);
  apply = apply_kargo_instance api c;
  export_agents = λ name workspace.
      export_kargo_instance api c name workspace >>= λ (x : Json). pure (agents_of x);
  delete_agent = delete_kargo_instance_agent api c;
  get_manifests = get_kargo_instance_agent_manifests api c;
  get_instance_id = λ name. get_kargo_instance api c name >>= λ i. pure i.id;
}
