-- ===== src/ShardAgent/State.antt =====
-- internal/controller/kargodefaultshardagent: the resource, the world and the patch of a pin.
use provider_crossplane_akui.Common.{Result, String, Option}
use provider_crossplane_akui.Reason.{Error, Err, ErrorApi}
use provider_crossplane_akui.Managed.{Meta, Observation}
use provider_crossplane_akui.Guard.{Guard}
use provider_crossplane_akui.Json.{Json, str, obj, end, field}

pub record KargoDefaultShardAgent : Type 0 where
  pub meta : Meta
  -- spec.forProvider; the reference by its name
  pub kargo_instance_id : String
  pub kargo_instance_ref : Option String
  pub agent_name : String
  -- status.atProvider
  pub at_agent_name : String
  pub at_kargo_instance_id : String

pub record AgentApi (S : Type 0) : Type 0 where
  pub errors : ErrorApi
  pub get_kargo_instance_by_id : S → String → Result Error String × S
  pub patch_kargo_instance : S → String → Json → Err × S
  -- the ID of the agent of an instance and a name
  pub get_kargo_instance_agent : S → String → String → Result Error String × S
  -- status.atProvider.id of the KargoInstance of a namespace and a name
  pub kube_kargo_id : String → String → Result Error String
  pub new_struct : Json → Result Error Json
  pub encode : Json → Result Error String
  pub sum : String → String

pub record AgentWorld (S : Type 0) : Type 0 where
  pub remote : S
  pub guard : Guard
  pub mg : KargoDefaultShardAgent

pub record AgentAnswer (S : Type 0) : Type 0 where
  pub obs : Observation
  pub error : Err
  pub world : AgentWorld S

abbrev pub shard_agent_gvk : String
shard_agent_gvk = "core.akuity.crossplane.io/v1alpha1, Kind=KargoDefaultShardAgent"

abbrev pub pin_body : String → Json
pin_body id = obj (field "spec" (obj (field "defaultShardAgent" (str id) end)) end)

abbrev pub unset_text : String
unset_text =
    "one of spec.forProvider.kargoInstanceId or spec.forProvider.kargoInstanceRef must be set"
