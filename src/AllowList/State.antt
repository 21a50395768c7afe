-- ===== src/AllowList/State.antt =====
-- internal/controller/instanceipallowlist: the resource, the world and the patch of an allow
-- list, with the entries of apis/core/v1alpha1 that they are about.
use provider_crossplane_akui.Common.{
  Result, if◌then◌else◌, nonempty, String, Bool, Option, none, some, List, [], ◌∷◌,
}
use provider_crossplane_akui.Reason.{Error, Err, ErrorApi}
use provider_crossplane_akui.Managed.{Meta, Observation}
use provider_crossplane_akui.Guard.{Guard}
use provider_crossplane_akui.Json.{Json, str, arr, obj, Items, nil, item, end, field}

pub record IpAllowListEntry : Type 0 where
  pub ip : String
  pub description : String

-- `[]*IPAllowListEntry`
abbrev pub AllowList : Type 0
AllowList = List (Option IpAllowListEntry)

pub record InstanceIpAllowList : Type 0 where
  pub meta : Meta
  -- spec.forProvider; the reference by its name
  pub instance_id : String
  pub instance_ref : Option String
  pub allow_list : AllowList
  -- status.atProvider
  pub at_allow_list : AllowList
  pub at_instance_id : String

pub record Api (S : Type 0) : Type 0 where
  pub errors : ErrorApi
  -- the allow list of an instance, and the patch of an instance
  pub get_instance_by_id : S → String → Result Error AllowList × S
  pub patch_instance : S → String → Json → Err × S
  -- status.atProvider.id of the Instance of a namespace and a name
  pub kube_instance_id : String → String → Result Error String
  pub new_struct : Json → Result Error Json
  pub encode : Json → Result Error String
  pub sum : String → String
  -- cmp.Equal with the options of EquateEmpty
  pub equal : AllowList → AllowList → Bool

pub record World (S : Type 0) : Type 0 where
  pub remote : S
  pub guard : Guard
  pub mg : InstanceIpAllowList

pub record Answer (S : Type 0) : Type 0 where
  pub obs : Observation
  pub error : Err
  pub world : World S

abbrev pub allow_list_gvk : String
allow_list_gvk = "core.akuity.crossplane.io/v1alpha1, Kind=InstanceIpAllowList"

-- instanceIPAllowListPatchEntries
unfoldable pub patch_entries : AllowList → Items
patch_entries [] = nil
patch_entries (none ∷ ds) = patch_entries ds
patch_entries (some d ∷ ds) =
    item
      (obj (
        field "ip" (str d.ip)
          (if nonempty d.description then field "description" (str d.description) end else end)))
      (patch_entries ds)

abbrev pub patch_body : AllowList → Json
patch_body desired =
    obj (field "spec" (obj (field "ipAllowList" (arr (patch_entries desired)) end)) end)

unfoldable pub pb_entries_to_spec : AllowList → AllowList
pb_entries_to_spec [] = []
pb_entries_to_spec (none ∷ es) = pb_entries_to_spec es
pb_entries_to_spec (some e ∷ es) =
    some (record { ip = e.ip; description = e.description }) ∷ pb_entries_to_spec es
