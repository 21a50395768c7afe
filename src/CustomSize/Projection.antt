-- ===== src/CustomSize/Projection.antt =====
-- Projecting the size is done once, and an error changes nothing.
use provider_crossplane_akui.Common.{◌≡◌, refl, ◌≢◌, false, none, arith}
use provider_crossplane_akui.Common.Text.{equal_fold}
use provider_crossplane_akui.ClusterTypes.{ClusterData}
use provider_crossplane_akui.CustomSize.{Yaml, project_custom_cluster_size}

large_is_not_custom : equal_fold "large" "custom" ≡ false
unfolding equal_fold
large_is_not_custom = refl

-- A projection that succeeds leaves data that is no longer of size custom and has no custom
-- configuration, so that projecting it again changes nothing; a projection that fails leaves the
-- data as it was.
pub project_custom_cluster_size_once :
    (yaml : Yaml) (d : ClusterData)
    → ((project_custom_cluster_size yaml d).0 ≡ none
        → (equal_fold (project_custom_cluster_size yaml d).1.size "custom" ≡ false)
          × ((project_custom_cluster_size yaml d).1.custom_agent_size_config ≡ none)
          × (project_custom_cluster_size yaml (project_custom_cluster_size yaml d).1
              ≡ (none, (project_custom_cluster_size yaml d).1)))
      × ((project_custom_cluster_size yaml d).0 ≢ none → (project_custom_cluster_size yaml d).1 ≡ d)
unfolding project_custom_cluster_size
project_custom_cluster_size_once yaml d = (
  λ h. (
    ground (arith, large_is_not_custom),
    ground (arith, large_is_not_custom),
    ground (arith, large_is_not_custom),
  ),
  λ h. ground arith,
)
