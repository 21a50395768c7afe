-- ===== src/Cluster/DriftTests.antt =====
-- A cluster whose kustomization has nothing but its header, with a library that knows only this one.
use provider_crossplane_akui.Common.{
  Result, ok, err, if◌then◌else◌, ◌==◌, ==_iff, ◌&&◌, String, ◌≡◌, refl, sym, ap, subst, ◌↔◌, true,
  some, none, inl, inr, arith,
}
use provider_crossplane_akui.Common.Text.{is_blank, trims_to, equal_fold}
use provider_crossplane_akui.Reason.{Error, new}
use provider_crossplane_akui.Json.{str, Fields, end, field, lookup}
use provider_crossplane_akui.Cluster.{
  WireCluster, ClusterCodec, ClusterApi, ClusterWorld, with_data,
}
use provider_crossplane_akui.ClusterTypes.{ClusterData}
use provider_crossplane_akui.CustomSize.{project_custom_cluster_size}
use provider_crossplane_akui.Cluster.Convert.{spec_to_api, wire_of}
use provider_crossplane_akui.Cluster.Kustomization.{
  cluster_kustomization_raw, encoded_kustomization, validate_cluster_kustomization_object,
}
use provider_crossplane_akui.Cluster.Observe.{exists, compare_cluster}
use provider_crossplane_akui.Cluster.Entries.{HasEntry, Renders}
use provider_crossplane_akui.Cluster.Absorbed.{HoldsDeclared}
use provider_crossplane_akui.Cluster.NoDrift.{exported_as, compare_cluster-HoldsDeclared}
use provider_crossplane_akui.Cluster.Tests.{log, codecs, data_of, east, world}

abbrev header : Fields
header =
    field "apiVersion" (str "kustomize.config.k8s.io/v1beta1")
      (field "kind" (str "Kustomization") end)

abbrev encode : Fields → Result Error String
encode (field j (str u) (field k (str v) end)) =
    if j == "apiVersion"
      && (u == "kustomize.config.k8s.io/v1beta1" && (k == "kind" && v == "Kustomization"))
    then ok "doc"
    else err (new "another document")
encode _ = err (new "another document")

-- The four texts of such a document.
abbrev texts : Fields → String × String × String × String
texts (field j (str u) (field k (str v) end)) = (j, u, k, v)
texts _ = ("", "", "", "")

encode-header : (m : Fields) (k : String) → encode m ≡ ok k → (m ≡ header) × (k ≡ "doc")
encode-header m k h =
    let a = ==_iff (texts m).0 "apiVersion" in
    let b = ==_iff (texts m).1 "kustomize.config.k8s.io/v1beta1" in
    let c = ==_iff (texts m).2 "kind" in
    let d = ==_iff (texts m).3 "Kustomization" in (ground (arith, h, a, b, c, d), ground (arith, h))

abbrev known : ClusterCodec String
known = record codecs {
  codec = record (codecs.codec) {
    unmarshal_object = λ raw. if raw == "doc" then ok (some header) else ok none;
  };
  marshal_object = encode;
}

known-Renders : Renders known
unfolding is_blank trims_to
known-Renders = record {
  has_text = λ m k h. rw (encode-header m k h).1 refl;
  renders = λ m k h.
      let (e, t) = encode-header m k h in
      (
        "doc",
        "doc",
        header,
        ap (λ (x : String). ok x) t,
        refl,
        refl,
        refl,
        refl,
        λ i v.
            subst (λ (x : Fields). HasEntry i v x ↔ HasEntry i v header) (sym e) (λ x. x, λ x. x),
        ap (λ (x : String). ok x) (sym t),
      );
}

abbrev platform : ClusterApi String String String
platform = record log { codecs = known; equal = λ p q. true }

-- The user declares the maintenance mode, and the get has it; the export strays on two fields.
abbrev declared : ClusterData
declared = record (data_of (some true) none) { kustomization = "doc" }

abbrev held : ClusterData
held = record declared { compatibility = some (record { ipv6_only = some true }) }

abbrev stray : ClusterData
stray = record declared {
  maintenance_mode = none;
  maintenance_mode_expiry = some "2026-01-01T00:00:00Z";
}

abbrev drifting : ClusterWorld String
drifting = record (world "east") {
  mg = record (east "east") { for_provider = with_data ((east "east").for_provider) declared };
}

abbrev wire : WireCluster String
wire = wire_of known drifting.mg.for_provider declared "doc"

applied : spec_to_api known drifting.mg.for_provider ≡ ok wire
unfolding spec_to_api project_custom_cluster_size equal_fold cluster_kustomization_raw is_blank
    encoded_kustomization validate_cluster_kustomization_object trims_to lookup
applied = refl

held-HoldsDeclared : HoldsDeclared declared held
held-HoldsDeclared = record {
  dashboard = inl refl;
  autoscaler = λ h. inl refl;
  compatibility = inl refl;
  notifications = inl refl;
  direct = inl refl;
  server_side = inl refl;
  metadata = inl refl;
  datadog = inl refl;
  addon = inl refl;
  mode = inr refl;
  expiry = inl refl;
}

compare_cluster-HoldsDeclared_example :
    ((compare_cluster platform drifting
        (with_data drifting.mg.for_provider held)
        (exported_as platform drifting wire stray)).obs
      ≡ exists platform true)
    × ((compare_cluster platform drifting
          (with_data drifting.mg.for_provider held)
          (exported_as platform drifting wire stray)).error
        ≡ none)
compare_cluster-HoldsDeclared_example =
    compare_cluster-HoldsDeclared platform drifting (with_data drifting.mg.for_provider held) wire
      stray known-Renders (λ q. refl) applied refl held-HoldsDeclared
