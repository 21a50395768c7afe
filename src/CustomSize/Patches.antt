-- ===== src/CustomSize/Patches.antt =====
-- What a generated kustomization keeps of the user's, and where its patches stand.
use provider_crossplane_akui.Json.Maps.{lookup-put}
use provider_crossplane_akui.Common.{
  ok, Result-cases, ◌==◌, Bool-cases, Option-cases, is_none, String, ◌≡◌, inl, inr, false, ◌&&◌,
  none, arith,
}
use provider_crossplane_akui.Json.{Json, arr, Items, Fields, lookup, put, append_items}
use provider_crossplane_akui.ClusterTypes.{ClusterCustomAgentSizeConfig}
use provider_crossplane_akui.CustomSize.{
  Yaml, parse_kustomization_object, kustomization_slice, first_conflict, controller_patches,
  repo_server_patches, with_replicas, custom_kustomization,
}
use provider_crossplane_akui.CustomSize.UserPatches.{lookup-with_replicas}

module _ (yaml : Yaml) where
  -- The steps of a generation that succeeds.
  pub record Generated (cfg : ClusterCustomAgentSizeConfig) (user : String) (out : Fields)
      : Type 0 where
    pub top : Fields
    pub user_patches : Items
    pub first : Items
    pub second : Items
    pub user_replicas : Items
    pub parsed : parse_kustomization_object yaml user ≡ ok top
    pub listed : kustomization_slice top "patches" ≡ ok user_patches
    pub allowed : first_conflict yaml user_patches ≡ none
    pub controller : controller_patches yaml cfg.application_controller ≡ ok first
    pub server : repo_server_patches yaml cfg.repo_server ≡ ok second
    pub made :
        out
        ≡ with_replicas cfg.repo_server user_replicas
            (put "patches" (arr (append_items (append_items first second) user_patches)) top)

  custom_kustomization-Generated :
      (cfg : ClusterCustomAgentSizeConfig) (user : String) (out : Fields)
      → custom_kustomization yaml cfg user ≡ ok out
      → Generated cfg user out
  unfolding custom_kustomization
  custom_kustomization-Generated cfg user out h =
      elim (Bool-cases (is_none cfg.application_controller && is_none cfg.repo_server)) [
        | inl c ↦ absurd (ground (arith, c))
        | inr c ↦ elim (Result-cases (parse_kustomization_object yaml user)) [
          | inr (e, p) ↦ absurd (ground (arith, c, p))
          | inl (top, p) ↦ elim (Result-cases (kustomization_slice top "patches")) [
            | inr (e, l) ↦ absurd (ground (arith, c, p, l))
            | inl (us, l) ↦ elim (Option-cases (first_conflict yaml us)) [
              | inr (n, f) ↦ absurd (ground (arith, c, p, l, f))
              | inl f ↦ elim (Result-cases (controller_patches yaml cfg.application_controller)) [
                | inr (e, a) ↦ absurd (ground (arith, c, p, l, f, a))
                | inl (xs, a) ↦ elim (Result-cases (repo_server_patches yaml cfg.repo_server)) [
                  | inr (e, b) ↦ absurd (ground (arith, c, p, l, f, a, b))
                  | inl (ys, b) ↦
                      elim (Result-cases (
                        kustomization_slice
                          (put "patches" (arr (append_items (append_items xs ys) us)) top)
                          "replicas")) [
                            | inr (e, d) ↦ absurd (ground (arith, c, p, l, f, a, b, d))
                            | inl (rs, d) ↦ record {
                              top = top;
                              user_patches = us;
                              first = xs;
                              second = ys;
                              user_replicas = rs;
                              parsed = p;
                              listed = l;
                              allowed = f;
                              controller = a;
                              server = b;
                              made = ground (arith, c, p, l, f, a, b, d);
                            }
                          ]
                ]
              ]
            ]
          ]
        ]
      ]

  -- A kustomization that is generated keeps the user's text under every key other than
  -- "patches" and "replicas": what the parsed text holds there, the result holds.
  pub custom_kustomization-keeps :
      (cfg : ClusterCustomAgentSizeConfig) (user : String) (top out : Fields) (key : String)
      → parse_kustomization_object yaml user ≡ ok top
      → custom_kustomization yaml cfg user ≡ ok out
      → ("patches" == key) ≡ false
      → ("replicas" == key) ≡ false
      → lookup key out ≡ lookup key top
  custom_kustomization-keeps cfg user top out key p h np nr =
      let g = custom_kustomization-Generated cfg user out h in
      let all : Json = arr (append_items (append_items g.first g.second) g.user_patches) in
      let same : g.top ≡ top = ground (arith, p, g.parsed) in
      ground (
        arith,
        same,
        np,
        g.made,
        lookup-with_replicas cfg.repo_server g.user_replicas (put "patches" all g.top) key nr,
        lookup-put "patches" key all g.top,
      )
