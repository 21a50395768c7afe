-- ===== src/Gateway/Instances.antt =====
-- The workspace of an Argo CD instance, with a cache and without.
use provider_crossplane_akui.Common.{
  Result, ok, err, Result-cases, Bool-cases, Option-cases, ==_iff, if◌then◌else◌, ◌==◌, nonempty,
  ◌≡◌, refl, sym, ap, subst, ◌∙◌, ◌⊎◌, inl, inr, String, Option, none, some, arith,
}
use provider_crossplane_akui.Common.Exec.{pure}
use provider_crossplane_akui.Reason.{Error}
use provider_crossplane_akui.Gateway.State.{
  WorkspaceIdCache, Instance, Client, ClientWorld, Method, GatewayApi,
}
use provider_crossplane_akui.Gateway.Gets.{
  get_ref, get_argo_instance, set_argo_instance, get_instance_by_id,
}
use provider_crossplane_akui.Gateway.Workspaces.{
  resolve_workspace_id, argo_workspace_id_for_instance,
}
use provider_crossplane_akui.Gateway.Reads.{HasPureReads, get_instance_by_id-IsRead}
use provider_crossplane_akui.Gateway.Transparent.{
  get_entry-set_entry, uncached, IsPlain, IsSound, IsTransparent, via,
  resolve_workspace_id-IsTransparent,
}

get_argo_instance-set_argo_instance :
    (k : Option WorkspaceIdCache) (i j id v : String)
    → get_argo_instance (set_argo_instance k i id) j ≡ some v
    → (get_argo_instance k j ≡ some v) ⊎ (i ≡ j) × (id ≡ v)
get_argo_instance-set_argo_instance none i j id v h = inl h
get_argo_instance-set_argo_instance (some k) i j id v h =
    let l = get_entry-set_entry i j id k.argo_by_instance in
    elim (Bool-cases (i == "")) [
      | inl z ↦ inl (ground (arith, h, z))
      | inr z ↦ elim (Bool-cases (i == j)) [
        | inl e ↦ inr ((==_iff i j).0 e, ground (arith, l, e, z, h))
        | inr e ↦ inl (ground (arith, l, e, z, h))
      ]
    ]

get_ref-set_argo_instance :
    (k : Option WorkspaceIdCache) (i id ref : String)
    → get_ref (set_argo_instance k i id) ref ≡ get_ref k ref
get_ref-set_argo_instance none i id ref = refl
get_ref-set_argo_instance (some k) i id ref = ground arith

module _ {S T : Type 0} (api : GatewayApi S T) (c : Client) where
  abbrev workspace_of : Instance → Method S String
  workspace_of i =
      if nonempty i.workspace_id then pure i.workspace_id else resolve_workspace_id api c ""

  abbrev kept : String → Result Error String × ClientWorld S → ClientWorld S
  kept id (ok ws, w) = record w { cache = set_argo_instance w.cache id ws }
  kept id (err e, w) = w

  module _ (reads : HasPureReads api) where
    workspace_of-IsTransparent :
        (i : Instance) (w : ClientWorld S)
        → IsSound api c w
        → IsTransparent api c reads (workspace_of i) w
    workspace_of-IsTransparent i w sound = elim (Bool-cases (nonempty i.workspace_id)) [
      | inl n ↦ via api c reads (workspace_of i) w w (ok i.workspace_id) (rw n) (rw n) sound refl
      | inr n ↦
          let t = resolve_workspace_id-IsTransparent api c reads "" w refl sound in
          via api c reads (workspace_of i) w (resolve_workspace_id api c "" w).1
            (resolve_workspace_id api c "" w).0 (rw n refl) (rw n (sym t.0)) t.1 t.2
    ]

    kept-IsSound :
        (id : String) (w v : ClientWorld S) (r : Result Error String)
        → IsSound api c v
        → uncached api c v ≡ uncached api c w
        → (argo_workspace_id_for_instance api c id (uncached api c w)).0 ≡ r
        → IsSound api c (kept id (r, v))
    kept-IsSound id w v (err e) sound same h = sound
    kept-IsSound id w v (ok ws) sound same h = record {
      refs_sound = λ ref x p g.
          sound.refs_sound ref x p (sym (get_ref-set_argo_instance v.cache id ws ref) ∙ g);
      argo_sound = λ j x g. elim (get_argo_instance-set_argo_instance v.cache id j ws x g) [
        | inl old ↦ sound.argo_sound j x old
        | inr (e, f) ↦
            subst
              (λ (k : String). (argo_workspace_id_for_instance api c k (uncached api c v)).0 ≡ ok x)
              e
              (ap (λ (u : ClientWorld S). (argo_workspace_id_for_instance api c id u).0) same
                ∙ h
                ∙ ap (λ (s : String). ok s) f)
      ];
    }

    argo_missed :
        (id : String) (w : ClientWorld S) (i : Instance)
        → get_argo_instance w.cache id ≡ none
        → (get_instance_by_id api c id w).0 ≡ ok i
        → argo_workspace_id_for_instance api c id w
          ≡ ((workspace_of i w).0, kept id (workspace_of i w))
    unfolding argo_workspace_id_for_instance
    argo_missed id w i m h =
        let e = (get_instance_by_id-IsRead api c reads id).same_world w in
        elim (Bool-cases (nonempty i.workspace_id)) [
          | inl n ↦ ground (arith, m, h, e, n)
          | inr n ↦ elim (Result-cases (resolve_workspace_id api c "" w).0) [
            | inl (x, r) ↦ ground (arith, m, h, e, n, r)
            | inr (x, r) ↦ ground (arith, m, h, e, n, r)
          ]
        ]

    kept-uncached :
        (id : String) (w v : ClientWorld S) (r : Result Error String)
        → uncached api c v ≡ uncached api c w
        → uncached api c (kept id (r, v)) ≡ uncached api c w
    kept-uncached id w v (err e) same = same
    kept-uncached id w v (ok ws) same = same

    argo-IsTransparent :
        (id : String) (w : ClientWorld S)
        → IsSound api c w
        → IsTransparent api c reads (argo_workspace_id_for_instance api c id) w
    unfolding argo_workspace_id_for_instance
    argo-IsTransparent id w sound =
        let m = argo_workspace_id_for_instance api c id in
        let g = get_instance_by_id-IsRead api c reads id in
        let u = g.same_answer (uncached api c w) w refl in
        elim (Option-cases (get_argo_instance w.cache id)) [
          | inr (x, hit) ↦
              via api c reads m w w (ok x) (ground (arith, hit)) (sound.argo_sound id x hit) sound
                refl
          | inl miss ↦ elim (Result-cases (get_instance_by_id api c id w).0) [
            | inr (e, h) ↦
                via api c reads m w w (err e) (ground (arith, miss, h, g.same_world w))
                  (ground (arith, u, h)) sound refl
            | inl (i, h) ↦
                let t = workspace_of-IsTransparent i w sound in
                let v =
                  ap (λ (p : Result Error String × ClientWorld S). p.0)
                    (argo_missed id (uncached api c w) i refl (u ∙ h))
                  ∙ sym t.0 in
                via api c reads m w (kept id (workspace_of i w)) (workspace_of i w).0
                  (argo_missed id w i miss h) v
                  (kept-IsSound id w (workspace_of i w).1 (workspace_of i w).0 t.1 t.2 v)
                  (kept-uncached id w (workspace_of i w).1 (workspace_of i w).0 t.2)
          ]
        ]

    -- With a sound cache the workspace of a reference, and that of an Argo CD instance, are what a
    -- client without a cache finds, errors included; the cache is sound afterwards, and nothing
    -- else has changed. The reference must not be the text `<default>`, and the gateway is assumed
    -- to answer reads without a change.
    pub lookups-IsTransparent :
        (ref id : String) (w : ClientWorld S)
        → IsPlain ref
        → IsSound api c w
        → IsTransparent api c reads (resolve_workspace_id api c ref) w
          × IsTransparent api c reads (argo_workspace_id_for_instance api c id) w
    lookups-IsTransparent ref id w p sound = (
      resolve_workspace_id-IsTransparent api c reads ref w p sound,
      argo-IsTransparent id w sound,
    )
