-- ===== src/Gateway/Transparent.antt =====
-- The cache of workspace IDs does not show: what it answers is what the platform would.
use provider_crossplane_akui.Common.{
  Result, ok, err, Result-cases, Bool-cases, Option-cases, ==_iff, if◌then◌else◌, ◌==◌, ◌≡◌, refl,
  sym, ap, subst, ◌∙◌, ◌⊎◌, inl, inr, String, true, false, Option, none, some, [], ◌∷◌, arith,
}
use provider_crossplane_akui.Secrets.{StringMap}
use provider_crossplane_akui.Reason.{Error}
use provider_crossplane_akui.Gateway.State.{
  get_entry, set_entry, WorkspaceIdCache, Workspace, Client, ClientWorld, Method, GatewayApi,
}
use provider_crossplane_akui.Gateway.Gets.{
  get_ref, set_ref, get_argo_instance, workspace_ref_cache_key, resolve_workspace,
}
use provider_crossplane_akui.Gateway.Workspaces.{
  unresolved, resolve_workspace_id, argo_workspace_id_for_instance,
}
use provider_crossplane_akui.Gateway.Reads.{HasPureReads, resolve_workspace-IsRead}

pub get_entry-set_entry :
    (j k v : String) (m : StringMap)
    → get_entry k (set_entry j v m) ≡ (if j == k then some v else get_entry k m)
unfolding get_entry set_entry
get_entry-set_entry j k v [] = refl
get_entry-set_entry j k v ((i, u) ∷ m) =
    ground (arith, ==_iff j k, ==_iff i j, ==_iff i k, get_entry-set_entry j k v m)

-- No reference is spelled like the cache's name for the default workspace.
abbrev pub IsPlain : String → Type 0
IsPlain ref = (ref == "<default>") ≡ false

workspace_ref_cache_key_inj :
    (a b : String)
    → IsPlain a
    → IsPlain b
    → (workspace_ref_cache_key a == workspace_ref_cache_key b) ≡ true
    → a ≡ b
workspace_ref_cache_key_inj a b p q e = ground (
  arith,
  ==_iff a "",
  ==_iff b "",
  ==_iff a b,
  ==_iff "<default>" b,
  ==_iff a "<default>",
  ==_iff b "<default>",
)

-- What a cache holds once an entry is set.
get_ref-set_ref :
    (k : Option WorkspaceIdCache) (ref other id v : String)
    → get_ref (set_ref k ref id) other ≡ some v
    → (get_ref k other ≡ some v)
      ⊎ ((workspace_ref_cache_key ref == workspace_ref_cache_key other) ≡ true) × (id ≡ v)
get_ref-set_ref none ref other id v h = inl h
get_ref-set_ref (some k) ref other id v h =
    let l =
      get_entry-set_entry (workspace_ref_cache_key ref) (workspace_ref_cache_key other) id k.refs in
    elim (Bool-cases (workspace_ref_cache_key ref == workspace_ref_cache_key other)) [
      | inl e ↦ inr (e, ground (arith, l, e))
      | inr e ↦ inl (ground (arith, l, e))
    ]

get_argo_instance-set_ref :
    (k : Option WorkspaceIdCache) (ref id i : String)
    → get_argo_instance (set_ref k ref id) i ≡ get_argo_instance k i
get_argo_instance-set_ref none ref id i = refl
get_argo_instance-set_ref (some k) ref id i = refl

module _ {S T : Type 0} (api : GatewayApi S T) (c : Client) where
  -- A client that has no cache.
  abbrev pub uncached : ClientWorld S → ClientWorld S
  uncached w = record w { cache = none }

  -- What the cache holds is what a client without a cache finds.
  pub record IsSound (w : ClientWorld S) : Type 0 where
    pub refs_sound :
        (ref id : String)
        → IsPlain ref
        → get_ref w.cache ref ≡ some id
        → (resolve_workspace_id api c ref (uncached w)).0 ≡ ok id
    pub argo_sound :
        (instance_id id : String)
        → get_argo_instance w.cache instance_id ≡ some id
        → (argo_workspace_id_for_instance api c instance_id (uncached w)).0 ≡ ok id

  module _ (reads : HasPureReads api) where
    found : String → Result Error Workspace → Result Error String
    found ref (ok w) = ok w.id
    found ref (err e) = err (unresolved api c ref e)

    -- A client without a cache.
    resolve_uncached :
        (ref : String) (w : ClientWorld S)
        → c.has_org ≡ true
        → (resolve_workspace_id api c ref (uncached w)).0
          ≡ found ref (resolve_workspace api c ref w).0
    unfolding resolve_workspace_id found
    resolve_uncached ref w o =
        let e = (resolve_workspace-IsRead api c reads ref).same_answer (uncached w) w refl in
        elim (Result-cases (resolve_workspace api c ref w).0) [
          | inl (x, h) ↦ ground (arith, o, h, e)
          | inr (x, h) ↦ ground (arith, o, h, e)
        ]

    abbrev stored : String → ClientWorld S → Result Error Workspace → ClientWorld S
    stored ref w (ok x) = record w { cache = set_ref w.cache ref x.id }
    stored ref w (err e) = w

    -- A reference that the cache does not hold.
    resolve_missed :
        (ref : String) (w : ClientWorld S)
        → c.has_org ≡ true
        → get_ref w.cache ref ≡ none
        → resolve_workspace_id api c ref w ≡ (
          found ref (resolve_workspace api c ref w).0,
          stored ref w (resolve_workspace api c ref w).0,
        )
    unfolding resolve_workspace_id found
    resolve_missed ref w o m =
        let e = (resolve_workspace-IsRead api c reads ref).same_world w in
        elim (Result-cases (resolve_workspace api c ref w).0) [
          | inl (x, h) ↦ ground (arith, o, m, h, e)
          | inr (x, h) ↦ ground (arith, o, m, h, e)
        ]

    -- The cache is still sound once what the platform answered is stored.
    stored-IsSound :
        (ref : String) (w : ClientWorld S) (r : Result Error Workspace)
        → IsPlain ref
        → IsSound w
        → (resolve_workspace_id api c ref (uncached w)).0 ≡ found ref r
        → IsSound (stored ref w r)
    unfolding found
    stored-IsSound ref w (err e) p sound h = sound
    stored-IsSound ref w (ok x) p sound h = record {
      refs_sound = λ other v q g. elim (get_ref-set_ref w.cache ref other x.id v g) [
        | inl old ↦ sound.refs_sound other v q old
        | inr (e, same) ↦
            subst (λ (r : String). (resolve_workspace_id api c r (uncached w)).0 ≡ ok v)
              (workspace_ref_cache_key_inj ref other p q e) (h ∙ ap (λ (i : String). ok i) same)
      ];
      argo_sound =
          λ i v g. sound.argo_sound i v (sym (get_argo_instance-set_ref w.cache ref x.id i) ∙ g);
    }

    -- What a method returns, and the world that it leaves, beside a client without a cache.
    abbrev pub IsTransparent : Method S String → ClientWorld S → Type 0
    IsTransparent m w =
        ((m w).0 ≡ (m (uncached w)).0) × IsSound (m w).1 × (uncached (m w).1 ≡ uncached w)

    pub via :
        (m : Method S String) (w v : ClientWorld S) (r : Result Error String)
        → m w ≡ (r, v)
        → (m (uncached w)).0 ≡ r
        → IsSound v
        → uncached v ≡ uncached w
        → IsTransparent m w
    via m w v r e u sound same = (
      ap (λ (p : Result Error String × ClientWorld S). p.0) e ∙ sym u,
      subst (λ (p : Result Error String × ClientWorld S). IsSound p.1) (sym e) sound,
      ap (λ (p : Result Error String × ClientWorld S). uncached p.1) e ∙ same,
    )

    stored-uncached :
        (ref : String) (w : ClientWorld S) (r : Result Error Workspace)
        → uncached (stored ref w r) ≡ uncached w
    stored-uncached ref w (ok x) = refl
    stored-uncached ref w (err e) = refl

    pub resolve_workspace_id-IsTransparent :
        (ref : String) (w : ClientWorld S)
        → IsPlain ref
        → IsSound w
        → IsTransparent (resolve_workspace_id api c ref) w
    unfolding resolve_workspace_id
    resolve_workspace_id-IsTransparent ref w p sound =
        let m = resolve_workspace_id api c ref in
        elim (Bool-cases c.has_org) [
          | inr o ↦ via m w w (ok ref) (ground (arith, o)) (ground (arith, o)) sound refl
          | inl o ↦ elim (Option-cases (get_ref w.cache ref)) [
            | inr (id, hit) ↦
                via m w w (ok id) (ground (arith, o, hit)) (sound.refs_sound ref id p hit) sound
                  refl
            | inl miss ↦
                let r = (resolve_workspace api c ref w).0 in
                via m w (stored ref w r) (found ref r) (resolve_missed ref w o miss)
                  (resolve_uncached ref w o)
                  (stored-IsSound ref w r p sound (resolve_uncached ref w o))
                  (stored-uncached ref w r)
          ]
        ]
