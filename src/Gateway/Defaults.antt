-- ===== src/Gateway/Defaults.antt =====
-- The key under which the cache holds the default workspace is also the key of a reference.
use provider_crossplane_akui.Common.{
  ok, Result-cases, Option-cases, ◌≡◌, refl, ◌∙◌, Option, inl, inr, String, true, none, some, arith,
  ==_refl,
}
use provider_crossplane_akui.Gateway.State.{WorkspaceIdCache, Client, ClientWorld, GatewayApi}
use provider_crossplane_akui.Gateway.Gets.{get_ref, workspace_ref_cache_key, resolve_workspace}
use provider_crossplane_akui.Gateway.Workspaces.{resolve_workspace_id}
use provider_crossplane_akui.Gateway.Transparent.{get_entry-set_entry}

get_ref-default : (k : Option WorkspaceIdCache) → get_ref k "<default>" ≡ get_ref k ""
get_ref-default none = refl
get_ref-default (some k) = refl

module _ {S T : Type 0} (api : GatewayApi S T) (c : Client) where
  resolve_workspace-cache :
      (ref : String) (w : ClientWorld S) → (resolve_workspace api c ref w).1.cache ≡ w.cache
  unfolding resolve_workspace
  resolve_workspace-cache ref w = ground arith

  -- What the cache holds after a reference was resolved.
  stores :
      (ref id : String) (k : WorkspaceIdCache) (w : ClientWorld S)
      → w.cache ≡ some k
      → c.has_org ≡ true
      → (resolve_workspace_id api c ref w).0 ≡ ok id
      → get_ref (resolve_workspace_id api c ref w).1.cache ref ≡ some id
  unfolding resolve_workspace_id
  stores ref id k w n o h =
      let same = resolve_workspace-cache ref w in
      elim (Option-cases (get_ref w.cache ref)) [
        | inr (x, hit) ↦ ground (arith, n, o, h, hit)
        | inl miss ↦ elim (Result-cases (resolve_workspace api c ref w).0) [
          | inr (e, r) ↦ absurd (ground (arith, n, o, h, miss, r))
          | inl (x, r) ↦ ground (
            arith,
            n,
            o,
            h,
            miss,
            r,
            same,
            get_entry-set_entry (workspace_ref_cache_key ref) (workspace_ref_cache_key ref) x.id
                k.refs,
            ==_refl (workspace_ref_cache_key ref),
          )
        ]
      ]

  answers :
      (id : String) (w : ClientWorld S)
      → c.has_org ≡ true
      → get_ref w.cache "<default>" ≡ some id
      → resolve_workspace_id api c "<default>" w ≡ (ok id, w)
  unfolding resolve_workspace_id
  answers id w o h = ground (arith, o, h)

  -- Once a client with a cache has found the default workspace, it answers the reference
  -- `<default>` with that workspace, whichever workspace has this text as its ID or its name.
  pub resolve_workspace_id-collides :
      (k : WorkspaceIdCache) (w : ClientWorld S) (id : String)
      → w.cache ≡ some k
      → c.has_org ≡ true
      → (resolve_workspace_id api c "" w).0 ≡ ok id
      → resolve_workspace_id api c "<default>" (resolve_workspace_id api c "" w).1
        ≡ (ok id, (resolve_workspace_id api c "" w).1)
  resolve_workspace_id-collides k w id n o h =
      answers id (resolve_workspace_id api c "" w).1 o (get_ref-default _ ∙ stores "" id k w n o h)
