-- ===== src/Gateway/Precedence.antt =====
-- Which workspace a reference names, beside the two passes of which the loop makes one.
use provider_crossplane_akui.Common.{
  Result, Option-cases, subst, sym, ok, err, if◌then◌else◌, ◌==◌, ◌≡◌, refl, inl, inr, Bool-cases,
  String, ◌<>◌, Bool, true, Option, none, some, List, [], ◌∷◌, arith,
}
use provider_crossplane_akui.Reason.{Error, new, as_not_found, is_kind, is_not_found}
use provider_crossplane_akui.Gateway.State.{Workspace, Client, ClientWorld, GatewayApi}
use provider_crossplane_akui.Gateway.Gets.{scan_workspaces, choose_workspace, resolve_workspace}

-- The first workspace with a property.
unfoldable pub first_with : (Workspace → Bool) → List Workspace → Option Workspace
first_with p [] = none
first_with p (w ∷ ws) = if p w then some w else first_with p ws

abbrev pub or_else : Option Workspace → Option Workspace → Option Workspace
or_else none o = o
or_else (some w) o = some w

-- The default workspace for the empty reference; else the first with that ID, and only if there is
-- none the first with that name.
abbrev pub named_workspace : String → List Workspace → Option Workspace
named_workspace ref ws =
    if ref == ""
    then first_with (λ w. w.is_default) ws
    else or_else (first_with (λ w. w.id == ref) ws) (first_with (λ w. w.name == ref) ws)

scan_workspaces-first_with :
    (ref : String) (m : Option Workspace) (ws : List Workspace)
    → scan_workspaces ref m ws ≡ (
        if ref == ""
        then or_else (first_with (λ w. w.is_default) ws) m
        else or_else
            (first_with (λ w. w.id == ref) ws)
            (or_else m (first_with (λ w. w.name == ref) ws)))
unfolding scan_workspaces first_with
scan_workspaces-first_with ref none [] = ground arith
scan_workspaces-first_with ref (some m) [] = ground arith
scan_workspaces-first_with ref none (w ∷ ws) =
    ground
      (arith, scan_workspaces-first_with ref none ws, scan_workspaces-first_with ref (some w) ws)
scan_workspaces-first_with ref (some m) (w ∷ ws) =
    ground (arith, scan_workspaces-first_with ref (some m) ws)

-- The workspace that was looked for, or an error "not found" if there is none.
abbrev pub IsFound : Option Workspace → Result Error Workspace → Type 0
IsFound (some x) r = r ≡ ok x
IsFound none r = (e : Error) × (r ≡ err e) × (is_not_found (some e) ≡ true)

module _ {S T : Type 0} (api : GatewayApi S T) (c : Client) where
  choose_workspace-none :
      (ref : String) (ws : List Workspace)
      → scan_workspaces ref none ws ≡ none
      → IsFound none (choose_workspace api c ref (ok ws))
  unfolding choose_workspace is_kind
  choose_workspace-none ref ws n = elim (Bool-cases (ref == "")) [
    | inl e ↦ (
      as_not_found (new ("default workspace not found in organization " <> c.organization_id)),
      ground (arith, n, e),
      refl,
    )
    | inr e ↦ (
      as_not_found
          (new ("workspace \"" <> ref <> "\" not found in organization " <> c.organization_id)),
      ground (arith, n, e),
      refl,
    )
  ]

  choose_workspace-IsFound :
      (ref : String) (ws : List Workspace)
      → IsFound (scan_workspaces ref none ws) (choose_workspace api c ref (ok ws))
  unfolding choose_workspace
  choose_workspace-IsFound ref ws =
      let r = choose_workspace api c ref (ok ws) in
      elim (Option-cases (scan_workspaces ref none ws)) [
        | inr (x, f) ↦ subst (λ (o : Option Workspace). IsFound o r) (sym f) (ground (arith, f))
        | inl n ↦
            subst (λ (o : Option Workspace). IsFound o r) (sym n) (choose_workspace-none ref ws n)
      ]

  -- `ResolveWorkspace` returns the workspace that the reference names, where the ID goes before the
  -- name, and fails with a "not found" error if it names none. The client must have a gateway of
  -- organizations, and the list of workspaces must succeed.
  pub resolve_workspace-named :
      (ref : String) (ws : List Workspace) (w : ClientWorld S)
      → c.has_org ≡ true
      → (api.list_workspaces c.organization_id w.remote).0 ≡ ok ws
      → IsFound (named_workspace ref ws) (resolve_workspace api c ref w).0
  unfolding resolve_workspace
  resolve_workspace-named ref ws w o l =
      let found = choose_workspace-IsFound ref ws in
      let named : (scan_workspaces ref none ws ≡ named_workspace ref ws) =
        ground (arith, scan_workspaces-first_with ref none ws) in
      let r : (choose_workspace api c ref (ok ws) ≡ (resolve_workspace api c ref w).0) =
        ground (arith, o, l) in
      subst (λ (o : Option Workspace). IsFound o (resolve_workspace api c ref w).0) named
        (subst (IsFound (scan_workspaces ref none ws)) r found)
