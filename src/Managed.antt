-- ===== src/Managed.antt =====
-- What the controllers use of a managed resource of crossplane-runtime: its metadata and the
-- answers of `Observe`. `SetConditions` belongs to that library, so the conditions are kept as the
-- list of the calls, the last one first.
use provider_crossplane_akui.Common.{if◌then◌else◌, ℕ, String, Bool, false, List, ◌∷◌}
use provider_crossplane_akui.Reason.{Err}

pub data Condition : Type 0 where
  available unavailable : Condition
  reconcile_error : Err → Condition

pub record Meta : Type 0 where
  pub uid : String
  pub namespace : String
  pub name : String
  pub external_name : String
  -- `metadata.deletionTimestamp` is set
  pub was_deleted : Bool
  pub generation : ℕ
  pub observed_generation : ℕ
  pub conditions : List Condition

abbrev pub set_conditions : Condition → Meta → Meta
set_conditions c m = record m { conditions = c ∷ m.conditions }

-- managed.ExternalObservation
pub record Observation : Type 0 where
  pub resource_exists : Bool
  pub resource_up_to_date : Bool

-- managed.ExternalObservation{}
abbrev pub no_observation : Observation
no_observation = record { resource_exists = false; resource_up_to_date = false }

-- internal/controller/base/observed_generation.go
abbrev pub propagate_observed_generation : Meta → Meta
propagate_observed_generation m = record m { observed_generation = m.generation }

-- internal/controller/base/condition.go
abbrev pub set_health_condition : Bool → Meta → Meta
set_health_condition healthy m =
    if healthy then set_conditions available m else set_conditions unavailable m
