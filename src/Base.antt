-- ===== src/Base.antt =====
-- internal/controller/base/fetch.go and external.go: the outcome of a get, and the guard as the
-- external clients call it. The debug lines of the logger are not modelled.
mod Outcomes
mod Tests
use provider_crossplane_akui.Common.{if◌then◌else◌, String, Bool, true, false, none, some}
use provider_crossplane_akui.Reason.{Err, is_not_found, ErrorApi, is_provisioning_wait}
use provider_crossplane_akui.Managed.{Meta, Observation, no_observation}
use provider_crossplane_akui.Guard.{
  TerminalWriteKey, new_terminal_write_resource_key, Guard, record_write, clear, has_resource,
  Suppression, suppress,
}

pub data GetOutcome : Type 0 where
  get_ok get_absent get_provisioning get_terminal : GetOutcome

unfoldable pub classify_get_error : ErrorApi → Err → GetOutcome × Observation × Err
unfolding is_provisioning_wait
classify_get_error api none = (get_ok, no_observation, none)
classify_get_error api (some e) =
    if is_not_found (some e)
    then (get_absent, record { resource_exists = false; resource_up_to_date = false }, none)
    else if is_provisioning_wait api (some e)
    then (get_provisioning, record { resource_exists = true; resource_up_to_date = true }, none)
    else (get_terminal, no_observation, some e)

-- The answers (observation, error, ok) of the suppressing calls, with the guard and the managed
-- resource that they leave.
abbrev pub not_suppressed : Guard → Meta → Suppression
not_suppressed g mg = record {
  obs = no_observation;
  error = none;
  suppressed = false;
  guard = g;
  managed = mg;
}

unfoldable pub suppress_terminal_write : Guard → Meta → TerminalWriteKey → Suppression
suppress_terminal_write none mg key = not_suppressed none mg
suppress_terminal_write (some m) mg key = suppress (some m) mg key

-- The error is returned as it came.
unfoldable pub record_terminal_write : Guard → TerminalWriteKey → Err → Guard × Err
record_terminal_write g key e = (record_write g key e, e)

unfoldable pub clear_terminal_write : Guard → TerminalWriteKey → Guard
clear_terminal_write g key = clear g key

unfoldable pub clear_terminal_write_resource : Guard → Meta → String → Guard
clear_terminal_write_resource g mg gvk = clear g (new_terminal_write_resource_key mg gvk)

unfoldable pub has_terminal_write_resource : Guard → Meta → String → Bool
has_terminal_write_resource g mg gvk = has_resource g (new_terminal_write_resource_key mg gvk)

-- SkipTerminalWriteGuard
abbrev pub skip_terminal_write_guard : Guard → Meta → Suppression
skip_terminal_write_guard = not_suppressed
