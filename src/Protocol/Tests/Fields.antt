-- ===== src/Protocol/Tests/Fields.antt =====
-- Inputs for the validation of fields.
use nvim_remote_mirror.Prelude.{◌≡◌, refl, ◌↔◌, true, [], ◌∷◌, codes, ok, err}
use nvim_remote_mirror.Protocol.Tests.Open.{machine_open}
use nvim_remote_mirror.Protocol.Types.{RuntimeEnvironment}
use nvim_remote_mirror.Protocol.Errors.{invalid_workspace_path, duplicate_environment_name}
use nvim_remote_mirror.Protocol.Validate.{validate_workspace_path, validate_environment}
use nvim_remote_mirror.Protocol.Validate.Path.{IsCanonical, validate_workspace_path-IsCanonical}
use nvim_remote_mirror.Protocol.Validate.Environment.{
  IsWellFormed, validate_environment-IsWellFormed,
}

traversal_refused : validate_workspace_path (codes "src/../etc") ≡ err invalid_workspace_path
unfolding machine_open
traversal_refused = refl

validate_workspace_path-IsCanonical_example :
    (validate_workspace_path (codes "src/main.rs") ≡ ok tt) ↔ IsCanonical (codes "src/main.rs")
validate_workspace_path-IsCanonical_example =
    validate_workspace_path-IsCanonical (codes "src/main.rs")

abbrev two_changes : RuntimeEnvironment
two_changes = record {
  clear = true;
  set = record { name = codes "A"; value = codes "1" } ∷ [];
  unset = codes "B" ∷ [];
}

duplicate_refused :
    validate_environment (record two_changes { unset = codes "A" ∷ [] })
    ≡ err (duplicate_environment_name (codes "A"))
unfolding machine_open
duplicate_refused = refl

validate_environment-IsWellFormed_example :
    (validate_environment two_changes ≡ ok tt) ↔ IsWellFormed two_changes
validate_environment-IsWellFormed_example = validate_environment-IsWellFormed two_changes
