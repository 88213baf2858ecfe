-- ===== src/Schema/Paths.antt =====
-- lib/cluster/schema.go: the validation of a configuration.
use tt.Schema.Errors.{ValidateError, AnyError, wrap_validate_errors}
use tt.Prelude.{List, [], ◌∷◌, ◌++◌}
use tt.Config.{Config, ok, err, get}
use tt.Config.Data.{ConfigPath}
use tt.Schema.{validate, Go, Validator, valid, invalid, panic, kept}

pub record SchemaPath : Type 0 where
  pub path : ConfigPath
  pub validator : Validator

-- What `Validate` returns: no error, a joined error, or a panic.
pub data Verdict : Type 0 where
  accepted : Verdict
  refused : List ValidateError → Verdict
  panicked : Verdict

abbrev pub verdict_of : List AnyError → Verdict
verdict_of [] = accepted
verdict_of errs = refused (wrap_validate_errors [] errs)

module _ (go : Go) (c : Config) where
  unfoldable pub validate_paths : List SchemaPath → List AnyError → Verdict
  validate_paths [] errs = verdict_of errs
  validate_paths (p ∷ rest) errs = elim (get p.path c) [
    | err e ↦ validate_paths rest errs
    | ok v ↦ elim (validate go p.validator v) [
      | valid w ↦ validate_paths rest errs
      | invalid es ↦ validate_paths rest (errs ++ kept p.path es ∷ [])
      | panic ↦ panicked
    ]
  ]

  -- `Validate`.
  unfoldable pub validate_config : List SchemaPath → Verdict
  unfolding validate_paths
  validate_config schema = validate_paths schema []
