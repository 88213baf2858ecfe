-- ===== src/Schema/Errors.antt =====
-- The errors of lib/cluster/validators.go.
-- `sort.Slice` is a stable sort here; the order that Go gives errors of one path is not fixed.
use Prim.Native.Nat.{Ordering}
use Prim.Native.String.{compare}
use tt.Prelude.{
  String, Bool, true, false, ◌||◌, List, [], ◌∷◌, ◌++◌, map, length, ltb, nat_eq, ◌==◌,
  if◌then◌else◌,
}
use tt.Config.Data.{Value, ConfigPath}
use tt.Config.Tree.{path_eq}

-- The messages, with the value that they print.
pub data RawError : Type 0 where
  nil_value must_be_array must_be_map : RawError
  unexpected parse_failed not_comparable not_allowed : Value → RawError

pub record ValidateError : Type 0 where
  pub path : ConfigPath
  pub errs : List RawError

-- An error that the code hands on: one of fmt.Errorf, or one that errors.Join made.
pub data AnyError : Type 0 where
  raw : RawError → AnyError
  joined : List ValidateError → AnyError

abbrev pub text_lt : String → String → Bool
text_lt s t = elim (compare s t) [ Ordering.lt ↦ true | _ ↦ false ]

-- The loop over two paths of the same length.
unfoldable pub elements_lt : ConfigPath → ConfigPath → Bool
elements_lt (a ∷ p) (b ∷ q) = if a == b then elements_lt p q else text_lt a b
elements_lt _ _ = false

-- The order of the errors: shorter paths first.
unfoldable pub path_lt : ConfigPath → ConfigPath → Bool
unfolding elements_lt
path_lt p q = if nat_eq (length p) (length q) then elements_lt p q else ltb (length p) (length q)

insert_error : ValidateError → List ValidateError → List ValidateError
insert_error e [] = e ∷ []
insert_error e (f ∷ l) = if path_lt f.path e.path then f ∷ insert_error e l else e ∷ f ∷ l

sort_errors : List ValidateError → List ValidateError
sort_errors [] = []
sort_errors (e ∷ l) = insert_error e (sort_errors l)

-- The loop that merges neighbours; the last merged error is held apart.
merge_neighbours : ValidateError → List ValidateError → List ValidateError
merge_neighbours last [] = last ∷ []
merge_neighbours last (e ∷ l) =
    if path_eq last.path e.path
    then merge_neighbours (record last { errs = last.errs ++ e.errs }) l
    else last ∷ merge_neighbours e l

merge_sorted : List ValidateError → List ValidateError
merge_sorted [] = []
merge_sorted (e ∷ l) = merge_neighbours e l

-- `mergeValidateErrors`.
unfoldable pub merge_validate_errors : List ValidateError → List ValidateError
unfolding insert_error sort_errors merge_neighbours merge_sorted path_lt
merge_validate_errors errs = merge_sorted (sort_errors errs)

-- The first loop of `wrapValidateErrors`: the errors under the path, and those with none.
under_path : ConfigPath → List AnyError → List ValidateError
under_path path [] = []
under_path path (raw e ∷ rest) = under_path path rest
under_path path (joined es ∷ rest) =
    map (λ (e : ValidateError). record e { path = path ++ e.path }) es ++ under_path path rest

raw_errors : List AnyError → List RawError
raw_errors [] = []
raw_errors (raw e ∷ rest) = e ∷ raw_errors rest
raw_errors (joined es ∷ rest) = raw_errors rest

abbrev is_empty {ℓ} : {A : Type ℓ} → List A → Bool
is_empty [] = true
is_empty _ = false

-- `wrapValidateErrors` for errors that are not nil: what errors.Join holds.
unfoldable pub wrap_validate_errors : ConfigPath → List AnyError → List ValidateError
unfolding under_path raw_errors merge_validate_errors
wrap_validate_errors path errs =
    let validate_errs = under_path path errs in
    let raw_errs = raw_errors errs in
    merge_validate_errors (
      if is_empty validate_errs || (if is_empty raw_errs then false else true)
      then validate_errs ++ record { path = path; errs = raw_errs } ∷ []
      else validate_errs)
