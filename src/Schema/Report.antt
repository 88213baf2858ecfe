-- ===== src/Schema/Report.antt =====
-- What `Validate` of lib/cluster/schema.go reports for a whole configuration.
use tt.Prelude.{◌≡◌, ◌↔◌, ◌⊎◌, refl, List, [], ◌∷◌, ◌++◌, arith, All, inl, inr}
use tt.Config.{Config, ConfigError, Result, ok, err, get}
use tt.Config.Data.{Value}
use tt.Schema.Errors.{AnyError}
use tt.Schema.{Go, valid, validate, kept}
use tt.Schema.Paths.{SchemaPath, accepted, validate_paths, validate_config, verdict_of}
use tt.Schema.Loops.{Checked-cases, snoc-ne-nil}

Result-cases : (r : Result Value) → ((v : Value) × (r ≡ ok v)) ⊎ ((e : ConfigError) × (r ≡ err e))
Result-cases (ok v) = inl (v, refl)
Result-cases (err e) = inr (e, refl)

module _ (go : Go) (c : Config) where
  -- The value at the path, if `Get` finds one, is let pass.
  abbrev pub Passes : SchemaPath → Type 0
  Passes p = (v : Value) → get p.path c ≡ ok v → (w : Value) × (validate go p.validator v ≡ valid w)

  verdict_of-accepted : (errs : List AnyError) → verdict_of errs ≡ accepted → errs ≡ []
  verdict_of-accepted [] h = refl
  verdict_of-accepted (e ∷ errs) h = absurd (ground (arith, h))

  accepted-Passes :
      (schema : List SchemaPath) (errs : List AnyError)
      → validate_paths go c schema errs ≡ accepted
      → (errs ≡ []) × All Passes schema
  unfolding validate_paths
  accepted-Passes [] errs h = (verdict_of-accepted errs h, tt)
  accepted-Passes (p ∷ rest) errs h = elim (Result-cases (get p.path c)) [
    | inr (e, f) ↦
        let (none_before, after) = accepted-Passes rest errs (ground (arith, h, f)) in
        (none_before, (λ v g. absurd (ground (arith, f, g)), after))
    | inl (v, f) ↦ elim (Checked-cases (validate go p.validator v)) [
      | inl (w, g) ↦
          let (none_before, after) = accepted-Passes rest errs (ground (arith, h, f, g)) in
          (none_before, (λ u k. (w, ground (arith, f, g, k)), after))
      | inr (inl (es, g)) ↦ absurd (
          snoc-ne-nil errs (kept p.path es)
            (accepted-Passes rest (errs ++ kept p.path es ∷ []) (ground (arith, h, f, g))).0)
      | inr (inr g) ↦ absurd (ground (arith, h, f, g))
    ]
  ]

  Passes-accepted :
      (schema : List SchemaPath) → All Passes schema → validate_paths go c schema [] ≡ accepted
  unfolding validate_paths
  Passes-accepted [] h = refl
  Passes-accepted (p ∷ rest) h = elim (Result-cases (get p.path c)) [
    | inr (e, f) ↦ ground (arith, f, Passes-accepted rest h.1)
    | inl (v, f) ↦ let (w, g) = h.0 v f in ground (arith, f, g, Passes-accepted rest h.1)
  ]

  -- `Validate` returns no error exactly if, for every path of the schema, `Get` finds nothing
  -- there or the path's validator lets the value found pass.
  pub validate_config-accepted :
      (schema : List SchemaPath) → (validate_config go c schema ≡ accepted) ↔ All Passes schema
  unfolding validate_config
  validate_config-accepted schema = (λ h. (accepted-Passes schema [] h).1, Passes-accepted schema)
