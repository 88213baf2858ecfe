-- ===== src/Schema/Accepted.antt =====
-- Every validator gives values of its shape.
use tt.Prelude.{
  String, ◌≡◌, refl, ap, sym, subst, ◌∙◌, true, some, List, [], ◌∷◌, ◌++◌, arith, inl, inr,
  Option-cases,
}
use tt.Config.Data.{string, Key, Value, list, map_any, Items, Entries, end, lookup}
use tt.Schema.{
  validator, Go, Validator, any_validator, string_validator, boolean_validator, integer_validator,
  number_validator, sequence_validator, allowed_validator, array_validator, record_validator,
  map_validator, Validators, no_validators, RecordItems, no_fields, record_item, Checked, valid,
  kept, key_value, write, check_array, check_map, check_fields, validate, validate_first,
  validate_fields,
}
use tt.Schema.Errors.{AnyError, joined}
use tt.Schema.Shape.{
  AllItems, AllEntries, HasShape, HasShapeFirst, HasShapeRest, HasField, TextKeys,
}
use tt.Schema.Loops.{
  Checked-cases, invalid_or-valid, snoc-ne-nil, check_items-AllItems, write-AllEntries,
  check_entries-AllEntries,
}
use tt.Schema.Scalars.{
  any-HasShape, string-HasShape, boolean-HasShape, integer-HasShape, number-HasShape,
  check_allowed-HasShape,
}

HasField-string :
    (go : Go) (items : RecordItems) (k : Key) (v : Value)
    → HasField go items k v
    → (s : String) × (k ≡ some (string s))
HasField-string go no_fields k v h = absurd h
HasField-string go (record_item j w rest) k v (inl (e, p)) = (j, e)
HasField-string go (record_item j w rest) k v (inr h) = HasField-string go rest k v h

module _ (go : Go) (text_keys : TextKeys go) where
  replace-HasField :
      (items : RecordItems) (k : String) (v : Value)
      → HasField go items (some (string k)) v
      → (j : Key) (w : Value) → go.key_eq j (some (string k)) ≡ true
      → HasField go items j w
      → HasField go items j v
  replace-HasField items k v field j w same old =
      let (s, e) = HasField-string go items j w old in
      subst (λ (i : Key). HasField go items i v)
        (sym (
          e
          ∙ ap (λ (t : String). let o : Key = some (string t) in o) (text_keys s k (rw e at same))))
        field

  check_array-HasShape :
      (P : Value → Type 0) (check : Value → Checked)
      → ((x y : Value) → check x ≡ valid y → P y)
      → (v y : Value) → check_array go check v ≡ valid y
      → (l : Items) × (y ≡ list l) × AllItems P l
  unfolding check_array
  check_array-HasShape P check each (list l) y h = check_items-AllItems P check each l [] [] y tt h
  check_array-HasShape P check each _ y h = absurd (ground (arith, h))

  check_map-HasShape :
      (K W : Value → Type 0) (check_key check_value : Value → Checked)
      → ((x y : Value) → check_key x ≡ valid y → K y)
      → ((x y : Value) → check_value x ≡ valid y → W y)
      → (v y : Value) → check_map go check_key check_value v ≡ valid y
      → (m : Entries) × (y ≡ map_any m) × AllEntries (λ k w. K (key_value k) × W w) m
  unfolding check_map
  check_map-HasShape K W check_key check_value keys values (map_any m) y h =
      check_entries-AllEntries go K W check_key check_value keys values m end [] y tt h
  check_map-HasShape K W check_key check_value keys values _ y h = absurd (ground (arith, h))

  check_fields-HasShape :
      (P : Key → Value → Type 0) (check : Entries → Checked)
      → ((m : Entries) (y : Value)
          → check m ≡ valid y
          → (r : Entries) × (y ≡ map_any r) × AllEntries P r)
      → (v y : Value) → check_fields go check v ≡ valid y
      → (m : Entries) × (y ≡ map_any m) × AllEntries P m
  unfolding check_fields
  check_fields-HasShape P check each (map_any m) y h = each m y h
  check_fields-HasShape P check each _ y h = absurd (ground (arith, h))

  mutual
    unfolding validate

    value-HasShape : (w : Validator) (v y : Value) → validate go w v ≡ valid y → HasShape go w y
    value-HasShape any_validator v y h = any-HasShape v y h
    value-HasShape string_validator v y h = string-HasShape go v y h
    value-HasShape boolean_validator v y h = boolean-HasShape v y h
    value-HasShape integer_validator v y h = integer-HasShape v y h
    value-HasShape number_validator v y h = number-HasShape go v y h
    value-HasShape (sequence_validator vs) v y h = first-HasShape vs v y h
    value-HasShape (allowed_validator w allowed) v y h =
        check_allowed-HasShape go (HasShape go w) allowed v y (validate go w v) (value-HasShape w v)
          h
    value-HasShape (array_validator w) v y h =
        check_array-HasShape (HasShape go w) (validate go w) (value-HasShape w) v y h
    value-HasShape (record_validator items) v y h =
        check_fields-HasShape (HasField go items) (λ m. validate_fields go items m end [])
          (λ m y' h'. fields-HasShape items items (λ k w f. f) m end [] y' tt h') v y h
    value-HasShape (map_validator k w) v y h =
        check_map-HasShape (HasShape go k) (HasShape go w) (validate go k) (validate go w)
          (value-HasShape k) (value-HasShape w) v y h

    first-HasShape :
        (vs : Validators) (v y : Value)
        → validate_first go vs v [] ≡ valid y
        → HasShapeFirst go vs y
    first-HasShape no_validators v y h = tt
    first-HasShape (validator w rest) v y h = elim (Checked-cases (validate go w v)) [
      | inl (x, f) ↦ inl (value-HasShape w v y (ground (arith, h, f)))
      | inr (inl (es, f)) ↦
          inr (rest-HasShape rest v y (joined es ∷ []) (λ e. cc) (ground (arith, h, f)))
      | inr (inr f) ↦ absurd (ground (arith, h, f))
    ]

    rest-HasShape :
        (vs : Validators) (v y : Value) (errs : List AnyError)
        → ¬ (errs ≡ [])
        → validate_first go vs v errs ≡ valid y
        → HasShapeRest go vs y
    rest-HasShape no_validators v y errs some_err h = some_err (invalid_or-valid errs v y h).0
    rest-HasShape (validator w rest) v y errs some_err h = elim (Checked-cases (validate go w v)) [
      | inl (x, f) ↦ inl (value-HasShape w v y (ground (arith, h, f)))
      | inr (inl (es, f)) ↦ inr (
          rest-HasShape rest v y (errs ++ joined es ∷ []) (snoc-ne-nil errs (joined es))
            (ground (arith, h, f)))
      | inr (inr f) ↦ absurd (ground (arith, h, f))
    ]

    fields-HasShape :
        (items whole : RecordItems)
        → ((k : Key) (v : Value) → HasField go items k v → HasField go whole k v)
        → (m out : Entries) (errs : List AnyError) (y : Value) → AllEntries (HasField go whole) out
        → validate_fields go items m out errs ≡ valid y
        → (r : Entries) × (y ≡ map_any r) × AllEntries (HasField go whole) r
    fields-HasShape no_fields whole embed m out errs y p h =
        (out, sym (invalid_or-valid errs (map_any out) y h).1, p)
    fields-HasShape (record_item k w rest) whole embed m out errs y p h =
        elim (Option-cases (lookup k m)) [
          | inl n ↦
              fields-HasShape rest whole (λ j v f. embed j v (inr f)) m out errs y p
                (ground (arith, h, n))
          | inr (v, n) ↦ elim (Checked-cases (validate go w v)) [
            | inl (x, f) ↦
                let good : HasField go whole (some (string k)) x =
                  embed (some (string k)) x (inl (refl, value-HasShape w v x f)) in
                fields-HasShape rest whole (λ j u g. embed j u (inr g)) m
                  (write go (some (string k)) x out) errs y
                  (write-AllEntries go (HasField go whole) (some (string k)) x
                    (replace-HasField whole k x good) good out p)
                  (ground (arith, h, n, f))
            | inr (inl (es, f)) ↦
                fields-HasShape rest whole (λ j u g. embed j u (inr g)) m out
                  (errs ++ kept (k ∷ []) es ∷ []) y p (ground (arith, h, n, f))
            | inr (inr f) ↦ absurd (ground (arith, h, n, f))
          ]
        ]

  -- Where only equal texts are equal keys, a value that a validator lets pass has come out in the shape that the validator is for: a
  -- text, a Boolean, an `int`, a float64, a list or a map of such, a known field, or a value that
  -- is equal to an allowed one.
  pub validate-HasShape :
      (w : Validator) (v y : Value) → validate go w v ≡ valid y → HasShape go w y
  validate-HasShape w v y h = value-HasShape w v y h
