-- ===== src/Schema/Shape.antt =====
-- What a validated value looks like, whatever was validated.
use tt.Prelude.{ℕ, String, ◌≡◌, Bool, true, false, some, List, [], ◌∷◌, ℤ, ◌⊎◌}
use tt.Config.Data.{
  any_width, w64, string, int, float, bool, Key, Value, scalar, list, map_any, Items, no_items,
  item, Entries, end, entry, is_nil,
}
use tt.Schema.{
  validator, Go, Validator, any_validator, string_validator, boolean_validator, integer_validator,
  number_validator, sequence_validator, allowed_validator, array_validator, record_validator,
  map_validator, Validators, no_validators, RecordItems, no_fields, record_item, key_value,
}

abbrev pub AllItems : (Value → Type 0) → Items → Type 0
AllItems P no_items = Unit
AllItems P (item v l) = P v × AllItems P l

abbrev pub AllEntries : (Key → Value → Type 0) → Entries → Type 0
AllEntries P end = Unit
AllEntries P (entry k v m) = P k v × AllEntries P m

-- One of the values is, once converted, equal to `v`.
abbrev pub Allows : Go → Value → List Value → Type 0
Allows go v [] = ⊥
Allows go v (a ∷ rest) = (go.equal_converted v a ≡ true) ⊎ Allows go v rest

module _ (go : Go) where
  abbrev mutual
    pub HasShape : Validator → Value → Type 0
    HasShape any_validator y = is_nil y ≡ false
    HasShape string_validator y = (s : String) × (y ≡ scalar (string s))
    HasShape boolean_validator y = (b : Bool) × (y ≡ scalar (bool b))
    HasShape integer_validator y = (n : ℤ) × (y ≡ scalar (int any_width n))
    HasShape number_validator y = (x : ℕ) × (y ≡ scalar (float w64 x))
    HasShape (sequence_validator vs) y = HasShapeFirst vs y
    HasShape (allowed_validator w allowed) y = HasShape w y × Allows go y allowed
    HasShape (array_validator w) y = (l : Items) × (y ≡ list l) × AllItems (HasShape w) l
    HasShape (record_validator items) y =
        (m : Entries) × (y ≡ map_any m) × AllEntries (λ k v. HasField items k v) m
    HasShape (map_validator k w) y =
        (m : Entries) × (y ≡ map_any m)
        × AllEntries (λ key v. HasShape k (key_value key) × HasShape w v) m

    -- A sequence with no validator lets every value pass.
    pub HasShapeFirst : Validators → Value → Type 0
    HasShapeFirst no_validators y = Unit
    HasShapeFirst (validator w rest) y = HasShape w y ⊎ HasShapeRest rest y

    pub HasShapeRest : Validators → Value → Type 0
    HasShapeRest no_validators y = ⊥
    HasShapeRest (validator w rest) y = HasShape w y ⊎ HasShapeRest rest y

    pub HasField : RecordItems → Key → Value → Type 0
    HasField no_fields k v = ⊥
    HasField (record_item j w rest) k v = (k ≡ some (string j)) × HasShape w v ⊎ HasField rest k v

-- Two keys that are texts are equal where Go finds them equal.
abbrev pub TextKeys : Go → Type 0
TextKeys go = (a b : String) → go.key_eq (some (string a)) (some (string b)) ≡ true → a ≡ b
