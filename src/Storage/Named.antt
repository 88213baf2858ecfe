-- ===== src/Storage/Named.antt =====
-- The hashes that `EtcdKeyDataPublisher.Publish`, lib/cluster/etcd.go, puts.
use text.Mathlib.TextLemmas.{append_cancel_left, append_cancel_right}
use tt.Prelude.{
  String, ◌<>◌, ◌≡◌, refl, ap, ◌∙◌, ◌≢◌, true, false, Option, none, some, List, [], ◌∷◌, ◌++◌, map,
  All, if◌then◌else◌, ◌==◌, arith, eq_iff, eq_refl, Bool-cases, inl, inr, subst,
}
use tt.Texts.{split_slash}
use tt.Storage.{Hashes, get_hashes_prefix, get_hashes_key, get_sign_prefix, get_sign_key}
use tt.Storage.Etcd.{Op, op_put, op_get, op_get_prefix, op_delete, after}
use tt.Storage.Paths.{sign_not_hashes}
use tt.Storage.SignOps.{hash_op}
use tt.Storage.HashMap.{get_hash}

-- The names of hashes differ, and none has a slash.
abbrev pub IsNamed : Hashes → Type 0
IsNamed [] = Unit
IsNamed ((name, value) ∷ hashes) =
    (split_slash name ≡ none)
    × (All (λ (other : String × String). other.0 ≢ name) hashes × IsNamed hashes)

abbrev pub or_else : Option String → Option String → Option String
or_else none old = old
or_else (some value) old = some value

get_hash_apart :
    (name : String) (hashes : Hashes)
    → All (λ (other : String × String). other.0 ≢ name) hashes
    → get_hash name hashes ≡ none
unfolding get_hash
get_hash_apart name [] h = refl
get_hash_apart name ((other, value) ∷ hashes) h =
    ground (arith, h.0, get_hash_apart name hashes h.1, eq_iff other name)

pub get_hash-slashless :
    (name value : String) (hashes : Hashes)
    → IsNamed hashes
    → get_hash name hashes ≡ some value
    → split_slash name ≡ none
unfolding get_hash
get_hash-slashless name value [] named h = absurd (ground (arith, h))
get_hash-slashless name value ((other, v) ∷ hashes) named h = elim (Bool-cases (other == name)) [
  | inl same ↦ subst (λ (x : String). split_slash x ≡ none) ((eq_iff other name).0 same) named.0
  | inr differs ↦ get_hash-slashless name value hashes named.1.1 (ground (arith, h, differs))
]

pub after_last :
    (ops : List Op) (k value : String) (old : Option String)
    → after (ops ++ op_put k value ∷ []) k old ≡ some value
after_last [] k value old = rw (eq_refl k) refl
after_last (op_put key v ∷ ops) k value old =
    after_last ops k value (if key == k then some v else old)
after_last (op_delete key ∷ ops) k value old =
    after_last ops k value (if key == k then none else old)
after_last (op_get key ∷ ops) k value old = after_last ops k value old
after_last (op_get_prefix key ∷ ops) k value old = after_last ops k value old

get_hashes_key_inj :
    (base a b key : String) → get_hashes_key base a key ≡ get_hashes_key base b key → a ≡ b
unfolding get_hashes_key
get_hashes_key_inj base a b key h =
    append_cancel_right a b ("/" <> key) (append_cancel_left (get_hashes_prefix base) _ _ h)

module _ (base key sig name : String) where
  sign_apart : (get_sign_key base key == get_hashes_key base name key) ≡ false
  unfolding get_sign_key get_hashes_key
  sign_apart =
      let differs = sign_not_hashes base key (name <> ("/" <> key)) in
      ground (
        arith,
        differs,
        eq_iff (get_sign_prefix base <> key) (get_hashes_prefix base <> (name <> ("/" <> key))),
      )

  -- What the puts of the hashes leave under the path of a hash.
  pub after_hashes :
      (hashes : Hashes) (old : Option String)
      → IsNamed hashes
      → after
          (map (hash_op base key) hashes ++ op_put (get_sign_key base key) sig ∷ [])
          (get_hashes_key base name key)
          old
        ≡ or_else (get_hash name hashes) old
  unfolding get_hash
  after_hashes [] old named = rw sign_apart refl
  after_hashes ((hash, value) ∷ hashes) old named = elim (Bool-cases (hash == name)) [
    | inl same ↦
        let q : hash ≡ name = (eq_iff hash name).0 same in
        let here : (get_hashes_key base hash key == get_hashes_key base name key) ≡ true =
          (eq_iff _ _).1 (ap (λ (h : String). get_hashes_key base h key) q) in
        let absent = get_hash_apart name hashes (
          subst (λ (n : String). All (λ (other : String × String). other.0 ≢ n) hashes) q
            named.1.0) in
        rw (here, same) (after_hashes hashes (some value) named.1.1 ∙ rw absent refl)
    | inr differs ↦
        let apart : (get_hashes_key base hash key == get_hashes_key base name key) ≡ false =
          ground (
            arith,
            differs,
            eq_iff hash name,
            eq_iff (get_hashes_key base hash key) (get_hashes_key base name key),
            get_hashes_key_inj base hash name key,
          ) in
        rw (apart, differs) (after_hashes hashes old named.1.1)
  ]
