-- ===== src/Texts.antt =====
-- What the code uses of package strings: `CutPrefix`, `TrimRight` and `SplitN`, on characters.
use Prim.Native.Char.{Char, code}
use text.Mathlib.TextEquality.{Char-path}
use text.Mathlib.TextLemmas.{nil-append, cons-append}
use tt.Prelude.{
  String, ◌<>◌, ◌≡◌, refl, ap, subst, ◌∙◌, true, false, Option, none, some, arith, nat_eq,
  nat_eq_iff, if◌then◌else◌, Bool-cases, inl, inr, ◌==◌,
}

-- strings.CutPrefix(s, p), with the result in case s begins with p.
unfoldable pub cut_prefix : String → String → Option String
cut_prefix String.[] s = some s
cut_prefix (String.◌∷◌ a p) String.[] = none
cut_prefix (String.◌∷◌ a p) (String.◌∷◌ c s) = elim (nat_eq (code a) (code c)) [
  | true ↦ cut_prefix p s
  | false ↦ none
]

pub cut_prefix-append : (p s : String) → cut_prefix p (p <> s) ≡ some s
unfolding cut_prefix
cut_prefix-append String.[] s = ap some (nil-append s)
cut_prefix-append (String.◌∷◌ a p) s = rw cons-append (ground (arith, cut_prefix-append p s))

pub append-cut_prefix : (p s t : String) → cut_prefix p s ≡ some t → s ≡ p <> t
unfolding cut_prefix
append-cut_prefix String.[] s t h = ground (arith, h, nil-append t)
append-cut_prefix (String.◌∷◌ a p) String.[] t h = absurd (ground (arith, h))
append-cut_prefix (String.◌∷◌ a p) (String.◌∷◌ c s) t h =
    elim (Bool-cases (nat_eq (code a) (code c))) [
      | inr other ↦ absurd (ground (arith, h, other))
      | inl same ↦
          let heads : a ≡ c = Char-path a c ((nat_eq_iff (code a) (code c)).0 same) in
          let tails : s ≡ p <> t = append-cut_prefix p s t (ground (arith, h, same)) in
          cc (heads, tails, cons-append a p t)
    ]

-- strings.TrimRight(s, "/")
unfoldable pub trim_slashes : String → String
trim_slashes String.[] = ""
trim_slashes (String.◌∷◌ c s) =
    let rest = trim_slashes s in
    if rest == "" then (if nat_eq (code c) b'/' then "" else String.◌∷◌ c "") else String.◌∷◌ c rest

-- strings.SplitN(s, "/", 2) where it gives two parts.
unfoldable pub split_slash : String → Option (String × String)
split_slash String.[] = none
split_slash (String.◌∷◌ c s) = elim (nat_eq (code c) b'/') [
  | true ↦ some ("", s)
  | false ↦ elim (split_slash s) [
    | some (before, after) ↦ some (String.◌∷◌ c before, after)
    | none ↦ none
  ]
]

slash_first :
    (c : Char) (t : String) → code c ≡ 47 → split_slash (String.◌∷◌ c "" <> t) ≡ some ("", t)
unfolding split_slash
slash_first c t h = rw cons-append (rw nil-append (ground (arith, h)))

slash_cons : (c d : Char) (t : String) → code c ≡ code d → String.◌∷◌ c t ≡ String.◌∷◌ d "" <> t
slash_cons c d t h = cc (Char-path c d h, cons-append d "" t, nil-append t)

split_tail :
    (c : Char) (s : String) (o : Option (String × String))
    → split_slash s ≡ o
    → nat_eq (code c) b'/' ≡ false
    → split_slash (String.◌∷◌ c s) ≡ none
    → split_slash s ≡ none
unfolding split_slash
split_tail c s none q other h = q
split_tail c s (some _) q other h = absurd (ground (arith, q, other, h))

split_more :
    (c : Char) (s before rest : String) (o : Option (String × String))
    → split_slash s ≡ o
    → nat_eq (code c) b'/' ≡ false
    → split_slash (String.◌∷◌ c s) ≡ some (before, rest)
    → (first : String) × (before ≡ String.◌∷◌ c first) × (split_slash s ≡ some (first, rest))
unfolding split_slash
split_more c s before rest none q other h = absurd (ground (arith, q, other, h))
split_more c s before rest (some (first, more)) q other h =
    (first, ground (arith, q, other, h), ground (arith, q, other, h))

-- A text is cut at its first slash.
pub split_slash-append :
    (s t : String) → split_slash s ≡ none → split_slash (s <> ("/" <> t)) ≡ some (s, t)
unfolding split_slash
split_slash-append String.[] t h = rw nil-append (slash_first _ t refl)
split_slash-append (String.◌∷◌ c s) t h = elim (Bool-cases (nat_eq (code c) b'/')) [
  | inl slash ↦ absurd (ground (arith, h, slash))
  | inr other ↦
      rw cons-append (ground (arith, other, split_slash-append s t (split_tail c s _ refl other h)))
]

pub split_slash-first :
    (s before rest : String)
    → split_slash s ≡ some (before, rest)
    → (s ≡ before <> ("/" <> rest)) × (split_slash before ≡ none)
unfolding split_slash
split_slash-first String.[] before rest h = absurd (ground (arith, h))
split_slash-first (String.◌∷◌ c s) before rest h = elim (Bool-cases (nat_eq (code c) b'/')) [
  | inl slash ↦
      let whole : String.◌∷◌ c s ≡ "/" <> s =
        slash_cons c _ s ((nat_eq_iff (code c) b'/').0 slash) in
      let first : ("" ≡ before) × (s ≡ rest) = ground (arith, h, slash) in
      (
        whole ∙ ground (arith, first, nil-append ("/" <> rest)),
        subst (λ (x : String). split_slash x ≡ none) first.0 refl,
      )
  | inr other ↦
      let (first, same, split) = split_more c s before rest _ refl other h in
      let (whole, none_left) = split_slash-first s first rest split in
      (
        cc (whole, same, cons-append c first ("/" <> rest)),
        rw same (ground (arith, other, none_left)),
      )
]
