-- ===== src/Search/Tags.antt =====
-- Which tags of a repository `GetVersionsFromGitRemote` lists.
use tt.Prelude.{
  Has, String, ◌≡◌, ◌↔◌, ◌⊎◌, inl, inr, refl, ap, sym, subst, ◌∙◌, Bool, true, false, ◌&&◌, Option,
  some, List, [], ◌∷◌, arith, ◌==◌, eq_iff, Bool-cases, Option-cases,
}
use tt.Version.{Version, VersionError, Parsed, parsed, failed, parse}
use tt.Version.Sort.{IsSorted, Has-stable_sort, stable_sort, stable_sort-IsSorted}
use tt.Search.{
  SearchError, no_tags, Found, found, refused, panicked, is_masked, after_last_slash, keep_tag,
  remote_versions, get_versions_from_git_remote, git_repo_tarantool,
}

-- Some line ends in a tag of this version, which is not masked where masks count.
abbrev pub IsTagged : Bool → Version → List String → Type 0
IsTagged masks v [] = ⊥
IsTagged masks v (line ∷ lines) =
    ((tag : String) × (after_last_slash line ≡ some tag)
      × (parse tag ≡ parsed v)
      × ((is_masked v && masks) ≡ false))
    ⊎ IsTagged masks v lines

abbrev Listed : Version → List Version → Type 0
Listed v l = Has v l

Parsed-ne-failed : (v : Version) (e : VersionError) → ¬ (failed e ≡ parsed v)
Parsed-ne-failed v e h = cc

parsed_inj : (v w : Version) → parsed v ≡ parsed w → v ≡ w
parsed_inj v w h = ground (arith, h)

Has-keep_tag_from :
    (masks : Bool) (v : Version) (p : Parsed Version) (rest : List Version)
    → Listed v (keep_tag masks p rest)
    → ((p ≡ parsed v) × ((is_masked v && masks) ≡ false)) ⊎ Listed v rest
unfolding keep_tag
Has-keep_tag_from masks v (failed e) rest h = inr h
Has-keep_tag_from masks v (parsed w) rest h = elim (Bool-cases (is_masked w && masks)) [
  | inl e ↦ inr (rw e at h)
  | inr e ↦ elim (rw e at h) [
    | inl k ↦ inl (ap parsed (sym k), ap (λ u. is_masked u && masks) k ∙ e)
    | inr k ↦ inr k
  ]
]

Has-keep_tag_to :
    (masks : Bool) (v : Version) (p : Parsed Version) (rest : List Version)
    → ((p ≡ parsed v) × ((is_masked v && masks) ≡ false)) ⊎ Listed v rest
    → Listed v (keep_tag masks p rest)
unfolding keep_tag
Has-keep_tag_to masks v (failed e) rest (inl h) = absurd (Parsed-ne-failed v e h.0)
Has-keep_tag_to masks v (failed e) rest (inr h) = h
Has-keep_tag_to masks v (parsed w) rest h = elim (Bool-cases (is_masked w && masks)) [
  | inl e ↦ rw e (elim h [
    | inl k ↦ absurd (ground (arith, e, ap (λ u. is_masked u && masks) (parsed_inj w v k.0), k.1))
    | inr k ↦ k
  ])
  | inr e ↦ rw e (elim h [ inl k ↦ inl (sym (parsed_inj w v k.0)) | inr k ↦ inr k ])
]

Found-cases :
    (f : Found (List Version))
    → ((l : List Version) × (f ≡ found l))
      ⊎ (((e : SearchError) × (f ≡ refused e)) ⊎ (f ≡ panicked))
Found-cases (found l) = inl (l, refl)
Found-cases (refused e) = inr (inl (e, refl))
Found-cases panicked = inr (inr refl)

same_tag : (s t : String) (o : Option String) → o ≡ some s → o ≡ some t → s ≡ t
same_tag s t o h k = ground (arith, h, k)

found_inj : (l m : List Version) → found l ≡ found m → l ≡ m
found_inj l m h = ground (arith, h)

remote_versions-IsTagged :
    (masks : Bool) (lines : List String) (vs : List Version)
    → remote_versions masks lines ≡ found vs
    → (v : Version) → Listed v vs ↔ IsTagged masks v lines
unfolding remote_versions
remote_versions-IsTagged masks [] vs h v =
    ((λ k. subst (Listed v) (sym (found_inj [] vs h)) k), λ k. absurd k)
remote_versions-IsTagged masks (line ∷ lines) vs h v = elim (Option-cases (after_last_slash line)) [
  | inl e ↦ absurd (ground (arith, h, e))
  | inr (tag, e) ↦ elim (Found-cases (remote_versions masks lines)) [
    | inr (inl (err, f)) ↦ absurd (ground (arith, h, e, f))
    | inr (inr f) ↦ absurd (ground (arith, h, e, f))
    | inl (rest, f) ↦
        let same : keep_tag masks (parse tag) rest ≡ vs =
          found_inj (keep_tag masks (parse tag) rest) vs (ground (arith, h, e, f)) in
        let ih = remote_versions-IsTagged masks lines rest f v in
        (
          (λ k. elim (Has-keep_tag_from masks v (parse tag) rest (subst (Listed v) (sym same) k)) [
            | inl m ↦ inl (tag, e, m.0, m.1)
            | inr m ↦ inr (ih.0 m)
          ]),
          λ k. subst (Listed v) same (
              Has-keep_tag_to masks v (parse tag) rest (elim k [
                | inl (t, d, m, n) ↦ inl (
                  subst (λ x. parse x ≡ parsed v) (same_tag t tag (after_last_slash line) d e) m,
                  n,
                )
                | inr m ↦ inr (ih.1 m)
              ])),
        )
  ]
]

no_tags-IsTagged :
    (masks : Bool) (v : Version) (lines : List String)
    → no_tags lines ≡ true
    → ¬ IsTagged masks v lines
unfolding after_last_slash
no_tags-IsTagged masks v [] h k = k
no_tags-IsTagged masks v (line ∷ []) h (inl (tag, e, k, n)) =
    let blank : line ≡ "" = (eq_iff line "").0 h in
    absurd (ground (arith, sym e ∙ ap after_last_slash blank))
no_tags-IsTagged masks v (line ∷ []) h (inr k) = k
no_tags-IsTagged masks v (line ∷ next ∷ lines) h k = absurd (ground (arith, h))

-- Where GetVersionsFromGitRemote answers, no version of its list is less than one before it, and
-- the list has exactly the versions that parse out of the tags and are not masked; masks count for
-- the repository of Tarantool only.
pub get_versions_from_git_remote-IsTagged :
    (repo : String) (lines : List String) (vs : List Version)
    → get_versions_from_git_remote repo (some lines) ≡ found vs
    → IsSorted (λ (w : Version). w) vs
      × ((v : Version) → Has v vs ↔ IsTagged (repo == git_repo_tarantool) v lines)
unfolding get_versions_from_git_remote
get_versions_from_git_remote-IsTagged repo lines vs h = elim (Bool-cases (no_tags lines)) [
  | inl e ↦
      let empty : [] ≡ vs = found_inj [] vs (ground (arith, h, e)) in
      subst
        (λ l.
          IsSorted (λ (w : Version). w) l
          × ((v : Version) → Has v l ↔ IsTagged (repo == git_repo_tarantool) v lines))
        empty
        (tt, λ v. ((λ k. absurd k), λ k. no_tags-IsTagged (repo == git_repo_tarantool) v lines e k))
  | inr e ↦ elim (Found-cases (remote_versions (repo == git_repo_tarantool) lines)) [
    | inr (inl (err, f)) ↦ absurd (ground (arith, h, e, f))
    | inr (inr f) ↦ absurd (ground (arith, h, e, f))
    | inl (l, f) ↦
        let same : stable_sort (λ (w : Version). w) l ≡ vs =
          found_inj (stable_sort (λ w. w) l) vs (ground (arith, h, e, f)) in
        subst
          (λ m.
            IsSorted (λ (w : Version). w) m
            × ((v : Version) → Has v m ↔ IsTagged (repo == git_repo_tarantool) v lines))
          same
          (
            stable_sort-IsSorted (λ w. w) l,
            λ v.
                let sorting = Has-stable_sort (λ (w : Version). w) v l in
                let listing = remote_versions-IsTagged (repo == git_repo_tarantool) lines l f v in
                ((λ k. listing.0 (sorting.0 k)), λ k. sorting.1 (listing.1 k)),
          )
  ]
]
