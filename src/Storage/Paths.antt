-- ===== src/Storage/Paths.antt =====
-- The keys of lib/cluster/storages.go do not collide.
use Prim.Native.String.{len, slice}
use text.Mathlib.TextLemmas.{append_assoc, append_cancel_left}
use text.Mathlib.TextPositions.{slice-append_left}
use tt.Prelude.{String, ◌<>◌, ◌≡◌, refl, sym, ap, ◌∙◌, ◌≢◌, eq_iff}
use tt.Texts.{trim_slashes}
use tt.Storage.{get_config_prefix, get_hashes_prefix, get_sign_prefix}

-- Keys of different families part company right after the trimmed base.
pub heads_equal : (p q x y : String) → len p ≡ len q → p <> x ≡ q <> y → p ≡ q
heads_equal p q x y same h =
    sym (slice-append_left p x)
    ∙ (ap (λ (t : String). slice t 0 (len p)) h
        ∙ (ap (slice (q <> y) 0) same ∙ slice-append_left q y))

pub below_base : (base p q x y : String) → (base <> p) <> x ≡ (base <> q) <> y → p <> x ≡ q <> y
below_base base p q x y h =
    append_cancel_left base (p <> x) (q <> y)
      (sym (append_assoc base p x) ∙ (h ∙ append_assoc base q y))

pub hashes_not_config :
    (base x y : String) → get_hashes_prefix base <> x ≢ get_config_prefix base <> y
unfolding get_hashes_prefix get_config_prefix
hashes_not_config base x y h =
    let same : ◌≡◌ {A = String} "/hashes/" "/config/" =
      heads_equal "/hashes/" "/config/" x y refl
        (below_base (trim_slashes base) "/hashes/" "/config/" x y h) in
    let test = (eq_iff "/hashes/" "/config/").1 same in absurd (cc (test))

pub sign_not_config : (base x y : String) → get_sign_prefix base <> x ≢ get_config_prefix base <> y
unfolding get_sign_prefix get_config_prefix
sign_not_config base x y h =
    let same : ◌≡◌ {A = String} "/sig/" "/conf" =
      heads_equal "/sig/" "/conf" x ("ig/" <> y) refl
        (below_base (trim_slashes base) "/sig/" "/config/" x y h ∙ append_assoc "/conf" "ig/" y) in
    let test = (eq_iff "/sig/" "/conf").1 same in absurd (cc (test))

pub sign_not_hashes : (base x y : String) → get_sign_prefix base <> x ≢ get_hashes_prefix base <> y
unfolding get_sign_prefix get_hashes_prefix
sign_not_hashes base x y h =
    let same : ◌≡◌ {A = String} "/sig/" "/hash" =
      heads_equal "/sig/" "/hash" x ("es/" <> y) refl
        (below_base (trim_slashes base) "/sig/" "/hashes/" x y h ∙ append_assoc "/hash" "es/" y) in
    let test = (eq_iff "/sig/" "/hash").1 same in absurd (cc (test))
