-- ===== src/Tail/Walk.antt =====
-- The blocks of `newTailReader` visit the positions of a file one by one, all but the first of each
-- block.
use tt.Prelude.{
  ℕ, zero, suc, ◌+◌, ◌-◌, ◌≤◌, ◌<◌, ◌≡◌, refl, ap, sym, ◌∙◌, Bool, true, false, List, nat_eq,
  if◌then◌else◌, arith, Bool-cases, inl, inr,
}
use tt.Tail.{Found, is_newline, start_after, scan}

module _ (newline : ℕ → Bool) where
  -- The start of the last `k` lines of what stands before `p`.
  unfoldable pub line_start : ℕ → ℕ → ℕ
  line_start zero k = 0
  line_start (suc p) k = elim (newline p) [
    | false ↦ line_start p k
    | true ↦ elim (nat_eq k 1) [ true ↦ suc p | false ↦ line_start p (k - 1) ]
  ]

  module _ (count : ℕ) where
    unfoldable pub walk : ℕ → Found → Found
    walk zero found = found
    walk (suc p) (start_pos, lines) = elim (newline p) [
      | false ↦ walk p (start_pos, lines)
      | true ↦ elim (nat_eq (lines + 1) count) [
        | true ↦ (suc p, lines + 1)
        | false ↦ walk p (suc p, lines + 1)
      ]
    ]

    abbrev pub start_of : Found → ℕ
    start_of (start_pos, lines) = if nat_eq lines count then start_pos else 0

    pub walk_start :
        (p start_pos lines : ℕ)
        → lines < count
        → start_of (walk p (start_pos, lines)) ≡ line_start p (count - lines)
    unfolding walk line_start
    walk_start zero start_pos lines h = ground arith
    walk_start (suc p) start_pos lines h =
        ground (arith, walk_start p start_pos lines h, walk_start p (suc p) (lines + 1))

pub scan_bounds :
    (file : List ℕ) (count offset i start_pos lines : ℕ)
    → offset + i < start_pos
    → lines < count
    → (offset < (scan file count offset i (start_pos, lines)).0)
      × ((scan file count offset i (start_pos, lines)).1 ≤ count)
unfolding scan start_after
scan_bounds file count offset zero start_pos lines h few = omega arith
scan_bounds file count offset (suc i) start_pos lines h few =
    elim (Bool-cases (is_newline file (offset + suc i))) [
      | inr other ↦
          rw (scan, other) (scan_bounds file count offset i start_pos lines (omega arith) few)
      | inl newline ↦ elim (Bool-cases (nat_eq (lines + 1) count)) [
        | inl last ↦ rw (scan, newline, last) (ground arith)
        | inr more ↦
            rw (scan, newline, more)
              (scan_bounds file count offset i (start_after start_pos (offset + suc i)) (lines + 1)
                (ground arith) (ground (arith, more)))
      ]
    ]

-- A walk that stops once it has found enough.
abbrev pub walk_on : (ℕ → Bool) → ℕ → ℕ → Found → Found
walk_on newline count p found = if nat_eq found.1 count then found else walk newline count p found

-- One position, on each branch, of the inner loop and of the walk.
module _ (file : List ℕ) (count offset i start_pos lines : ℕ) where
  scan_skip :
      is_newline file (offset + suc i) ≡ false
      → scan file count offset (suc i) (start_pos, lines)
        ≡ scan file count offset i (start_pos, lines)
  unfolding scan
  scan_skip other = rw (scan, other) refl

  scan_more :
      is_newline file (offset + suc i) ≡ true
      → nat_eq (lines + 1) count ≡ false
      → scan file count offset (suc i) (start_pos, lines)
        ≡ scan file count offset i (start_after start_pos (offset + suc i), lines + 1)
  unfolding scan
  scan_more feed more = rw (scan, feed, more) refl

  scan_last :
      is_newline file (offset + suc i) ≡ true
      → nat_eq (lines + 1) count ≡ true
      → scan file count offset (suc i) (start_pos, lines)
        ≡ (start_after start_pos (offset + suc i), lines + 1)
  unfolding scan
  scan_last feed last = rw (scan, feed, last) refl

module _ (newline : ℕ → Bool) (count p start_pos lines : ℕ) where
  walk_skip :
      newline p ≡ false
      → walk newline count (suc p) (start_pos, lines) ≡ walk newline count p (start_pos, lines)
  unfolding walk
  walk_skip other = rw (walk, other) refl

  walk_more :
      newline p ≡ true
      → nat_eq (lines + 1) count ≡ false
      → walk newline count (suc p) (start_pos, lines) ≡ walk newline count p (suc p, lines + 1)
  unfolding walk
  walk_more feed more = rw (walk, feed, more) refl

  walk_last :
      newline p ≡ true
      → nat_eq (lines + 1) count ≡ true
      → walk newline count (suc p) (start_pos, lines) ≡ (suc p, lines + 1)
  unfolding walk
  walk_last feed last = rw (walk, feed, last) refl

walk_on_stopped :
    (newline : ℕ → Bool) (count p start_pos lines : ℕ)
    → nat_eq lines count ≡ true
    → walk_on newline count p (start_pos, lines) ≡ (start_pos, lines)
walk_on_stopped newline count p start_pos lines h = rw h refl

-- A block is walked down to its first position.
pub scan-walk :
    (file : List ℕ) (newline : ℕ → Bool) (count offset i start_pos lines : ℕ)
    → ((j : ℕ) → j < i → newline (offset + suc j) ≡ is_newline file (offset + suc j))
    → offset + i + 1 < start_pos
    → lines < count
    → walk newline count (suc (offset + i)) (start_pos, lines)
      ≡ walk_on newline count (suc offset) (scan file count offset i (start_pos, lines))
unfolding start_after
scan-walk file newline count offset zero start_pos lines same h few =
    let end : offset + 0 ≡ offset = omega arith in
    let open_lem : nat_eq lines count ≡ false = ground (arith, few) in
    unfold scan in rw (end, scan, open_lem) refl
scan-walk file newline count offset (suc i) start_pos lines same h few =
    let at = offset + suc i in
    let below : at ≡ suc (offset + i) = omega arith in
    let seen : newline at ≡ is_newline file at = same i (omega arith) in
    let inner = λ (j : ℕ) (k : j < i). same j (omega arith) in
    elim (Bool-cases (is_newline file at)) [
      | inr other ↦
          walk_skip newline count at start_pos lines (seen ∙ other)
          ∙ ap (λ (q : ℕ). walk newline count q (start_pos, lines)) below
          ∙ scan-walk file newline count offset i start_pos lines inner (omega arith) few
          ∙ ap (walk_on newline count (suc offset))
              (sym (scan_skip file count offset i start_pos lines other))
      | inl feed ↦
          let after : start_after start_pos at ≡ suc at = ground arith in
          let next : ◌≡◌ {A = Found} (start_after start_pos at, lines + 1) (suc at, lines + 1) =
            rw after refl in
          elim (Bool-cases (nat_eq (lines + 1) count)) [
            | inl last ↦
                let stepped : scan file count offset (suc i) (start_pos, lines)
                    ≡ (suc at, lines + 1) =
                  scan_last file count offset i start_pos lines feed last ∙ next in
                walk_last newline count at start_pos lines (seen ∙ feed) last
                ∙ sym (walk_on_stopped newline count (suc offset) (suc at) (lines + 1) last)
                ∙ ap (walk_on newline count (suc offset)) (sym stepped)
            | inr more ↦
                let stepped : scan file count offset (suc i) (start_pos, lines)
                    ≡ scan file count offset i (suc at, lines + 1) =
                  scan_more file count offset i start_pos lines feed more
                  ∙ ap (scan file count offset i) next in
                walk_more newline count at start_pos lines (seen ∙ feed) more
                ∙ ap (λ (q : ℕ). walk newline count q (suc at, lines + 1)) below
                ∙ scan-walk file newline count offset i (suc at) (lines + 1) inner (omega arith)
                    (ground (arith, more))
                ∙ ap (walk_on newline count (suc offset)) (sym stepped)
          ]
    ]
