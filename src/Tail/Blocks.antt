-- ===== src/Tail/Blocks.antt =====
-- The outer loop of `newTailReader` walks the visible line feeds of a file.
use native.Mathlib.Nat.{add-mul-mod_self_right}
use tt.Prelude.{
  ℕ, zero, suc, ◌+◌, ◌-◌, ◌*◌, ◌%◌, ◌≤◌, ◌<◌, ◌≡◌, ◌⊎◌, refl, ap, sym, ◌∙◌, subst, Bool, false,
  ◌&&◌, not, Option, none, List, length, nat_eq, ltb, if◌then◌else◌, arith, Bool-cases, inl, inr,
}
use tt.Tail.{Found, is_newline, scan, find_lines, ok, TailError}
use tt.Tail.Walk.{walk, walk_on, scan-walk, scan_bounds}

-- A line feed that is neither the first byte of a block, counted from the last byte of the file, nor
-- the first byte of the file.
abbrev pub is_visible : List ℕ → ℕ → ℕ → Bool
is_visible file block q =
    is_newline file q && (not (nat_eq q 0) && not (nat_eq ((length file - 1 - q) % block) 0))

residue : (x block k : ℕ) → x < block → (x + k * block) % block ≡ x
residue x block k h = add-mul-mod_self_right x k block ∙ small_mod x block h
  where
    small_mod : (x m : ℕ) → x < m → x % m ≡ x
    small_mod x m h = grind arith

module _ (file : List ℕ) (block : ℕ) where
  seen :
      (q d k : ℕ)
      → length file - 1 ≡ q + d + k * block
      → 0 < q
      → 0 < d
      → d < block
      → is_visible file block q ≡ is_newline file q
  seen q d k whole some_q some_d small =
      let rest : length file - 1 - q ≡ d + k * block = omega (arith, whole) in
      let left : (length file - 1 - q) % block ≡ d =
        ap (λ (t : ℕ). t % block) rest ∙ residue d block k small in
      ground (arith, left)

  hidden :
      (q k : ℕ)
      → (q ≡ 0) ⊎ (length file - 1 ≡ q + k * block)
      → 0 < block
      → is_visible file block q ≡ false
  hidden q k (inl first) positive = ground (arith, first)
  hidden q k (inr whole) positive =
      let rest : length file - 1 - q ≡ 0 + k * block = omega (arith, whole) in
      let left : (length file - 1 - q) % block ≡ 0 =
        ap (λ (t : ℕ). t % block) rest ∙ residue 0 block k positive in
      ground (arith, left)

  module _ (count : ℕ) (fails : ℕ → Option TailError) where
    abbrev V : ℕ → Bool
    V = is_visible file block

    hidden_walk :
        (q : ℕ) (found : Found)
        → V q ≡ false
        → walk_on V count (suc q) found ≡ walk_on V count q found
    unfolding walk
    hidden_walk q (s, l) h = rw (walk, h) refl

    -- One block, walked down.
    block_walk :
        (offset n s l : ℕ)
        → ((j : ℕ) → suc j < n → V (offset + suc j) ≡ is_newline file (offset + suc j))
        → V offset ≡ false
        → 0 < n
        → offset + n < s
        → l < count
        → walk_on V count (offset + n) (s, l)
          ≡ walk_on V count offset (scan file count offset (n - 1) (s, l))
    block_walk offset zero s l inside first some_n below few = absurd (omega arith)
    block_walk offset (suc m) s l inside first some_n below few =
        let found : Found = scan file count offset m (s, l) in
        let index : suc m - 1 ≡ m = omega arith in
        let top : offset + suc m ≡ suc (offset + m) = omega arith in
        let open_lem : nat_eq l count ≡ false = ground (arith, few) in
        let walked : walk V count (suc (offset + m)) (s, l) ≡ walk_on V count (suc offset) found =
          scan-walk file V count offset m s l (λ j k. inside j (omega arith)) (omega arith) few in
        rw (index, top, open_lem) (walked ∙ hidden_walk offset found first)

    -- Where a block ends: at 0, or whole blocks before the last byte.
    abbrev IsBoundary : ℕ → Type 0
    IsBoundary q = (q ≡ 0) ⊎ ((k : ℕ) × (length file - 1 ≡ q + k * block))

    module _ (none_fails : (o : ℕ) → fails o ≡ none) (positive : 0 < block) where
      first_hidden : (q : ℕ) → IsBoundary q → V q ≡ false
      first_hidden q (inl e) = hidden q 0 (inl e) positive
      first_hidden q (inr (k, e)) = hidden q k (inr e) positive

      more_blocks : (k : ℕ) → (k + 1) * block ≡ k * block + block
      more_blocks k = grind arith

      -- What the block before a boundary holds.
      inside_block :
          (r n : ℕ)
          → IsBoundary (suc r)
          → n ≤ suc r
          → n ≤ block
          → (n ≡ block) ⊎ (n ≡ suc r)
          → IsBoundary (suc r - n)
            × ((j : ℕ) → suc j < n → V (suc r - n + suc j) ≡ is_newline file (suc r - n + suc j))
      inside_block r n (inl e) fits small which = absurd (omega arith)
      inside_block r n (inr (k, e)) fits small which = (
        elim which [
          | inl full ↦ inr (k + 1, omega (arith, full, e, more_blocks k))
          | inr all ↦ inl (omega arith)
        ],
        λ j h.
            seen (suc r - n + suc j) (n - suc j) k (omega (arith, e)) (omega arith) (omega arith)
              (omega arith),
      )

      walk_on_zero : (s l : ℕ) → ◌≡◌ {A = Found} (s, l) (walk_on V count 0 (s, l))
      unfolding walk
      walk_on_zero s l = elim (Bool-cases (nat_eq l count)) [
        | inl e ↦ rw e refl
        | inr e ↦ rw e refl
      ]

      step :
          (fuel r s l n : ℕ)
          → nat_eq l count ≡ false
          → (if ltb block (suc r) then block else suc r) ≡ n
          → find_lines file count block fails (suc fuel) (suc r) (s, l)
            ≡ find_lines file count block fails fuel
                (suc r - n)
                (scan file count (suc r - n) (n - 1) (s, l))
      unfolding find_lines
      step fuel r s l n open_lem size =
          subst
            (λ (n : ℕ).
              find_lines file count block fails (suc fuel) (suc r) (s, l)
              ≡ find_lines file count block fails fuel (suc r - n)
                  (scan file count (suc r - n) (n - 1) (s, l)))
            size
            (rw
              (
                find_lines,
                open_lem,
                none_fails (suc r - (if ltb block (suc r) then block else suc r)),
              )
              refl)

      block_size_cases :
          (r : ℕ)
          → (n : ℕ) × ((if ltb block (suc r) then block else suc r) ≡ n)
            × (0 < n)
            × (n ≤ suc r)
            × (n ≤ block)
            × ((n ≡ block) ⊎ (n ≡ suc r))
      block_size_cases r = elim (Bool-cases (ltb block (suc r))) [
        | inl more ↦ (block, rw more refl, positive, ground (arith, more), omega arith, inl refl)
        | inr less ↦ (suc r, rw less refl, omega arith, omega arith, ground (arith, less), inr refl)
      ]

      pub find_lines-walk :
          (fuel r s l : ℕ)
          → r ≤ fuel
          → r < s
          → l ≤ count
          → IsBoundary r
          → find_lines file count block fails fuel r (s, l) ≡ ok (walk_on V count r (s, l))
      find_lines-walk zero zero s l enough below few at =
          unfold find_lines in ap ok (walk_on_zero s l)
      find_lines-walk zero (suc r) s l enough below few at = absurd (omega arith)
      find_lines-walk (suc fuel) zero s l enough below few at =
          unfold find_lines in ap ok (walk_on_zero s l)
      find_lines-walk (suc fuel) (suc r) s l enough below few at =
          elim (Bool-cases (nat_eq l count)) [
            | inl all ↦ unfold find_lines in rw (find_lines, all) refl
            | inr open_lem ↦
                let (n, size, some_n, fits, small, which) = block_size_cases r in
                let (boundary, inside) = inside_block r n at fits small which in
                let less : l < count = ground (arith, open_lem, few) in
                let whole : suc r - n + n ≡ suc r = omega arith in
                let index : suc r - n + (n - 1) < s = omega arith in
                let bounds = scan_bounds file count (suc r - n) (n - 1) s l index less in
                let found = scan file count (suc r - n) (n - 1) (s, l) in
                let walked : walk_on V count (suc r - n + n) (s, l)
                    ≡ walk_on V count (suc r - n) found =
                  block_walk (suc r - n) n s l inside (first_hidden (suc r - n) boundary) some_n
                    (omega arith) less in
                step fuel r s l n open_lem size
                ∙ find_lines-walk fuel (suc r - n) found.0 found.1 (omega arith) bounds.0 bounds.1
                    boundary
                ∙ ap ok (sym walked)
                ∙ ap (λ (q : ℕ). ok (walk_on V count q (s, l))) whole
          ]
