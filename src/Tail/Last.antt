-- ===== src/Tail/Last.antt =====
-- What `newTailReader` finds: the last lines, if no line feed stands first in a block.
use tt.Prelude.{
  ℕ, zero, suc, ◌+◌, ◌-◌, ◌*◌, ◌≤◌, ◌<◌, ◌≡◌, ◌⊎◌, refl, ap, sym, ◌∙◌, Bool, true, false, ◌&&◌,
  Option, none, List, [], ◌∷◌, pos, length, nat_eq, leb, if◌then◌else◌, arith, Bool-cases, inl, inr,
}
use tt.Tail.{
  Found, is_newline, find_lines, ok, TailError, reader_of, find_start, new_tail_reader, block_size,
}
use tt.Tail.Walk.{walk, line_start, start_of, walk_start}
use tt.Tail.Blocks.{is_visible, find_lines-walk}

module _ (file : List ℕ) (count : ℕ) where
  reader_of_start :
      (newline : ℕ → Bool) (found : Found)
      → reader_of file count found ≡ record {
        start = start_of newline count found;
        limit = length file - start_of newline count found;
      }
  unfolding reader_of
  reader_of_start newline (s, l) = ground arith

  module _ (fails : ℕ → Option TailError) (none_fails : (o : ℕ) → fails o ≡ none) where
    found_lem :
        (last : ℕ)
        → length file ≡ suc last
        → 0 < count
        → find_lines file count block_size fails last last (suc last, 0)
          ≡ ok (walk (is_visible file block_size) count last (suc last, 0))
    found_lem last size some_count =
        let open_lem : nat_eq 0 count ≡ false = ground (arith, some_count) in
        let whole : length file - 1 ≡ last + 0 * block_size = omega (arith, size) in
        find_lines-walk file block_size count fails none_fails (omega arith) last last (suc last) 0
          (omega arith) (omega arith) (omega arith) (inr (0, whole))
        ∙ rw open_lem refl

-- Where no read fails, a reader of n + 1 lines starts at the last n + 1 lines, as they are parted by the
-- line feeds that stand first neither in a block nor in the file; it is limited to the rest of the
-- file.
pub new_tail_reader-eq :
    (file : List ℕ) (fails : ℕ → Option TailError) (n : ℕ)
    → ((o : ℕ) → fails o ≡ none)
    → new_tail_reader file none fails (pos (suc n))
      ≡ ok record {
        start = line_start (is_visible file block_size) (length file - 1) (suc n);
        limit = length file - line_start (is_visible file block_size) (length file - 1) (suc n);
      }
unfolding new_tail_reader find_start
new_tail_reader-eq [] fails n none_fails =
    rw (find_start, none_fails 0) (unfold reader_of line_start in ground arith)
new_tail_reader-eq (x ∷ file) fails n none_fails =
    let last = length file in
    let V = is_visible (x ∷ file) block_size in
    let walked = walk V (suc n) last (suc last, 0) in
    let found = found_lem (x ∷ file) (suc n) fails none_fails last refl (omega arith) in
    let index : suc last - 1 ≡ last = omega arith in
    let start : start_of V (suc n) walked ≡ line_start V last (suc n) =
      walk_start V (suc n) last (suc last) 0 (omega arith) ∙ ap (line_start V last) (omega arith) in
    rw (find_start, found, reader_of_start (x ∷ file) (suc n) V walked, start, index) refl

-- The line feeds from `s` on, before `p`.
unfoldable pub newlines : (ℕ → Bool) → ℕ → ℕ → ℕ
newlines newline s zero = 0
newlines newline s (suc p) = newlines newline s p + (if leb s p && newline p then 1 else 0)

-- From `s` on, before `p`, stand the last `k + 1` lines, or all if they are not so many.
abbrev pub StartsLines : (ℕ → Bool) → ℕ → ℕ → ℕ → Type 0
StartsLines newline p k s =
    ((s ≡ 0) × (newlines newline 0 p ≤ k))
    ⊎ ((q : ℕ) × (s ≡ suc q) × (q < p) × (newline q ≡ true) × (newlines newline s p ≡ k))

newlines_above : (newline : ℕ → Bool) (s p : ℕ) → p ≤ s → newlines newline s p ≡ 0
unfolding newlines
newlines_above newline s zero h = refl
newlines_above newline s (suc p) h = ground (arith, newlines_above newline s p)

skipped :
    (newline : ℕ → Bool) (p k s : ℕ)
    → newline p ≡ false
    → StartsLines newline p k s
    → StartsLines newline (suc p) k s
unfolding newlines
skipped newline p k s h (inl (e, few)) = inl (e, ground arith)
skipped newline p k s h (inr (q, e, below, feed, many)) =
    inr (q, e, omega arith, feed, ground arith)

counted :
    (newline : ℕ → Bool) (p k s : ℕ)
    → newline p ≡ true
    → StartsLines newline p k s
    → StartsLines newline (suc p) (suc k) s
unfolding newlines
counted newline p k s h (inl (e, few)) = inl (e, ground arith)
counted newline p k s h (inr (q, e, below, feed, many)) =
    inr (q, e, omega arith, feed, ground arith)

line_start-StartsLines :
    (newline : ℕ → Bool) (p k : ℕ) → StartsLines newline p k (line_start newline p (suc k))
unfolding line_start
line_start-StartsLines newline zero k = inl (refl, unfold newlines in omega arith)
line_start-StartsLines newline (suc p) zero = elim (Bool-cases (newline p)) [
  | inr other ↦
      rw (line_start, other)
        (skipped newline p 0 (line_start newline p 1) other (line_start-StartsLines newline p 0))
  | inl feed ↦
      let none_above : newlines newline (suc p) (suc p) ≡ 0 =
        newlines_above newline (suc p) (suc p) (omega arith) in
      rw (line_start, feed) (inr (p, refl, omega arith, feed, none_above))
]
line_start-StartsLines newline (suc p) (suc j) = elim (Bool-cases (newline p)) [
  | inr other ↦
      rw (line_start, other)
        (skipped newline p (suc j) (line_start newline p (suc (suc j))) other
          (line_start-StartsLines newline p (suc j)))
  | inl feed ↦
      let less : suc (suc j) - 1 ≡ suc j = omega arith in
      let more : nat_eq (suc (suc j)) 1 ≡ false = ground arith in
      rw (line_start, feed, more, less)
        (counted newline p j (line_start newline p (suc j)) feed
          (line_start-StartsLines newline p j))
]

-- The counts of line feeds agree where the line feeds do.
newlines_same :
    (f g : ℕ → Bool) (s p : ℕ) → ((q : ℕ) → q < p → f q ≡ g q) → newlines f s p ≡ newlines g s p
unfolding newlines
newlines_same f g s zero h = refl
newlines_same f g s (suc p) h =
    rw (newlines, h p (omega arith), newlines_same f g s p (λ q k. h q (omega arith))) refl

-- Where no read fails, and no line feed before the last byte stands first in a block or in the file,
-- the reader starts at the last n + 1 lines of the file, and is limited to them.
pub new_tail_reader-StartsLines :
    (file : List ℕ) (fails : ℕ → Option TailError) (n : ℕ)
    → ((o : ℕ) → fails o ≡ none)
    → ((q : ℕ) → q < length file - 1 → is_visible file block_size q ≡ is_newline file q)
    → (s : ℕ) × (new_tail_reader file none fails (pos (suc n))
        ≡ ok record { start = s; limit = length file - s })
      × StartsLines (is_newline file) (length file - 1) n s
new_tail_reader-StartsLines file fails n none_fails visible =
    let V = is_visible file block_size in
    let s = line_start V (length file - 1) (suc n) in
    let starts = line_start-StartsLines V (length file - 1) n in
    (
      s,
      new_tail_reader-eq file fails n none_fails,
      elim starts [
        | inl (e, few) ↦
            inl (e, rw (sym (newlines_same V (is_newline file) 0 (length file - 1) visible)) few)
        | inr (q, e, below, feed, many) ↦ inr (
          q,
          e,
          below,
          sym (visible q below) ∙ feed,
          sym (newlines_same V (is_newline file) s (length file - 1) visible) ∙ many,
        )
      ],
    )
