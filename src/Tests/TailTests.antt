-- ===== src/Tests/TailTests.antt =====
-- cli/tail/tail.go at short files, some with blocks of four bytes.
use tt.Prelude.{
  ℕ, zero, suc, ◌-◌, ◌<◌, ◌≡◌, refl, none, List, [], ◌∷◌, pos, negsuc, length, arith, some,
}
use tt.Tail.{
  ok, err, find_start, find_lines, scan, start_after, reader_of, new_tail_reader, is_newline,
  block_size, cancelled,
}
use tt.Tail.Blocks.{is_visible}
use tt.Tail.Walk.{line_start}
use tt.Tail.Last.{new_tail_reader-eq, new_tail_reader-StartsLines, StartsLines}

-- "a", a line feed and "b"
abbrev two_lines : List ℕ
two_lines = b'a' ∷ 10 ∷ b'b' ∷ []

last_of_two :
    new_tail_reader two_lines none (λ o. none) (pos 1) ≡ ok record { start = 2; limit = 1 }
unfolding new_tail_reader find_start find_lines scan start_after reader_of
last_of_two = refl

visible_two : (q : ℕ) → q < 2 → is_visible two_lines block_size q ≡ is_newline two_lines q
visible_two zero h = refl
visible_two (suc zero) h = refl
visible_two (suc (suc q)) h = absurd (omega arith)

new_tail_reader-eq_example :
    new_tail_reader two_lines none (λ o. none) (pos 1)
    ≡ ok record {
      start = line_start (is_visible two_lines block_size) 2 1;
      limit = 3 - line_start (is_visible two_lines block_size) 2 1;
    }
new_tail_reader-eq_example = new_tail_reader-eq two_lines (λ o. none) 0 (λ o. refl)

new_tail_reader-StartsLines_example :
    (s : ℕ) × (new_tail_reader two_lines none (λ o. none) (pos 1)
      ≡ ok record { start = s; limit = length two_lines - s })
    × StartsLines (is_newline two_lines) (length two_lines - 1) 0 s
new_tail_reader-StartsLines_example =
    new_tail_reader-StartsLines two_lines (λ o. none) 0 (λ o. refl) visible_two

-- The line feed is the first byte of a block of four, and is not seen.
hidden_feed :
    find_start (b'a' ∷ 10 ∷ b'b' ∷ b'c' ∷ b'd' ∷ b'e' ∷ []) 1 4 (λ o. none)
    ≡ ok record { start = 0; limit = 6 }
unfolding find_start find_lines scan start_after reader_of
hidden_feed = refl

-- So is a line feed that begins the file.
first_feed :
    new_tail_reader (10 ∷ b'b' ∷ []) none (λ o. none) (pos 1) ≡ ok record { start = 0; limit = 2 }
unfolding new_tail_reader find_start find_lines scan start_after reader_of
first_feed = refl

no_lines :
    new_tail_reader two_lines none (λ o. none) (negsuc 0) ≡ ok record { start = 3; limit = 0 }
unfolding new_tail_reader
no_lines = refl

stopped : new_tail_reader two_lines none (λ o. some cancelled) (pos 1) ≡ err cancelled
unfolding new_tail_reader find_start find_lines
stopped = refl
