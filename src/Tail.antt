-- ===== src/Tail.antt =====
-- cli/tail/tail.go: where a reader of the last lines of a log file starts. The file does not change
-- while it is read, and a read of a file gives as many bytes as there are.
pub mod Walk
pub mod Blocks
pub mod Last
use tt.Prelude.{
  ℕ, zero, suc, ◌+◌, ◌-◌, Bool, true, false, Option, none, some, List, [], ◌∷◌, ℤ, pos, negsuc,
  length, get_elem?, drop, nat_eq, ltb, if◌then◌else◌,
}

abbrev pub block_size : ℕ
block_size = 8192

pub data TailError : Type 0 where
  seek_failed read_failed cancelled : TailError

pub data Result {ℓ} (A : Type ℓ) : Type ℓ where
  ok : A → Result A
  err : TailError → Result A

-- `io.LimitedReader{R: reader, N: n}` after a seek: `start` is where it reads from, and the second
-- result of the source.
pub record TailReader : Type 0 where
  pub start : ℕ
  pub limit : ℕ

abbrev pub is_newline : List ℕ → ℕ → Bool
is_newline file i = elim (get_elem? file i) [ some b ↦ nat_eq b b'\n' | none ↦ false ]

-- `startPos` and `linesFound`
abbrev pub Found : Type 0
Found = ℕ × ℕ

-- The new `startPos` at a line feed.
unfoldable pub start_after : ℕ → ℕ → ℕ
start_after start_pos position = if nat_eq start_pos (position + 1) then position else position + 1

module _ (file : List ℕ) (count : ℕ) where
  -- The inner loop, from index `i` of the buffer, which was read at `offset`, down to 1.
  unfoldable pub scan : ℕ → ℕ → Found → Found
  scan offset zero found = found
  scan offset (suc i) (start_pos, lines) = elim (is_newline file (offset + suc i)) [
    | false ↦ scan offset i (start_pos, lines)
    | true ↦ elim (nat_eq (lines + 1) count) [
      | true ↦ (start_after start_pos (offset + suc i), lines + 1)
      | false ↦ scan offset i (start_after start_pos (offset + suc i), lines + 1)
    ]
  ]

  -- The reader after the loops.
  unfoldable pub reader_of : Found → TailReader
  reader_of (start_pos, lines) =
      if nat_eq lines count
      then record { start = start_pos; limit = length file - start_pos }
      else record { start = 0; limit = length file }

  module _ (block : ℕ) (fails : ℕ → Option TailError) where
    -- The outer loop over the blocks before `read_offset`; `fails` tells the error of the context, the
    -- seek or the read of the block at an offset. The fuel is at least `read_offset`.
    unfoldable pub find_lines : ℕ → ℕ → Found → Result Found
    find_lines zero read_offset found = ok found
    find_lines (suc fuel) zero found = ok found
    find_lines (suc fuel) (suc r) (start_pos, lines) = elim (nat_eq lines count) [
      | true ↦ ok (start_pos, lines)
      | false ↦
          let n = if ltb block (suc r) then block else suc r in
          elim (fails (suc r - n)) [
            | some e ↦ err e
            | none ↦ find_lines fuel (suc r - n) (scan (suc r - n) (n - 1) (start_pos, lines))
          ]
    ]

    -- For an empty file, the offset of the first read is negative: the only round reads nothing.
    unfoldable pub find_start : Result TailReader
    find_start = elim (length file) [
      | zero ↦ elim (fails 0) [ some e ↦ err e | none ↦ ok (reader_of (0, 0)) ]
      | suc last ↦ elim (find_lines last last (suc last, 0)) [
        | ok found ↦ ok (reader_of found)
        | err e ↦ err e
      ]
    ]

-- newTailReader; the outcome of the first seek, to the end, is `seek_end`.
unfoldable pub new_tail_reader :
    List ℕ → Option TailError → (ℕ → Option TailError) → ℤ → Result TailReader
new_tail_reader file (some e) fails count = err e
new_tail_reader file none fails (negsuc n) = ok record { start = length file; limit = 0 }
new_tail_reader file none fails (pos zero) = ok record { start = length file; limit = 0 }
new_tail_reader file none fails (pos (suc n)) = find_start file (suc n) block_size fails
