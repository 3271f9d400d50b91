-- ===== src/Receiver/Lines.antt =====
-- internal/receiver/listener.go: `readEventLine`. The reader is the list of what its `ReadSlice` calls
-- return.
mod Chunks
mod Tests
use agterm_remote.Prelude.{
  Bool, List, Option, [], false, if◌then◌else◌, is_nil, length, ltb, none, not, some, true, ℕ, ◌&&◌,
  ◌++◌, ◌+◌, ◌∷◌,
}
use agterm_remote.Text.{Bytes}

abbrev pub max_event_line : ℕ
max_event_line = 65536

-- How a call of `ReadSlice` ends: with a newline, a full buffer, the end of the input, or an error.
pub data SliceEnd : Type 0 where
  newline full eof broken : SliceEnd

abbrev pub Slice : Type 0
Slice = Bytes × SliceEnd

-- A line, or that one was skipped for its size; or the end, and whether in an oversized line.
pub data LineRead : Type 0 where
  got_line : Bytes → LineRead
  skipped : LineRead
  stopped : Bool → LineRead

-- The line so far and whether it is oversized.
pub record Partial : Type 0 where
  pub text : Bytes
  pub oversized : Bool

unfoldable pub take_slice : Partial → Bytes → Partial
take_slice p part =
    if p.oversized
    then p
    else if ltb max_event_line (length p.text + length part)
    then record { text = []; oversized = true }
    else record { text = p.text ++ part; oversized = false }

-- What is returned after the slice that ends the loop.
unfoldable pub returned_line : SliceEnd → Partial → LineRead
returned_line newline p = if p.oversized then skipped else got_line p.text
returned_line full p = stopped p.oversized
returned_line eof p =
    if not (is_nil p.text) && not p.oversized then got_line p.text else stopped p.oversized
returned_line broken p = stopped p.oversized

-- The loop; `none` where these slices leave it reading.
unfoldable pub read_slices : Partial → List Slice → Option (LineRead × List Slice)
read_slices p [] = none
read_slices p ((part, full) ∷ rest) = read_slices (take_slice p part) rest
read_slices p ((part, newline) ∷ rest) = some (returned_line newline (take_slice p part), rest)
read_slices p ((part, eof) ∷ rest) = some (returned_line eof (take_slice p part), rest)
read_slices p ((part, broken) ∷ rest) = some (returned_line broken (take_slice p part), rest)

unfoldable pub read_event_line : List Slice → Option (LineRead × List Slice)
read_event_line slices = read_slices (record { text = []; oversized = false }) slices
