-- ===== src/Receiver/Lines/Tests.antt =====
-- Tests of the reading of lines, and their theorem at concrete slices.
use agterm_remote.Prelude.{List, [], false, refl, some, ◌∷◌, ◌≡◌}
use agterm_remote.Receiver.Lines.{
  Slice, eof, full, got_line, newline, read_event_line, read_slices, returned_line, stopped,
  take_slice,
}
use agterm_remote.Receiver.Lines.Chunks.{read_event_line-joined}
use agterm_remote.Text.{codes}

abbrev two_lines : List Slice
two_lines = (codes "ab", full) ∷ (codes "c\n", newline) ∷ (codes "d", eof) ∷ []

lines_test :
    (read_event_line two_lines ≡ some (got_line (codes "abc\n"), (codes "d", eof) ∷ []))
    × (read_event_line ((codes "d", eof) ∷ []) ≡ some (got_line (codes "d"), []))
    × (read_event_line (([], eof) ∷ []) ≡ some (stopped false, []))
unfolding read_event_line read_slices take_slice returned_line
lines_test = (refl, refl, refl)

read_event_line-joined_example :
    read_event_line two_lines ≡ some (got_line (codes "abc\n"), (codes "d", eof) ∷ [])
read_event_line-joined_example = read_event_line-joined two_lines
