-- ===== src/Receiver/Lines/Chunks.antt =====
-- internal/receiver/listener.go: the reading of a line against its bytes as a whole.
use agterm_remote.Prelude.{
  Bool-cases, List, Option, [], ap, append_assoc, arith, false, if◌then◌else◌, inl, inr, is_nil,
  length, length-append, ltb, none, refl, some, true, ◌++◌, ◌∙◌, ◌∷◌, ◌≡◌,
}
use agterm_remote.Receiver.Lines.{
  LineRead, Partial, Slice, SliceEnd, broken, eof, full, got_line, max_event_line, newline,
  read_event_line, read_slices, returned_line, skipped, stopped, take_slice,
}
use agterm_remote.Text.{Bytes}
use mathlib.Core.Option

-- The bytes up to the slice that ends a line, how it ends, and the slices behind it.
pub record Whole : Type 0 where
  pub bytes : Bytes
  pub ends : SliceEnd
  pub behind : List Slice

abbrev more : Bytes → Whole → Whole
more part w = record w { bytes = part ++ w.bytes }

abbrev pub joined : List Slice → Option Whole
joined [] = none
joined ((part, full) ∷ rest) = Option.map (more part) (joined rest)
joined ((part, newline) ∷ rest) = some (record { bytes = part; ends = newline; behind = rest })
joined ((part, eof) ∷ rest) = some (record { bytes = part; ends = eof; behind = rest })
joined ((part, broken) ∷ rest) = some (record { bytes = part; ends = broken; behind = rest })

-- The reference: the whole line is measured at once.
abbrev pub reads_as : Bytes → SliceEnd → LineRead
reads_as s newline = if ltb max_event_line (length s) then skipped else got_line s
reads_as s eof =
    if ltb max_event_line (length s)
    then stopped true
    else if is_nil s
    then stopped false
    else got_line s
reads_as s _ = stopped (ltb max_event_line (length s))

-- The partial line after these bytes.
abbrev partial : Bytes → Partial
partial s =
    if ltb max_event_line (length s)
    then record { text = []; oversized = true }
    else record { text = s; oversized = false }

take_slice-partial : (s part : Bytes) → take_slice (partial s) part ≡ partial (s ++ part)
unfolding take_slice
take_slice-partial s part = elim (Bool-cases (ltb max_event_line (length s))) [
  | inl e ↦
      let longer : ltb max_event_line (length (s ++ part)) ≡ true =
        ground (arith, e, length-append s part) in
      rw (e, longer) refl
  | inr e ↦ rw (e, length-append s part) refl
]

returned_line-partial : (s : Bytes) (e : SliceEnd) → returned_line e (partial s) ≡ reads_as s e
unfolding returned_line
returned_line-partial [] newline = refl
returned_line-partial [] eof = refl
returned_line-partial (c ∷ s) eof = elim (Bool-cases (ltb max_event_line (length (c ∷ s)))) [
  | inl t ↦ rw t refl
  | inr t ↦ rw t refl
]
returned_line-partial s newline = elim (Bool-cases (ltb max_event_line (length s))) [
  | inl t ↦ rw t refl
  | inr t ↦ rw t refl
]
returned_line-partial s full = elim (Bool-cases (ltb max_event_line (length s))) [
  | inl t ↦ rw t refl
  | inr t ↦ rw t refl
]
returned_line-partial s broken = elim (Bool-cases (ltb max_event_line (length s))) [
  | inl t ↦ rw t refl
  | inr t ↦ rw t refl
]

-- What the loop makes of a whole line behind the bytes that it holds.
abbrev as_read : Bytes → Whole → LineRead × List Slice
as_read s w = (reads_as (s ++ w.bytes) w.ends, w.behind)

ended_by :
    (s part : Bytes) (e : SliceEnd)
    → returned_line e (take_slice (partial s) part) ≡ reads_as (s ++ part) e
ended_by s part e =
    ap (returned_line e) (take_slice-partial s part) ∙ returned_line-partial (s ++ part) e

as_read-more :
    (s part : Bytes) (o : Option Whole)
    → Option.map (as_read (s ++ part)) o ≡ Option.map (as_read s) (Option.map (more part) o)
as_read-more s part none = refl
as_read-more s part (some w) = rw append_assoc refl

read_slices-joined :
    (s : Bytes) (slices : List Slice)
    → read_slices (partial s) slices ≡ Option.map (as_read s) (joined slices)
unfolding read_slices
read_slices-joined s [] = refl
read_slices-joined s ((part, full) ∷ rest) =
    ap (λ p. read_slices p rest) (take_slice-partial s part)
    ∙ read_slices-joined (s ++ part) rest
    ∙ as_read-more s part (joined rest)
read_slices-joined s ((part, newline) ∷ rest) = ap (λ l. some (l, rest)) (ended_by s part newline)
read_slices-joined s ((part, eof) ∷ rest) = ap (λ l. some (l, rest)) (ended_by s part eof)
read_slices-joined s ((part, broken) ∷ rest) = ap (λ l. some (l, rest)) (ended_by s part broken)

-- However the buffer cuts a line, it is read as the reference reads its bytes at once: a line of at
-- most 64 KiB, with its newline, is returned whole, a longer one is skipped to its newline and no
-- further, the last line may lack its newline, and nothing is returned at the end of the input or on
-- an error.
pub read_event_line-joined :
    (slices : List Slice)
    → read_event_line slices ≡ Option.map (λ w. (reads_as w.bytes w.ends, w.behind)) (joined slices)
unfolding read_event_line
read_event_line-joined slices = read_slices-joined [] slices
