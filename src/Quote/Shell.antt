-- ===== src/Quote/Shell.antt =====
-- Word splitting by a POSIX shell, as its standard describes it for quotes, backslashes and blanks.
-- A byte that would mean anything else outside quotes makes the reading fail.
use agterm_remote.Prelude.{
  Bool, Bool-cases, List, Option, [], ap, append-nil, append_assoc, arith, if◌then◌else◌, inl, inr,
  none, refl, some, sym, within, ℕ, ◌++◌, ◌==◌, ◌||◌, ◌∙◌, ◌∷◌, ◌≡◌,
}
use agterm_remote.Quote.{escape_quotes, join, quote, quote_all}
use agterm_remote.Text.{Bytes, codes, has_byte, join_tail}

-- Bytes that stand for themselves outside quotes.
is_plain : ℕ → Bool
is_plain c =
    within b'a' b'z' c
    || within b'A' b'Z' c
    || within b'0' b'9' c
    || has_byte c (codes "_-./:@%+,=")

data Mode : Type 0 where
  gap word quoted escaped : Mode

-- One byte: the mode, the word read so far and the words before it.
record Reader : Type 0 where
  mode : Mode
  current : Bytes
  words : List Bytes

push_byte : Reader → ℕ → Reader
push_byte r c = record r { mode = word; current = r.current ++ c ∷ [] }

read_outside : Reader → ℕ → Option Reader
unfolding push_byte is_plain
read_outside r c =
    if c == b'\''
    then some (record r { mode = quoted })
    else if c == b'\\'
    then some (record r { mode = escaped })
    else if is_plain c
    then some (push_byte r c)
    else none

read_in : Mode → Reader → ℕ → Option Reader
unfolding read_outside
read_in gap r c = if c == b' ' then some r else read_outside r c
read_in word r c =
    if c == b' '
    then some (record { mode = gap; current = []; words = r.words ++ r.current ∷ [] })
    else read_outside r c
read_in quoted r c =
    if c == b'\''
    then some (record r { mode = word })
    else some (record r { current = r.current ++ c ∷ [] })
read_in escaped r c = if c == b'\n' then none else some (push_byte r c)

finish : Mode → Reader → Option (List Bytes)
finish gap r = some r.words
finish word r = some (r.words ++ r.current ∷ [])
finish _ r = none

run : Reader → Bytes → Option (List Bytes)
run r [] = finish r.mode r
run r (c ∷ s) = elim (read_in r.mode r c) [ none ↦ none | some r' ↦ run r' s ]

-- The words of a command line.
pub shell_words : Bytes → Option (List Bytes)
unfolding run read_in finish
shell_words = run (record { mode = gap; current = []; words = [] })

run-escape_quotes :
    (s rest cur : Bytes) (ws : List Bytes)
    → run (record { mode = quoted; current = cur; words = ws }) (escape_quotes s ++ b'\'' ∷ rest)
      ≡ run (record { mode = word; current = cur ++ s; words = ws }) rest
unfolding run read_in escape_quotes
run-escape_quotes [] rest cur ws = rw append-nil
run-escape_quotes (c ∷ s) rest cur ws = elim (Bool-cases (c == b'\'')) [
  | inl e ↦ ground (arith, run-escape_quotes s rest (cur ++ c ∷ []) ws, append_assoc cur (c ∷ []) s)
  | inr e ↦ ground (arith, run-escape_quotes s rest (cur ++ c ∷ []) ws, append_assoc cur (c ∷ []) s)
]

run-quote :
    (s rest : Bytes) (ws : List Bytes)
    → run (record { mode = gap; current = []; words = ws }) (quote s ++ rest)
      ≡ run (record { mode = word; current = s; words = ws }) rest
unfolding run read_in quote
run-quote s rest ws = rw append_assoc (run-escape_quotes s rest [] ws)

run_blank :
    (s cur : Bytes) (ws : List Bytes)
    → run (record { mode = word; current = cur; words = ws }) (b' ' ∷ s)
      ≡ run (record { mode = gap; current = []; words = ws ++ cur ∷ [] }) s
unfolding run read_in
run_blank s cur ws = refl

run-join_tail :
    (vs : List Bytes) (cur : Bytes) (ws : List Bytes)
    → run (record { mode = word; current = cur; words = ws }) (join_tail (b' ' ∷ []) (quote_all vs))
      ≡ some (ws ++ cur ∷ vs)
unfolding quote_all
run-join_tail [] cur ws = unfold run finish in refl
run-join_tail (v ∷ vs) cur ws =
    run_blank _ cur ws
    ∙ run-quote v (join_tail (b' ' ∷ []) (quote_all vs)) (ws ++ cur ∷ [])
    ∙ run-join_tail vs v (ws ++ cur ∷ [])
    ∙ ap some (append_assoc ws (cur ∷ []) (v ∷ vs))

-- One round of shell parsing gives every quoted word back intact, whatever bytes it holds.
pub shell_words-join : (words : List Bytes) → shell_words (join words) ≡ some words
unfolding shell_words join
shell_words-join [] = refl
shell_words-join (w ∷ ws) = run-quote w _ [] ∙ run-join_tail ws w []

-- The shell's reading of the command that removes a quoted path.
pub shell_words-rm :
    (path : Bytes)
    → shell_words (codes "rm -f -- " ++ quote path)
      ≡ some (codes "rm" ∷ codes "-f" ∷ codes "--" ∷ path ∷ [])
unfolding shell_words run read_in read_outside push_byte is_plain
shell_words-rm path =
    let removed = codes "rm" ∷ codes "-f" ∷ codes "--" ∷ [] in
    ap (λ s. run (record { mode = gap; current = []; words = removed }) s)
      (sym (append-nil (quote path)))
    ∙ run-quote path [] removed
    ∙ unfold finish in refl
