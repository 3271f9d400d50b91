-- ===== src/Proxy/Argv.antt =====
-- internal/proxy/argv.go: parsing the arguments of one leaf against its schema. An error's text is
-- a constructor with the values that the text shows.
pub mod Invariant
pub mod Rounds
pub mod Accepted
pub mod Rendered
pub mod Reparse
use agterm_remote.Prelude.{
  Bool, List, Option, [], any, drop, false, if◌then◌else◌, is_nil, none, not, some, true, ℕ, ◌&&◌,
  ◌++◌, ◌+◌, ◌||◌, ◌∷◌,
}
use agterm_remote.Proxy.Schema.{LeafSpec, OptSpec, is_stripped, leaf_name, option}
use agterm_remote.Result.{Result, err, ok, ◌>>=◌}
use agterm_remote.Text.{Bytes, Cut, bytes_eq, codes, contains, cut, has_byte, starts_with}

pub record ParsedOpt : Type 0 where
  pub spec : OptSpec
  pub value : Bytes

pub record ParsedArgs : Type 0 where
  pub opts : List ParsedOpt
  pub pos : List Bytes
  pub help : Bool
  pub warnings : List Bytes

pub data ArgError : Type 0 where
  nul_byte : ℕ → ArgError
  nul_in_rest : ArgError
  short_option : Bytes → ArgError
  unknown_option : Bytes → Bytes → Option Bytes → ArgError
  needs_value : Bytes → ArgError
  looks_like_option : Bytes → Bytes → ArgError
  takes_no_value : Bytes → ArgError
  nul_in_value : Bytes → ArgError
  repeated_option : Bytes → ArgError
  value_not_allowed : Bytes → Bytes → List Bytes → ArgError

abbrev refused_options : List (Bytes × Bytes)
refused_options =
    (codes "persistent", codes "keeps a browser login on the Mac")
    ∷ (codes "browse", codes "opens a browser on the Mac")
    ∷ (codes "file", codes "reads a file on the Mac")
    ∷ (codes "select", codes "selects text on the Mac")
    ∷ (codes "follow", codes "moves the user's selection")
    ∷ (codes "cwd", codes "names a directory on the Mac")
    ∷ (codes "navigation", codes "adds browser chrome to a page")
    ∷ (codes "chromeless", codes "changes a page's chrome")
    ∷ []

lookup : Bytes → List (Bytes × Bytes) → Option Bytes
lookup k [] = none
lookup k ((j, v) ∷ m) = if bytes_eq j k then some v else lookup k m

pub unknown : LeafSpec → Bytes → ArgError
unknown leaf name = unknown_option (leaf_name leaf) name (lookup name refused_options)

-- The loop's variables: the names seen, and what was parsed.
pub record Loop : Type 0 where
  pub seen : List Bytes
  pub out : ParsedArgs

-- What one round does: stop with an error, stop at `--`, or go on behind one argument or two.
pub data Round : Type 0 where
  fail : ArgError → Round
  stop : Loop → Round
  one : Loop → Round
  two : Loop → Round

abbrev add_pos : Loop → List Bytes → Loop
add_pos st ws = let out = st.out in record st { out = record out { pos = out.pos ++ ws } }

abbrev add_opt : Loop → OptSpec → Bytes → Loop
add_opt st spec value =
    let out = st.out in
    record st { out = record out { opts = out.opts ++ record { spec = spec; value = value } ∷ [] } }

abbrev add_warning : Loop → OptSpec → Bytes → Loop
add_warning st spec name =
    let out = st.out in
    let note =
      codes "--" ++ (name ++ (codes " ignored from a host (" ++ (spec.dropped ++ codes ")"))) in
    record st { out = record out { warnings = out.warnings ++ note ∷ [] } }

-- The checks on an option whose value is known; `go_on` is `one` or `two`.
unfoldable pub accept : (Loop → Round) → Loop → OptSpec → Bytes → Bytes → Round
accept go_on st spec name value =
    let st' = record st { seen = name ∷ st.seen } in
    if has_byte 0 value
    then fail (nul_in_value name)
    else if contains st.seen name && not spec.repeat
    then fail (repeated_option name)
    else if not (bytes_eq spec.dropped [])
    then go_on (add_warning st' spec name)
    else if not (is_nil spec.allowed) && not (contains spec.allowed value)
    then fail (value_not_allowed name value spec.allowed)
    else if is_stripped name
    then go_on st'
    else go_on (add_opt st' spec value)

-- A value in the next argument.
unfoldable pub take_value : Loop → OptSpec → Bytes → List Bytes → Round
take_value st spec name [] = fail (needs_value name)
take_value st spec name (value ∷ rest) =
    if starts_with value (codes "-") && not (bytes_eq value (codes "-"))
    then fail (looks_like_option value name)
    else accept two st spec name value

unfoldable pub with_spec : Loop → OptSpec → Bytes → Cut → List Bytes → Round
with_spec st spec name c rest =
    if spec.value
    then if c.found then accept one st spec name c.after else take_value st spec name rest
    else if c.found
    then fail (takes_no_value name)
    else accept one st spec name c.after

unfoldable pub long_option : LeafSpec → Loop → Cut → List Bytes → Round
long_option leaf st c rest =
    let out = st.out in
    if bytes_eq c.before (codes "help") && not c.found
    then one (record st { out = record out { help = true } })
    else elim (option leaf c.before) [
      | none ↦ fail (unknown leaf c.before)
      | some spec ↦ with_spec st spec c.before c rest
    ]

-- One round of the loop, at index `i`, with the arguments behind it.
unfoldable pub round : LeafSpec → ℕ → Loop → Bytes → List Bytes → Round
round leaf i st arg rest =
    if has_byte 0 arg
    then fail (nul_byte (i + 1))
    else if bytes_eq arg (codes "--")
    then if any (has_byte 0) rest then fail nul_in_rest else stop (add_pos st rest)
    else if not (starts_with arg (codes "-")) || bytes_eq arg (codes "-")
    then one (add_pos st (arg ∷ []))
    else if not (starts_with arg (codes "--"))
    then fail (short_option arg)
    else long_option leaf st (cut b'=' (drop 2 arg)) rest

-- The loop. A round takes two arguments only where there are two.
unfoldable pub parse_loop : LeafSpec → ℕ → Loop → List Bytes → Result ArgError ParsedArgs
parse_loop leaf i st [] = ok st.out
parse_loop leaf i st (arg ∷ []) = elim (round leaf i st arg []) [
  | fail e ↦ err e
  | stop st' ↦ ok st'.out
  | one st' ↦ ok st'.out
  | two st' ↦ ok st'.out
]
parse_loop leaf i st (arg ∷ value ∷ rest) = elim (round leaf i st arg (value ∷ rest)) [
  | fail e ↦ err e
  | stop st' ↦ ok st'.out
  | one st' ↦ parse_loop leaf (i + 1) st' (value ∷ rest)
  | two st' ↦ parse_loop leaf (i + 2) st' rest
]

abbrev pub no_args : ParsedArgs
no_args = record { opts = []; pos = []; help = false; warnings = [] }

-- `--help` wins over every other argument.
abbrev help_only : ParsedArgs → ParsedArgs
help_only out = if out.help then record no_args { help = true } else out

unfoldable pub parse_args : LeafSpec → List Bytes → Result ArgError ParsedArgs
parse_args leaf args = do
  out ← parse_loop leaf 0 (record { seen = []; out = no_args }) args
  ok (help_only out)
