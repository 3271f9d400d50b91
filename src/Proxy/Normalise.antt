-- ===== src/Proxy/Normalise.antt =====
-- internal/proxy/policy.go: `checkOverlayOpen`, `fileIndex` and `normalise`. `url.Parse` is a
-- parameter: it gives a URL's scheme and host, or nothing where it reports an error.
pub mod Files
use agterm_remote.Int.{atoi, negsuc, pos, ℤ}
use agterm_remote.Prelude.{
  Bool, List, Option, [], all, any, false, if◌then◌else◌, is_nil, leb, length, ltb, none, not, some,
  true, within, ℕ, ◌&&◌, ◌++◌, ◌+◌, ◌==◌, ◌||◌, ◌∷◌,
}
use agterm_remote.Proxy.Argv.{ParsedArgs, ParsedOpt}
use agterm_remote.Proxy.Authz.{
  FileError, Norm, Reason, bad_file, empty_command, empty_option, not_a_reference, not_sent,
  overlay_js, overlay_sources, overlay_url, pos_not_allowed, target_repeated, too_few, too_many,
}
use agterm_remote.Proxy.Call.{CallRole, FileRef, Opt, command_opt, file_opt, no_call, plain_opt}
use agterm_remote.Proxy.Schema.{
  Check, LeafSpec, OptRole, OptSpec, leaf_name, no_check, overlay_open_check, role_command,
  role_file, role_pane, role_plain, role_row, role_side,
}
use agterm_remote.Result.{Result, err, ok, ◌>>=◌}
use agterm_remote.Text.{Bytes, bytes_eq, codes, contains, itoa}
use agterm_remote.Utf8.{runes}

pub record Url : Type 0 where
  pub scheme : Bytes
  pub host : Bytes

-- The variables of the loop of `checkOverlayOpen`.
pub record Sources : Type 0 where
  pub count : ℕ
  pub raw_url : Bytes
  pub js : Bool

unfoldable pub sources : Sources → List ParsedOpt → Sources
sources s [] = s
sources s (o ∷ os) =
    sources
      (if bytes_eq o.spec.name (codes "html")
        then record s { count = s.count + 1 }
        else if bytes_eq o.spec.name (codes "url")
        then record s { count = s.count + 1; raw_url = o.value }
        else if bytes_eq o.spec.name (codes "js")
        then record s { js = true }
        else s)
      os

is_web : Option Url → Bool
is_web none = false
is_web (some url) =
    (bytes_eq url.scheme (codes "http") || bytes_eq url.scheme (codes "https"))
    && not (bytes_eq url.host [])

unfoldable pub check_overlay_open : (Bytes → Option Url) → ParsedArgs → Result Reason Unit
unfolding is_web
check_overlay_open parse_url args =
    let s = sources (record { count = 0; raw_url = []; js = false }) args.opts in
    let count = if is_nil args.pos then s.count else s.count + 1 in
    if not (count == 1)
    then err overlay_sources
    else if not (bytes_eq s.raw_url [])
    then if not (is_web (parse_url s.raw_url))
      then err (overlay_url s.raw_url)
      else if s.js
      then err overlay_js
      else ok tt
    else ok tt

unfoldable pub run_check : (Bytes → Option Url) → Check → ParsedArgs → Result Reason Unit
run_check parse_url no_check args = ok tt
run_check parse_url overlay_open_check args = check_overlay_open parse_url args

canonical : Bytes → Bytes → ℕ → Option ℤ → Result FileError ℕ
canonical value digits count none = err (not_a_reference value)
canonical value digits count (some (negsuc n)) = err (not_a_reference value)
canonical value digits count (some (pos n)) =
    if not (bytes_eq (itoa n) digits)
    then err (not_a_reference value)
    else if leb count n
    then err (not_sent value)
    else ok n

unfoldable pub file_index : Bytes → ℕ → Result FileError ℕ
unfolding canonical
file_index [] count = err (not_a_reference [])
file_index (c ∷ digits) count =
    if not (c == b'@')
    then err (not_a_reference (c ∷ digits))
    else canonical (c ∷ digits) digits count (atoi digits)

-- `strings.TrimSpace(s) == ""`
is_space : ℕ → Bool
is_space r =
    within 9 13 r
    || r == 0x20
    || r == 0x85
    || r == 0xa0
    || r == 0x1680
    || within 0x2000 0x200a r
    || within 0x2028 0x2029 r
    || r == 0x202f
    || r == 0x205f
    || r == 0x3000

unfoldable pub is_blank_text : Bytes → Bool
unfolding is_space
is_blank_text s = elim (runes s) [ none ↦ false | some rs ↦ all is_space rs ]

add_call_opt : Norm → CallRole → ParsedOpt → Norm
add_call_opt n role o =
    let call = n.call in
    let opt : Opt = record {
      name = o.spec.name;
      value = o.value;
      flag = elim role [ plain_opt ↦ not o.spec.value | _ ↦ false ];
      role = role;
    } in
    record n { call = record call { opts = call.opts ++ opt ∷ [] } }

add_file : Norm → ParsedOpt → ℕ → Norm
unfolding add_call_opt
add_file n o index =
    let n' = add_call_opt n file_opt o in
    let call = n'.call in
    let file : FileRef = record { opt = o.spec.name; index = index } in
    record n' { call = record call { files = call.files ++ file ∷ [] } }

add_command : Norm → ParsedOpt → Norm
unfolding add_call_opt
add_command n o =
    let n' = add_call_opt n command_opt o in
    let call = n'.call in
    record n' { call = record call { command = o.value ∷ []; command_opt = o.spec.name } }

is_place : OptRole → Bool
is_place role_row = true
is_place role_pane = true
is_place role_side = true
is_place _ = false

by_role : ℕ → OptRole → Norm → ParsedOpt → Result Reason Norm
unfolding add_call_opt add_file add_command
by_role count role_row n o = ok (record n { raw_rows = n.raw_rows ++ o.value ∷ [] })
by_role count role_pane n o = ok (record n { raw_pane = o.value })
by_role count role_side n o = ok (record n { raw_side = o.value })
by_role count role_file n o = elim (file_index o.value count) [
  | err e ↦ err (bad_file o.spec.name e)
  | ok index ↦ ok (add_file n o index)
]
by_role count role_command n o =
    if is_blank_text o.value then err (empty_option o.spec.name) else ok (add_command n o)
by_role count role_plain n o =
    let n' = if bytes_eq o.spec.name (codes "stdin") then record n { stdin_flag = true } else n in
    ok (add_call_opt n' plain_opt o)

-- Only a blocking overlay open has a cancel hook to run.
mark_block : LeafSpec → ParsedOpt → Norm → Norm
mark_block leaf o n =
    let call = n.call in
    if bytes_eq o.spec.name (codes "block")
      && bytes_eq (leaf_name leaf) (codes "session overlay open")
    then record n { call = record call { block = true } }
    else n

unfoldable pub opt_step : LeafSpec → ℕ → Norm → ParsedOpt → Result Reason Norm
unfolding is_place by_role mark_block
opt_step leaf count n o =
    if bytes_eq o.value [] && is_place o.spec.role
    then err (empty_option o.spec.name)
    else do n' ← by_role count o.spec.role n o; ok (mark_block leaf o n')

unfoldable pub opt_steps : LeafSpec → ℕ → Norm → List ParsedOpt → Result Reason Norm
opt_steps leaf count n [] = ok n
opt_steps leaf count n (o ∷ os) = do n' ← opt_step leaf count n o; opt_steps leaf count n' os

first_row_spec : List OptSpec → Bool
first_row_spec [] = false
first_row_spec (spec ∷ specs) = elim spec.role [ role_row ↦ spec.repeat | _ ↦ first_row_spec specs ]

unfoldable pub repeats_rows : LeafSpec → Bool
unfolding first_row_spec
repeats_rows leaf = first_row_spec leaf.opts

abbrev exceeds : Option ℕ → ℕ → Bool
exceeds none n = false
exceeds (some most) n = ltb most n

abbrev first_allowed : List Bytes → List Bytes → Bool
first_allowed allowed [] = true
first_allowed allowed (p ∷ ps) = contains allowed p

-- The checks before the loop over the options.
unfoldable pub check_pos : LeafSpec → ParsedArgs → Result Reason Unit
check_pos leaf args =
    let n = length args.pos in
    if ltb n leaf.min_pos
    then err (too_few leaf.min_pos n)
    else if exceeds leaf.max_pos n
    then err (too_many (elim leaf.max_pos [ none ↦ 0 | some most ↦ most ]) n)
    else if not (is_nil leaf.pos_allowed) && not (first_allowed leaf.pos_allowed args.pos)
    then err (pos_not_allowed (elim args.pos [ [] ↦ [] | p ∷ _ ↦ p ]))
    else ok tt

-- The steps behind that loop.
unfoldable pub finish : LeafSpec → ParsedArgs → Norm → Result Reason Norm
finish leaf args n =
    let call = n.call in
    let placed = record n { call = record call { pos = args.pos } } in
    let commanded = record n { call = record call { pos = args.pos; command = args.pos } } in
    if ltb 1 (length n.raw_rows) && not (repeats_rows leaf)
    then err target_repeated
    else if leaf.pos_command && not (is_nil args.pos)
    then if any is_blank_text args.pos then err empty_command else ok commanded
    else ok placed

abbrev pub start_norm : LeafSpec → ParsedArgs → Norm
start_norm leaf args = record {
  call = record no_call { leaf = leaf_name leaf; path = leaf.path; warnings = args.warnings };
  raw_rows = [];
  raw_pane = [];
  raw_side = [];
  stdin_flag = false;
}

unfoldable pub normalise : (Bytes → Option Url) → LeafSpec → ParsedArgs → ℕ → Result Reason Norm
normalise parse_url leaf args count = do
  _ ← check_pos leaf args
  _ ← run_check parse_url leaf.check args
  n ← opt_steps leaf count (start_norm leaf args) args.opts
  finish leaf args n
