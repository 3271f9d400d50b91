-- ===== src/Remote/Probe.antt =====
-- internal/remote/probe.go: the answer of the probe of a host. The TERM that was asked about is added
-- by the caller.
use agterm_remote.Int.{atoi, negsuc, pos, ℤ}
use agterm_remote.Prelude.{
  Bool, List, Option, [], all, false, if◌then◌else◌, is_nil, none, not, some, suc, true, within, ℕ,
  ◌==◌, ◌||◌, ◌∷◌,
}
use agterm_remote.Remote.Sessions.{split, trim_newline}
use agterm_remote.Result.{Result, err, ok, ◌>>=◌}
use agterm_remote.Text.{Bytes, bytes_eq, codes, contains, cut, to_lower}
use mathlib.Core.Option
mod Keys
mod Tests

pub record ProbeResult : Type 0 where
  pub zmx_version : Bytes
  pub zmx_labels : Bool
  pub zmx_dir : Bytes
  pub tmux_version : Bytes
  pub nc_u : Bool
  pub python3 : Bool
  pub socat : Bool
  pub mosh_server : Bool
  pub home : Bytes
  pub agr_version : Bytes
  pub sock : Bool
  pub legacy_targets : ℕ
  pub legacy_agr_target : ℕ
  pub agtermctl : Bytes
  pub local_bin_path : Bool
  pub terminfo : Bool
  pub tic : Bool
  pub terminfo_checked : Bool

abbrev pub no_result : ProbeResult
no_result = record {
  zmx_version = [];
  zmx_labels = false;
  zmx_dir = [];
  tmux_version = [];
  nc_u = false;
  python3 = false;
  socat = false;
  mosh_server = false;
  home = [];
  agr_version = [];
  sock = false;
  legacy_targets = 0;
  legacy_agr_target = 0;
  agtermctl = [];
  local_bin_path = false;
  terminfo = false;
  tic = false;
  terminfo_checked = false;
}

-- A line is given by its number from one, a value by its key.
pub data ProbeError : Type 0 where
  empty_probe : ProbeError
  bad_line : ℕ → ProbeError
  duplicate_key : ℕ → Bytes → ProbeError
  bad_value : Bytes → ProbeError

unfoldable pub parse_missing : Bytes → Bytes
parse_missing value = if bytes_eq value (codes "MISSING") then [] else value

abbrev is_one_of : List Bytes → Bytes → Bool
is_one_of words s = contains words s

-- `none` where the source has an error.
unfoldable pub parse_probe_bool : Bytes → Option Bool
parse_probe_bool value =
    let v = to_lower value in
    if is_one_of (codes "1" ∷ codes "true" ∷ codes "yes" ∷ codes "present" ∷ []) v
    then some true
    else if is_one_of (codes "0" ∷ codes "false" ∷ codes "no" ∷ codes "missing" ∷ [] ∷ []) v
    then some false
    else none

abbrev not_negative : Option ℤ → Option ℕ
not_negative none = none
not_negative (some (negsuc n)) = none
not_negative (some (pos n)) = some n

unfoldable pub parse_probe_count : Bytes → Option ℕ
parse_probe_count value = not_negative (atoi value)

abbrev pub set_bool : (Bool → ProbeResult) → Bytes → Option ProbeResult
set_bool put value = Option.map put (parse_probe_bool value)

abbrev pub set_count : (ℕ → ProbeResult) → Bytes → Option ProbeResult
set_count put value = Option.map put (parse_probe_count value)

abbrev known_agtermctl : Bytes → Bool
known_agtermctl s = is_nil s || bytes_eq s (codes "proxy") || bytes_eq s (codes "other")

-- The switch on the key; `none` where the value is an error.
unfoldable pub set_key : Bytes → Bytes → ProbeResult → Option ProbeResult
set_key key value r =
    if bytes_eq key (codes "zmx")
    then some (record r { zmx_version = parse_missing value })
    else if bytes_eq key (codes "zmx_labels")
    then set_bool (λ b. record r { zmx_labels = b }) value
    else if bytes_eq key (codes "zmx_dir")
    then some (record r { zmx_dir = value })
    else if bytes_eq key (codes "tmux")
    then some (record r { tmux_version = parse_missing value })
    else if bytes_eq key (codes "nc_u")
    then set_bool (λ b. record r { nc_u = b }) value
    else if bytes_eq key (codes "python3")
    then set_bool (λ b. record r { python3 = b }) value
    else if bytes_eq key (codes "socat")
    then set_bool (λ b. record r { socat = b }) value
    else if bytes_eq key (codes "mosh_server")
    then set_bool (λ b. record r { mosh_server = b }) value
    else if bytes_eq key (codes "home")
    then some (record r { home = value })
    else if bytes_eq key (codes "agr")
    then some (record r { agr_version = parse_missing value })
    else if bytes_eq key (codes "sock")
    then set_bool (λ b. record r { sock = b }) value
    else if bytes_eq key (codes "legacy_targets")
    then set_count (λ n. record r { legacy_targets = n }) value
    else if bytes_eq key (codes "legacy_agr_target")
    then set_count (λ n. record r { legacy_agr_target = n }) value
    else if bytes_eq key (codes "agtermctl")
    then (let state = parse_missing value in
        if known_agtermctl state then some (record r { agtermctl = state }) else none)
    else if bytes_eq key (codes "local_bin_path")
    then set_bool (λ b. record r { local_bin_path = b }) value
    else if bytes_eq key (codes "terminfo")
    then set_bool (λ b. record r { terminfo = b; terminfo_checked = true }) value
    else if bytes_eq key (codes "tic")
    then set_bool (λ b. record r { tic = b }) value
    else some r

abbrev pub keyed : Bytes → Option ProbeResult → Result ProbeError ProbeResult
keyed key none = err (bad_value key)
keyed key (some r) = ok r

-- One line, cut at its first tab, after the keys that were seen.
unfoldable pub parse_line : ℕ → Bytes → List Bytes → ProbeResult → Result ProbeError ProbeResult
parse_line n text seen r =
    let parts = cut b'\t' text in
    if not parts.found || is_nil parts.before
    then err (bad_line n)
    else if contains seen parts.before
    then err (duplicate_key n parts.before)
    else keyed parts.before (set_key parts.before parts.after r)

unfoldable pub parse_probe_lines :
    List Bytes → ℕ → List Bytes → ProbeResult → Result ProbeError ProbeResult
parse_probe_lines [] n seen r = ok r
parse_probe_lines (l ∷ lines) n seen r = do
  r' ← parse_line n l seen r
  parse_probe_lines lines (suc n) ((cut b'\t' l).before ∷ seen) r'

-- `unicode.IsSpace`, on ASCII.
abbrev is_space : ℕ → Bool
is_space c = within 9 13 c || c == b' '

unfoldable pub parse_probe : Bytes → Result ProbeError ProbeResult
parse_probe body =
    let text = trim_newline body in
    if all is_space text
    then err empty_probe
    else parse_probe_lines (split b'\n' text) 1 [] no_result
