-- ===== src/Proxy/Prepare.antt =====
-- internal/proxy/rewrite.go: the argv, the page and the new row of an authorized call. The directory of
-- the call's files and whether a URL is local are parameters: `net/url`, `net` and the file system.
pub mod Opened
use agterm_remote.Prelude.{
  Bool, List, Option, String, [], all, false, find, if◌then◌else◌, is_nil, length, ltb, map, none,
  not, some, ℕ, ◌&&◌, ◌++◌, ◌∷◌,
}
use agterm_remote.Proxy.Call.{Call, CallRole, FileRef, Opt, Target, call_args, render}
use agterm_remote.Proxy.Rewrite.{
  Env, NewRow, Origin, Page, Prepared, RewriteError, cannot_read_bindings, file_not_sent,
  generate_name, has_opt, overlay_close, pane_not_bound, size_page, without_opts,
}
use agterm_remote.Quote.{join}
use agterm_remote.Result.{Result, err, ok, ◌>>=◌}
use agterm_remote.Text.{Bytes, bytes_eq, codes, equal_fold, itoa, join_with}

abbrev pub last_value : Bytes → Bytes → List Opt → Bytes
last_value name found [] = found
last_value name found (opt ∷ opts) =
    last_value name (if bytes_eq opt.name name then opt.value else found) opts

abbrev command_of : Bytes → Opt
command_of value = record {
  name = codes "command";
  value = value;
  flag = false;
  role = CallRole.command_opt;
}

abbrev optional : String → Bytes → List Bytes
optional name value = if bytes_eq value [] then [] else codes name ∷ value ∷ []

-- The words of the command of a new row.
unfoldable pub open_words : Env → Origin → Call → Bytes → List Bytes
open_words env req c name =
    env.agr
    ∷ codes "open"
    ∷ req.host
    ∷ name
    ∷ (optional "--cwd" (last_value (codes "cwd") [] c.opts)
        ++ optional "--command" (last_value (codes "command") [] c.opts))

-- The options of `session new` that agterm gets.
unfoldable pub new_opts : Env → Origin → Call → Bytes → List Opt
new_opts env req c name =
    without_opts c.opts (codes "cwd" ∷ codes "command" ∷ [])
    ++ command_of (join (open_words env req c name)) ∷ []

-- `rewriteNew`, with the reservations that it leaves.
unfoldable pub rewrite_new :
    Env → Origin → List Bytes → Prepared → Call → Result RewriteError (Prepared × List Bytes)
rewrite_new env req reserved p c = do
  (name, reserved₁) ← generate_name env req reserved (last_value (codes "name") [] c.opts)
  let row : NewRow = record { host = req.host; name = name }
  let args = render c (new_opts env req c name) c.pos
  ok (record p { args = args; new_row = some row }, reserved₁)

-- `boundName`
unfoldable pub bound_name : Env → Bytes → Bytes → Result RewriteError Bytes
bound_name env host pane_id = elim env.bindings [
  | none ↦ err cannot_read_bindings
  | some all ↦ elim (find (λ b. bytes_eq b.host host && equal_fold b.pane_id pane_id) all) [
    | none ↦ err (pane_not_bound pane_id)
    | some b ↦ ok b.name
  ]
]

abbrev restore_words : Env → Origin → Call → Bytes → List Bytes
restore_words env req c name =
    env.agr
    ∷ codes "open"
    ∷ req.host
    ∷ name
    ∷ codes "--command"
    ∷ join_with (codes " ") c.command
    ∷ []

-- `rewriteRestore`
restore_target : Env → Origin → Prepared → Call → Target → Result RewriteError Prepared
restore_target env req p c target = do
  name ← bound_name env req.host target.pane_id
  ok (record p { args = render c c.opts (join (restore_words env req c name) ∷ []) })

restore_targets : Env → Origin → Prepared → Call → List Target → Result RewriteError Prepared
unfolding restore_target
restore_targets env req p c (target ∷ []) = restore_target env req p c target
restore_targets env req p c _ = ok (record p { args = call_args c })

unfoldable pub rewrite_restore : Env → Origin → Prepared → Call → Result RewriteError Prepared
unfolding restore_targets
rewrite_restore env req p c =
    if is_nil c.command
    then ok (record p { args = call_args c })
    else restore_targets env req p c c.targets

-- The words that run the command of an overlay on the host.
unfoldable pub run_words : Env → Origin → Call → List Bytes
run_words env req c =
    env.agr
    ∷ codes "run"
    ∷ req.host
    ∷ (optional "--cwd" req.cwd
        ++ codes "--" ∷ codes "sh" ∷ codes "-c" ∷ join_with (codes " ") c.command ∷ [])

module _ (is_local : Bytes → Bool) where
  -- `localURLWarning`
  unfoldable pub local_url_warning : Bytes → Bytes → List Bytes
  local_url_warning raw host =
      if is_local raw
      then (codes "warning: "
          ++ (raw ++ (codes " opens on the Mac, where localhost is not " ++ host)))
        ∷ []
      else []

  unfoldable pub url_warnings : Bytes → List Opt → List Bytes
  url_warnings host [] = []
  url_warnings host (opt ∷ opts) =
      let rest = url_warnings host opts in
      if bytes_eq opt.name (codes "url") then local_url_warning opt.value host ++ rest else rest

  -- `rewriteOverlay`
  unfoldable pub rewrite_overlay : Env → Origin → Prepared → Call → Prepared
  rewrite_overlay env req p c =
      if not (is_nil c.command) && bytes_eq c.command_opt []
      then record p { args = render c c.opts (join (run_words env req c) ∷ []) }
      else record p { args = call_args c; warnings = p.warnings ++ url_warnings req.host c.opts }

-- `<i>.html` in the directory of the call.
abbrev file_name : Bytes → ℕ → Bytes
file_name dir n = dir ++ b'/' ∷ (itoa n ++ codes ".html")

-- `writeFiles`: the first file that was not sent, else nothing.
unfoldable pub missing_file : ℕ → List FileRef → Option ℕ
missing_file count [] = none
missing_file count (ref ∷ refs) =
    if ltb ref.index count then missing_file count refs else some ref.index

abbrev only_slot : List Target → Bytes × Bytes
only_slot (target ∷ []) = (target.row, target.side)
only_slot _ = ([], [])

abbrev page_of : Bytes → Call → FileRef → Page
page_of dir c ref =
    let (row, side) = only_slot c.targets in
    record { file = file_name dir ref.index; block = c.block; row = row; side = side }

abbrev last_page : Bytes → Call → Option Page → List FileRef → Option Page
last_page dir c page [] = page
last_page dir c page (ref ∷ refs) = last_page dir c (some (page_of dir c ref)) refs

abbrev shim_names : Call → List Bytes
shim_names c = map (λ ref. ref.opt) c.files ++ codes "js" ∷ codes "block" ∷ []

-- `rewriteHTML`
unfoldable pub rewrite_html : Bytes → Prepared → Call → Prepared
rewrite_html dir p c = record p {
  args = render c (without_opts c.opts (shim_names c)) c.pos;
  page = last_page dir c none c.files;
}

unfoldable pub rewrite_files : Bytes → Origin → Prepared → Call → Result RewriteError Prepared
rewrite_files dir req p c = elim (missing_file (length req.files) c.files) [
  | some n ↦ err (file_not_sent n)
  | none ↦ ok (rewrite_html dir p c)
]

abbrev only_close : List Target → List Bytes
only_close (target ∷ []) = overlay_close target
only_close _ = []

-- What every rewrite starts from.
abbrev prepared : Origin → Call → List Bytes → Prepared
prepared req c warnings = record {
  args = [];
  stdin = if has_opt c.opts (codes "stdin") then req.stdin else [];
  warnings = warnings;
  new_row = none;
  page = none;
  cancel = if c.block then only_close c.targets else [];
}

abbrev keeping :
    {A : Type 0} → List Bytes → Result RewriteError A → Result RewriteError (A × List Bytes)
keeping reserved (err e) = err e
keeping reserved (ok a) = ok (a, reserved)

-- The rest of `rewrite`, on the sized call.
unfoldable pub rewrite_sized :
    (Bytes → Bool)
    → Bytes
    → Env
    → Origin
    → List Bytes
    → Call
    → List Bytes
    → Result RewriteError (Prepared × List Bytes)
rewrite_sized is_local dir env req reserved c warnings =
    let p = prepared req c warnings in
    if not (is_nil c.files)
    then keeping reserved (rewrite_files dir req p c)
    else if bytes_eq c.leaf (codes "session new")
    then rewrite_new env req reserved p c
    else if bytes_eq c.leaf (codes "session overlay open")
    then ok (rewrite_overlay is_local env req p c, reserved)
    else if bytes_eq c.leaf (codes "session restore")
    then keeping reserved (rewrite_restore env req p c)
    else ok (record p { args = call_args c }, reserved)

-- `Rewrite`; a failure leaves the reservations as they were.
unfoldable pub rewrite :
    (Bytes → Bool)
    → Bytes
    → Env
    → Origin
    → List Bytes
    → Call
    → Result RewriteError (Prepared × List Bytes)
rewrite is_local dir env req reserved c =
    let (sized, warning) = size_page env.page_size c in
    rewrite_sized is_local dir env req reserved sized (c.warnings ++ warning)
