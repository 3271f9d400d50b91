-- ===== src/Proxy/Tests/Daemon.antt =====
-- The theorems on the wire and on the rewritten calls at concrete inputs.
use agterm_remote.Bindings.{Binding}
use agterm_remote.Int.{pos}
use agterm_remote.Prelude.{
  none, some, List, Option, String, [], false, none, refl, some, ◌++◌, ◌∷◌, ◌≡◌,
}
use agterm_remote.Proxy.Call.{Call, Opt, no_call, plain_opt}
use agterm_remote.Proxy.Frames.{stream_write}
use agterm_remote.Proxy.Frames.Once.{
  stdout, stderr, FrameOp, OneExit, exit_op, refuse_op, run_ops, run_ops-OneExit, write_op,
}
use agterm_remote.Proxy.Frames.Stream.{Streamed, stream_write-Streamed, taking}
use agterm_remote.Proxy.Prepare.{rewrite_new}
use agterm_remote.Proxy.Prepare.Opened.{NewRowOf, rewrite_new-NewRowOf}
use agterm_remote.Proxy.Rewrite.{
  Env, Origin, Prepared, RewriteError, free_name, generate_name, is_taken, max_generated_names,
  numbered, pick_name, reservation_key, reserved_for, reserved_name,
}
use agterm_remote.Proxy.Rewrite.Names.{IsFree, pick_name-IsFree}
use agterm_remote.Proxy.Wire.{
  Header, WireHeader, check_files, check_header, decode_header, max_files, max_files_total,
  max_stdin, read_body, within_limit,
}
use agterm_remote.Proxy.Wire.Body.{read_body-announced}
use agterm_remote.Proxy.Wire.Limits.{IsBounded, decode_header-IsBounded}
use agterm_remote.Result.{Result, err, ok}
use agterm_remote.Text.{Bytes, bytes_eq, codes, itoa}
use agterm_remote.Token.{valid, valid_char}

abbrev header : Header
header = record {
  session = codes "api";
  self = record { row = codes "r1"; pane_id = codes "p1" };
  cwd = codes "/src";
  argv = [];
  files = pos 2 ∷ pos 0 ∷ [];
  stdin = pos 1;
}

abbrev as_wire : Bytes → Option WireHeader
as_wire line = some (record { cmd = codes "ctl"; v = pos 1; session_id = []; header = header })

decode_header-IsBounded_example : IsBounded header
unfolding decode_header check_header check_files within_limit valid valid_char bytes_eq max_files
    max_files_total max_stdin
decode_header-IsBounded_example = decode_header-IsBounded as_wire (codes "{}") refl

read_body-announced_example :
    read_body header (codes "ab" ++ ([] ++ (codes "!" ++ codes "more")))
    ≡ ok (codes "ab" ∷ [] ∷ [], (codes "!", codes "more"))
read_body-announced_example =
    read_body-announced header (codes "ab" ∷ [] ∷ []) (codes "!") (codes "more") refl refl

stream_write-Streamed_example :
    Streamed b'o' [] 0
      (codes "hi")
      (stream_write taking b'o' (codes "hi") (record { w = []; exited = false }))
stream_write-Streamed_example = stream_write-Streamed b'o' (codes "hi") []

abbrev ops : List FrameOp
ops =
    write_op stdout (codes "hi")
    ∷ write_op stderr (codes "no")
    ∷ exit_op (pos 0)
    ∷ refuse_op (codes "late")
    ∷ exit_op (pos 1)
    ∷ []

-- The second write breaks off after three bytes.
run_ops-OneExit_example :
    OneExit (
      run_ops ops
        (record { w = record { writes = []; ends = none ∷ some 3 ∷ [] }; exited = false }))
run_ops-OneExit_example = run_ops-OneExit (none ∷ some 3 ∷ []) ops

abbrev bound_api : Binding
bound_api = record {
  row = codes "r1";
  pane_id = codes "p1";
  pane = codes "left";
  host = codes "dev";
  name = codes "api";
  mux = codes "tmux";
  bound_at = 1;
  grants = none;
}

abbrev env : Env
env = record {
  agr = codes "/opt/agr";
  sessions = some (codes "web" ∷ []);
  bindings = some (bound_api ∷ []);
  page_size = pos 50;
}

abbrev origin : Origin
origin = record {
  host = codes "dev";
  session = codes "api";
  cwd = codes "/src";
  files = [];
  stdin = [];
}

pick_name-IsFree_example : IsFree env origin [] (codes "api-2")
unfolding pick_name free_name numbered is_taken reserved_for reserved_name valid valid_char bytes_eq
    itoa max_generated_names
pick_name-IsFree_example = pick_name-IsFree env origin [] (codes "api") refl

abbrev held : List Bytes
held = reservation_key (codes "dev") (codes "api-2") ∷ []

abbrev opt_named : String → String → Opt
opt_named name value = record {
  name = codes name;
  value = codes value;
  flag = false;
  role = plain_opt;
}

abbrev new_call : Call
new_call = record no_call {
  leaf = codes "session new";
  path = codes "session" ∷ codes "new" ∷ [];
  opts = opt_named "cwd" "/a b" ∷ opt_named "command" "make 'all'" ∷ [];
}

abbrev empty_prepared : Prepared
empty_prepared = record {
  args = [];
  stdin = [];
  warnings = [];
  new_row = none;
  page = none;
  cancel = [];
}

abbrev prepared_or_empty : Result RewriteError (Prepared × List Bytes) → Prepared × List Bytes
prepared_or_empty (ok out) = out
prepared_or_empty (err e) = (empty_prepared, [])

abbrev outcome : Prepared × List Bytes
outcome = prepared_or_empty (rewrite_new env origin [] empty_prepared new_call)

rewrite_new-NewRowOf_example : NewRowOf env origin [] new_call outcome.0 outcome.1
unfolding rewrite_new generate_name pick_name free_name numbered is_taken reserved_for reserved_name
    valid valid_char bytes_eq itoa max_generated_names
rewrite_new-NewRowOf_example = rewrite_new-NewRowOf env origin [] empty_prepared new_call refl
