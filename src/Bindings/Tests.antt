-- ===== src/Bindings/Tests.antt =====
-- Tests of the bindings, and their theorems at concrete inputs.
use agterm_remote.Bindings.{Binding, Grant, supersedes, upsert}
use agterm_remote.Bindings.Distinct.{IsDistinct}
use agterm_remote.Bindings.Store.{
  Codec, Disk, Io, bind, bind_request, effect, effect-IsDistinct, load, serve, write_failed,
  write_unlocked, StoreError,
}
use agterm_remote.Bindings.Store.Durable.{load-serve, normal, serve_atomic}
use agterm_remote.Bindings.Store.Written.{Writes}
use agterm_remote.Bindings.Upsert.{inherited, kept, upsert_lem, with_grants}
use agterm_remote.Prelude.{
  List, [], if◌then◌else◌, length, map, none, refl, some, true, ◌++◌, ◌∷◌, ◌≡◌,
}
use agterm_remote.Result.{err, ok}
use agterm_remote.Text.{bytes_eq, codes, has_byte}

abbrev to_agent : Grant
to_agent = record { row = codes "r9"; pane_id = codes "p9"; kind = codes "consent" }

abbrev to_shell : Grant
to_shell = record { row = codes "r9"; pane_id = codes "p8"; kind = codes "orchestrator" }

abbrev api : Binding
api = record {
  row = codes "r1";
  pane_id = codes "p1";
  pane = codes "left";
  host = codes "dev";
  name = codes "api";
  mux = codes "tmux";
  bound_at = 1;
  grants = some (to_agent ∷ []);
}

abbrev web : Binding
web = record api { pane_id = codes "p2"; pane = codes "right"; name = codes "web"; grants = none }

-- The session `api` again, in another row.
abbrev moved : Binding
moved = record api { row = codes "r2"; pane_id = codes "p3"; grants = none }

abbrev two : List Binding
two = api ∷ web ∷ []

upsert_test : upsert two moved ≡ web ∷ record moved { grants = some (to_agent ∷ []) } ∷ []
unfolding upsert bytes_eq
upsert_test = refl

two-IsDistinct : IsDistinct two
unfolding supersedes bytes_eq
two-IsDistinct = ((refl, tt), (tt, tt))

upsert_lem_example :
    upsert two moved ≡ kept moved two ++ with_grants moved (inherited moved moved.grants two) ∷ []
upsert_lem_example = upsert_lem two moved

effect-IsDistinct_example : IsDistinct (upsert two moved)
unfolding effect
effect-IsDistinct_example = effect-IsDistinct (bind_request moved) two refl two-IsDistinct

abbrev both_granted : List Binding
both_granted = record api { grants = some (to_agent ∷ to_shell ∷ []) } ∷ web ∷ []

-- A codec that knows the two files of these tests.
abbrev json : Codec
json = record {
  encode = λ bs. length bs ∷ [];
  decode = λ bytes. if has_byte 7 bytes then some two else some (map normal (upsert two moved));
}

abbrev working : Io
working = record {
  lockable = true;
  readable = true;
  makes_dir = true;
  encodes = true;
  creates = true;
  chmods = true;
  breaks_off = none;
  syncs = true;
  closes = true;
  renames = true;
  removes = true;
}

working-Writes : Writes working
working-Writes = record {
  made = refl;
  encoded = refl;
  created = refl;
  moded = refl;
  whole = refl;
  synced = refl;
  closed = refl;
  renamed = refl;
}

abbrev disk : Disk
disk = record { file = some (7 ∷ b'\n' ∷ []); temp = none; remains = [] }

-- The temporary file is written in part.
abbrev broken : Io
broken = record working { breaks_off = some 3 }

broken_test : serve json broken (bind_request moved) disk ≡ (err write_failed, disk)
unfolding serve bind write_unlocked upsert bytes_eq
broken_test = refl

serve_atomic_example :
    ((e : StoreError)
      → (serve json broken (bind_request moved) disk).0 ≡ err e
      → (serve json broken (bind_request moved) disk).1.file ≡ disk.file)
    × (disk.temp ≡ none → (serve json broken (bind_request moved) disk).1.temp ≡ none)
    × (broken.removes ≡ true → (serve json broken (bind_request moved) disk).1.remains ≡ [])
serve_atomic_example = serve_atomic json broken (bind_request moved) disk

load-serve_example :
    (d' : Disk) × (serve json working (bind_request moved) disk ≡ (ok tt, d'))
    × (load json working d' ≡ (ok (map normal (upsert two moved)), d'))
unfolding effect load upsert bytes_eq
load-serve_example =
    load-serve json working working (bind_request moved) disk two (upsert two moved) refl refl
      working-Writes refl refl refl
