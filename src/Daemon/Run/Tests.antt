-- ===== src/Daemon/Run/Tests.antt =====
-- Tests of the run of a call.
use agterm_remote.Daemon.NewRow.{exec}
use agterm_remote.Daemon.Pages.{
  Page, bind, is_open, lookup, new_page, new_shim, open_in_slot, outcome, page_submitted, register,
  release, remember, remove_page, set_count, transition,
}
use agterm_remote.Daemon.Pages.Http.{set_page}
use agterm_remote.Daemon.Run.{
  Met, Ran, close_args, drive_shim_page, exits_with, page_args, pick_shown, run_page, run_plain,
}
use agterm_remote.Int.{pos}
use agterm_remote.Prelude.{[], false, map, none, refl, some, true, ◌∷◌, ◌≡◌}
use agterm_remote.Proxy.Call.{Call, no_call}
use agterm_remote.Proxy.Rewrite.{Prepared}
use agterm_remote.Text.{bytes_eq, codes}
use mathlib.Core.Option

-- A page that agterm shows in the row r1, and an older one in the same slot.
abbrev shown_page : Page
shown_page = record (new_page (codes "t1") (codes "dev") (codes "r1") [] (codes "f") (codes "d")) {
  page_id = codes "p";
}

abbrev old_page : Page
old_page = record (new_page (codes "t2") (codes "dev") (codes "r1") [] (codes "f") (codes "d")) {
  page_id = codes "o";
}

abbrev met : Met
met = record {
  is_local = λ url. false;
  dir = codes "d";
  env = record { agr = codes "agr"; sessions = none; bindings = none; page_size = pos 70 };
  origin = record { host = codes "dev"; session = codes "api"; cwd = []; files = []; stdin = [] };
  reserved = [];
  shim = record new_shim { pages = old_page ∷ shown_page ∷ []; addr = some (codes "a:1") };
  token = some (codes "t3");
  listens = none;
  shows = λ p. bytes_eq p.page_id (codes "p");
  lists = λ p. true;
  ended = λ argv. some (pos 0);
  over = false;
  over_later = false;
  page_id = codes "n";
  tracks = true;
  waited = λ p. some (record p { state = page_submitted; value = codes "yes" });
}

abbrev submit_call : Call
submit_call = record no_call {
  leaf = codes "session overlay submit";
  targets = (record { row = codes "R1"; pane_id = codes "p1"; side = []; whole_row = true }) ∷ [];
}

abbrev prepared_call : Prepared
prepared_call = record {
  args = codes "session" ∷ codes "overlay" ∷ codes "open" ∷ [];
  stdin = [];
  warnings = [];
  new_row = none;
  page = none;
  cancel = codes "close" ∷ [];
}

-- The page that is shown is driven, and its overlay closed.
drive_test :
    (Option.map (λ (r : Ran). r.commands) (drive_shim_page met submit_call).0
      ≡ some ((codes "session" ∷ codes "overlay" ∷ codes "close" ∷ codes "--target=r1" ∷ []) ∷ []))
    × (map (λ (p : Page). is_open p.state) ((drive_shim_page met submit_call).1).pages
        ≡ false ∷ true ∷ [])
unfolding drive_shim_page pick_shown open_in_slot is_open transition set_page close_args bytes_eq
drive_test = (refl, refl)

-- A command whose context ends first is answered with 1, behind its cancel hook.
cancelled_test :
    let r = run_plain (record met { over = true }) prepared_call in
    (r.commands ≡ prepared_call.args ∷ (codes "close" ∷ []) ∷ []) × (r.answer ≡ exits_with (pos 1))
unfolding run_plain exec
cancelled_test = (refl, refl)

-- A blocking page that the user submits.
page_test :
    let r =
      run_page met prepared_call
        (record { file = codes "f"; block = true; row = codes "r2"; side = codes "left" }) in
    (r.commands
      ≡ (codes "session"
          ∷ codes "overlay"
          ∷ codes "open"
          ∷ codes "--url=http://a:1/t3/"
          ∷ codes "--js"
          ∷ codes "--json"
          ∷ [])
        ∷ (codes "session"
            ∷ codes "overlay"
            ∷ codes "close"
            ∷ codes "--target=r2"
            ∷ codes "--pane=left"
            ∷ [])
        ∷ [])
    × (r.answer ≡ exits_with (pos 0))
unfolding run_page register set_count remove_page page_args exec bind set_page outcome release
    remember lookup close_args bytes_eq
page_test = (refl, refl)
