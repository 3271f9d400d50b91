-- ===== src/Daemon/Pages/Tests.antt =====
-- Tests of the page shim, and its theorems at a concrete page.
use agterm_remote.Daemon.Pages.Finished.{Ends}
use mathlib.Core.Option
use agterm_remote.Daemon.Pages.{
  Page, Shim, is_done, is_open, lookup, new_page, new_shim, page_dismissed, page_submitted,
  poll_gone, poll_live, polled, register, remove_page, set_count, transition, wait,
}
use agterm_remote.Daemon.Pages.Acted.{Admitted, serve_http-IsActed}
use agterm_remote.Daemon.Pages.Counted.{IsCounted, Reach, Reach-IsCounted, begins, registers, steps}
use agterm_remote.Daemon.Pages.Http.{
  HttpRequest, answers, waits, finish, act, action_of, body_value, current, get, post, serve_http,
  serve_page, serve_post, set_page, split_page_path,
}
use agterm_remote.Prelude.{Bool, ◌&&◌, [], if◌then◌else◌, refl, some, true, ◌∷◌, ◌≡◌}
use agterm_remote.Text.{Bytes, bytes_eq, codes, cut}

abbrev address : Bytes
address = codes "127.0.0.1:4000"

abbrev ours : Page
ours = record (new_page (codes "t1") (codes "dev") (codes "r1") [] (codes "f") (codes "d")) {
  page_id = codes "p";
}

abbrev shim : Shim
shim = record new_shim {
  pages = ours ∷ [];
  per_host = λ h. if bytes_eq (codes "dev") h then 1 else 0;
  addr = some address;
}

abbrev submits : HttpRequest
submits = record {
  method = post;
  host_header = address;
  path = codes "/t1/submit";
  origin = codes "http://127.0.0.1:4000";
  content_length = 12;
  body = body_value (codes "yes");
  handler_free = true;
  bound_in_time = true;
  live = λ row id. some (bytes_eq row (codes "r1") && bytes_eq id (codes "p"));
  file_readable = true;
}

abbrev served : Shim
served = record shim { pages = record ours { state = page_submitted; value = codes "yes" } ∷ [] }

-- The page before agterm reported its id.
abbrev unbound : Page
unbound = record ours { page_id = [] }

submit_test :
    (serve_http submits (record shim { pages = unbound ∷ [] })
      ≡ waits unbound page_submitted (codes "yes"))
    × (finish submits shim ours page_submitted (codes "yes") ≡ (200, served))
unfolding serve_http split_page_path action_of cut lookup serve_post act current transition is_open
    set_page bytes_eq finish
submit_test = (refl, refl)

-- A second post, one from another origin, a page that is only shown, and one that was replaced.
refused_test :
    (serve_http submits served ≡ answers 409)
    × (serve_http (record submits { origin = codes "http://evil" }) shim ≡ answers 403)
    × (serve_http (record submits { method = get; path = codes "/t1/" }) shim ≡ answers 200)
    × (finish submits shim (record ours { page_id = codes "q" }) page_submitted (codes "yes")
        ≡ (409, shim))
unfolding serve_http split_page_path action_of cut lookup serve_post act current transition is_open
    set_page bytes_eq serve_page finish
refused_test = (refl, refl, refl, refl)

wait_test :
    Option.map
      (λ (r : Bool × Page). (r.1).state)
      (wait (poll_live ∷ poll_gone ∷ is_done ∷ []) 0 ours)
    ≡ some page_dismissed
unfolding wait polled transition is_open
wait_test = refl

serve_http-IsActed_example :
    Admitted submits (record shim { pages = unbound ∷ [] }) unbound page_submitted (codes "yes")
    × ((t : Shim) (r : Page) → Ends submits t r page_submitted (codes "yes"))
unfolding serve_http split_page_path action_of cut lookup serve_post act is_open bytes_eq
serve_http-IsActed_example = serve_http-IsActed submits (record shim { pages = unbound ∷ [] }) refl

-- Every token is of the host "dev".
abbrev owner : Bytes → Bytes
owner token = codes "dev"

abbrev fresh : Page
fresh = new_page (codes "t1") (codes "dev") (codes "r1") [] (codes "f") (codes "d")

abbrev with_fresh : Shim
with_fresh = record new_shim {
  pages = fresh ∷ [];
  per_host = set_count (codes "dev") 1 new_shim.per_host;
  addr = some address;
}

fresh-Reach : Reach owner with_fresh
unfolding register lookup remove_page
fresh-Reach = steps begins (
    registers (codes "t1") (some address) (codes "dev") (codes "r1") [] (codes "f") (codes "d")
      fresh with_fresh refl refl refl)

Reach-IsCounted_example : IsCounted owner with_fresh
Reach-IsCounted_example = Reach-IsCounted owner fresh-Reach
