-- ===== src/Daemon/Pages/Http.antt =====
-- internal/daemon/pageshim.go: the requests that the shim serves. A post for an open page waits for the
-- id of its page, so a request has two parts: up to the wait, and behind it, where the shim and the page
-- may have changed. What one part reads under the mutex in several sections is one look here.
use agterm_remote.Daemon.Pages.{
  Page, PageState, Shim, has_token, is_open, lookup, page_dismissed, page_submitted, spent,
  transition,
}
use agterm_remote.Prelude.{
  Bool, List, Option, [], false, if◌then◌else◌, is_nil, ltb, none, not, some, true, ℕ, ◌&&◌, ◌++◌,
  ◌==◌, ◌∷◌,
}
use agterm_remote.Text.{Bytes, bytes_eq, codes, cut, has_byte}
use mathlib.Core.Option

pub data Method : Type 0 where
  get post other_method : Method

pub data PageAction : Type 0 where
  show submit close_page : PageAction

-- What the decoder makes of a body.
pub data Body : Type 0 where
  body_too_large bad_body no_value : Body
  body_value : Bytes → Body

-- The request, and what the shim meets while it serves it: whether a handler is free, whether its file can
-- be read, whether the wait for the id ends by it, and what agterm answers for a row and a page id.
pub record HttpRequest : Type 0 where
  pub method : Method
  pub host_header : Bytes
  pub path : Bytes
  pub origin : Bytes
  pub content_length : ℕ
  pub body : Body
  pub handler_free : Bool
  pub bound_in_time : Bool
  pub live : Bytes → Bytes → Option Bool
  pub file_readable : Bool

abbrev pub max_page_body : ℕ
max_page_body = 65536

abbrev trim_slash : Bytes → Bytes
trim_slash [] = []
trim_slash (c ∷ s) = if c == b'/' then s else c ∷ s

-- The action behind the token, if it is one.
unfoldable pub action_of : Bytes → Option PageAction
action_of s =
    if is_nil s
    then some show
    else if bytes_eq s (codes "submit")
    then some submit
    else if bytes_eq s (codes "close")
    then some close_page
    else none

-- The path behind its first slash, cut at the next one; more than two parts are none.
unfoldable pub split_page_path : Bytes → Option (Bytes × PageAction)
split_page_path path =
    let parts = cut b'/' (trim_slash path) in
    if parts.found && not (is_nil parts.before) && not (has_byte b'/' parts.after)
    then Option.map (λ a. (parts.before, a)) (action_of parts.after)
    else none

-- What the first part leaves: a status, or a page that waits to become of this state and value.
pub data Begun : Type 0 where
  answers : ℕ → Begun
  waits : Page → PageState → Bytes → Begun

abbrev pub says_live : Option Bool → Bool
says_live none = false
says_live (some live) = live

-- `current` behind its first test, on the page as it is then.
unfoldable pub current : HttpRequest → Page → Bool
current q p = q.bound_in_time && not (is_nil p.page_id) && says_live (q.live p.row p.page_id)

-- The page of the token is replaced.
unfoldable pub set_page : Page → List Page → List Page
set_page p [] = []
set_page p (r ∷ pages) =
    let rest = set_page p pages in if has_token p.token r then p ∷ pages else r ∷ rest

abbrev pub Served : Type 0
Served = ℕ × Shim

abbrev pub acted : Shim → Bool × Page → Served
acted s (did, p) = if did then (200, record s { pages = set_page p s.pages }) else (409, s)

-- The end of `servePost` up to the wait in `current`, and behind it.
unfoldable pub act : Page → PageState → Bytes → Begun
act p state value = if is_open p.state then waits p state value else answers 409

unfoldable pub finish : HttpRequest → Shim → Page → PageState → Bytes → Served
finish q s p state value = if current q p then acted s (transition state value p) else (409, s)

abbrev pub submitted : Page → Body → Begun
submitted p body_too_large = answers 413
submitted p bad_body = answers 400
submitted p no_value = answers 400
submitted p (body_value v) = act p page_submitted v

abbrev pub by_action : HttpRequest → Page → PageAction → Begun
by_action q p submit = submitted p q.body
by_action q p _ = act p page_dismissed []

unfoldable pub serve_post : HttpRequest → Bytes → Page → PageAction → Begun
serve_post q addr p a =
    if not (is_nil q.origin) && not (bytes_eq q.origin (codes "http://" ++ addr))
    then answers 403
    else if ltb max_page_body q.content_length
    then answers 413
    else by_action q p a

-- `servePage`, by its status.
unfoldable pub serve_page : HttpRequest → Page → Begun
serve_page q p = answers (if is_open p.state && q.file_readable then 200 else 404)

abbrev pub by_method : HttpRequest → Bytes → Page → PageAction → Method → Begun
by_method q addr p show get = serve_page q p
by_method q addr p submit post = serve_post q addr p submit
by_method q addr p close_page post = serve_post q addr p close_page
by_method q addr p _ _ = answers 404

-- Whether a request for a released token is a conflict.
abbrev pub is_replay : Method → PageAction → Bool
is_replay post submit = true
is_replay post close_page = true
is_replay _ _ = false

abbrev pub with_page : HttpRequest → Bytes → Shim → Bytes → PageAction → Option Page → Begun
with_page q addr s token a none =
    answers (if is_replay q.method a && spent token s then 409 else 404)
with_page q addr s token a (some p) = by_method q addr p a q.method

abbrev pub with_path : HttpRequest → Bytes → Shim → Option (Bytes × PageAction) → Begun
with_path q addr s none = answers 404
with_path q addr s (some (token, a)) = with_page q addr s token a (lookup token s.pages)

abbrev pub at_address : HttpRequest → Shim → Option Bytes → Begun
at_address q s none = answers 421
at_address q s (some addr) =
    if bytes_eq q.host_header addr then with_path q addr s (split_page_path q.path) else answers 421

-- `serveHTTP` up to the wait; this part changes nothing.
unfoldable pub serve_http : HttpRequest → Shim → Begun
serve_http q s = if q.handler_free then at_address q s s.addr else answers 503
