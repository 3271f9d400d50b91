-- ===== src/Daemon/Pages.antt =====
-- internal/daemon/pageshim.go: the pages of hosts behind the loopback server. A page is its entry in
-- the shim; the map of counts is a function, the map of pages a list with one entry for a token. What
-- agterm, the file system and the decoder of bodies answer comes with a request.
pub mod Http
mod Count
mod Spent
mod Counted
pub mod Finished
pub mod Acted
mod Tests
use agterm_remote.Prelude.{
  Bool, List, Option, [], false, filter, find, if◌then◌else◌, is_nil, leb, length, ltb, none, not,
  some, suc, true, ℕ, ◌&&◌, ◌++◌, ◌-◌, ◌||◌, ◌∷◌,
}
use agterm_remote.Result.{Result, err, ok}
use agterm_remote.Text.{Bytes, bytes_eq, contains, equal_fold}

pub data PageState : Type 0 where
  page_open page_submitted page_dismissed : PageState

unfoldable pub is_open : PageState → Bool
is_open page_open = true
is_open page_submitted = false
is_open page_dismissed = false

-- `page_id` is empty until `bind`.
pub record Page : Type 0 where
  pub token : Bytes
  pub host : Bytes
  pub row : Bytes
  pub side : Bytes
  pub file : Bytes
  pub dir : Bytes
  pub state : PageState
  pub page_id : Bytes
  pub value : Bytes

abbrev pub new_page : Bytes → Bytes → Bytes → Bytes → Bytes → Bytes → Page
new_page token host row side file dir = record {
  token = token;
  host = host;
  row = row;
  side = side;
  file = file;
  dir = dir;
  state = page_open;
  page_id = [];
  value = [];
}

-- The first id wins.
unfoldable pub bind : Bytes → Page → Page
bind id p = if is_nil p.page_id then record p { page_id = id } else p

-- `transition`: whether this call did it, and the page.
unfoldable pub transition : PageState → Bytes → Page → Bool × Page
transition state value p =
    if is_open p.state then (true, record p { state = state; value = value }) else (false, p)

-- The exit code of `outcome`, and the value that its reply shows.
unfoldable pub outcome : Page → ℕ × Bytes
outcome p = elim p.state [
  | page_open ↦ (2, [])
  | page_submitted ↦ (0, p.value)
  | page_dismissed ↦ (2, [])
]

pub data PageError : Type 0 where
  no_token page_limit no_listener : PageError

-- `addr` is there while the server runs.
pub record Shim : Type 0 where
  pub pages : List Page
  pub per_host : Bytes → ℕ
  pub released : List Bytes
  pub spent_list : List Bytes
  pub addr : Option Bytes

abbrev pub new_shim : Shim
new_shim = record { pages = []; per_host = λ h. 0; released = []; spent_list = []; addr = none }

abbrev pub max_pages_per_host : ℕ
max_pages_per_host = 8

abbrev pub max_spent_tokens : ℕ
max_spent_tokens = 1024

abbrev pub has_token : Bytes → Page → Bool
has_token token p = bytes_eq p.token token

unfoldable pub lookup : Bytes → List Page → Option Page
lookup token pages = find (has_token token) pages

-- `delete(s.pages, token)`
unfoldable pub remove_page : Bytes → List Page → List Page
remove_page token [] = []
remove_page token (p ∷ pages) =
    let rest = remove_page token pages in if has_token token p then pages else p ∷ rest

-- The count of a host, changed.
unfoldable pub set_count : Bytes → ℕ → (Bytes → ℕ) → Bytes → ℕ
set_count host n counts h = if bytes_eq host h then n else counts h

abbrev pub listening : Option Bytes → Option Bytes → Option Bytes
listening (some addr) listens = some addr
listening none listens = listens

abbrev pub registered : Page → Shim → Option Bytes → Result PageError (Page × Shim)
registered p s none = err no_listener
registered p s (some addr) = ok (
  p,
  record s {
    pages = p ∷ remove_page p.token s.pages;
    per_host = set_count p.host (suc (s.per_host p.host)) s.per_host;
    addr = some addr;
  },
)

-- `register`, on the token that was drawn and the address that a new listener would have.
unfoldable pub register :
    Option Bytes
    → Option Bytes
    → Bytes
    → Bytes
    → Bytes
    → Bytes
    → Bytes
    → Shim
    → Result PageError (Page × Shim)
register none listens host row side file dir s = err no_token
register (some token) listens host row side file dir s =
    if leb max_pages_per_host (s.per_host host)
    then err page_limit
    else registered (new_page token host row side file dir) s (listening s.addr listens)

-- `remember`, behind the append.
abbrev pub forget_oldest : List Bytes → List Bytes → Shim → Shim
forget_oldest released [] s = record s { released = released; spent_list = [] }
forget_oldest released (t ∷ ts) s =
    if ltb max_spent_tokens (length (t ∷ ts))
    then record s { released = filter (λ r. not (bytes_eq r t)) released; spent_list = ts }
    else record s { released = released; spent_list = t ∷ ts }

unfoldable pub remember : Bytes → Shim → Shim
remember token s = forget_oldest (token ∷ s.released) (s.spent_list ++ token ∷ []) s

-- The part of `release` under the mutex, on the entry of the token.
abbrev pub drop_page : Page → Shim → Option Page → Shim
drop_page p s none = s
drop_page p s (some q) = record (remember p.token s) {
  pages = remove_page p.token s.pages;
  per_host = set_count p.host (s.per_host p.host - 1) s.per_host;
}

unfoldable pub release : Page → Shim → Shim
release p s = drop_page p s (lookup p.token s.pages)

unfoldable pub release_all : List Page → Shim → Shim
release_all [] s = s
release_all (p ∷ ps) s = release_all ps (release p s)

unfoldable pub release_host : Bytes → Shim → Shim
release_host host s = release_all (filter (λ (p : Page). bytes_eq p.host host) s.pages) s

-- `close`
unfoldable pub close : Shim → Shim
close s = record s { pages = []; per_host = λ h. 0; addr = none }

unfoldable pub open_in_slot : Bytes → Bytes → Bytes → Shim → List Page
open_in_slot host row side s =
    filter
      (λ (p : Page).
        bytes_eq p.host host
        && equal_fold p.row row
        && (bytes_eq p.side side || is_nil p.side)
        && is_open p.state)
      s.pages

abbrev pub spent : Bytes → Shim → Bool
spent token s = contains s.released token

-- What one round of `wait` meets: the page is done, the context ended, or the poll found the page
-- live, gone, its row missing, or failed otherwise.
pub data Round : Type 0 where
  is_done context_ended poll_live poll_gone poll_row_missing poll_failed : Round

abbrev pub max_missing_polls : ℕ
max_missing_polls = 8

-- Whether a poll dismisses the page, and how often in a row the row was missing.
unfoldable pub polled : Round → ℕ → Bool × ℕ
polled poll_gone missing = (true, missing)
polled poll_row_missing missing = (leb max_missing_polls (suc missing), suc missing)
polled _ missing = (false, 0)

abbrev dismiss_if : Bool → Page → Page
dismiss_if b p = if b then (transition page_dismissed [] p).1 else p

-- `wait`: its result, and the page; `none` where these rounds leave it waiting.
unfoldable pub wait : List Round → ℕ → Page → Option (Bool × Page)
wait [] missing p = none
wait (is_done ∷ rounds) missing p = some (true, p)
wait (context_ended ∷ rounds) missing p = some (false, p)
wait (r ∷ rounds) missing p =
    let (dismisses, missing') = polled r missing in wait rounds missing' (dismiss_if dismisses p)
