-- ===== src/Daemon/Pages/Acted.antt =====
-- internal/daemon/pageshim.go: which requests change a page.
-- A post to the page's own address, from its own origin or none, on an open page that agterm lists;
-- the page is submitted with the value of the body, or dismissed.
use agterm_remote.Daemon.Pages.Finished.{Ends, finish-Ends, open-is_open}
use agterm_remote.Daemon.Pages.{
  Page, PageState, Shim, has_token, is_open, lookup, page_dismissed, page_open, page_submitted,
}
use agterm_remote.Daemon.Pages.Http.{
  Begun, Body, HttpRequest, Method, PageAction, act, answers, at_address, bad_body, body_too_large,
  body_value, by_action, by_method, close_page, get, max_page_body, no_value, post, serve_http,
  serve_page, serve_post, show, split_page_path, submit, submitted, waits, with_page, with_path,
}
use agterm_remote.Prelude.{
  Option, [], false, find-holds, if_rule, inl, inr, is_nil, ltb, none, not, refl, some, subst, sym,
  true, ◌&&◌, ◌++◌, ◌≡◌, ◌≢◌, ◌⊎◌,
}
use agterm_remote.Text.{Bytes, bytes_eq, bytes_eq_iff, codes}

-- What the first part of a request shows where it goes on to wait for the id of a page.
pub record Admitted (q : HttpRequest) (s : Shim) (p : Page) (state : PageState) (value : Bytes)
    : Type 0 where
  pub action : PageAction
  pub addr : Bytes
  pub own_address : (s.addr ≡ some addr) × (bytes_eq q.host_header addr ≡ true)
  pub own_path : split_page_path q.path ≡ some (p.token, action)
  pub found : lookup p.token s.pages ≡ some p
  pub is_post : q.method ≡ post
  pub own_origin :
      (not (is_nil q.origin) && not (bytes_eq q.origin (codes "http://" ++ addr))) ≡ false
  pub was_open : p.state ≡ page_open
  pub asked :
      (action ≡ submit) × (state ≡ page_submitted) × (q.body ≡ body_value value)
      ⊎ (action ≡ close_page) × (state ≡ page_dismissed) × (value ≡ [])

-- What the first part shows.
abbrev Shows : HttpRequest → Shim → Begun → Type 0
Shows q s (answers status) = Unit
Shows q s (waits p state value) = Admitted q s p state value

module _ (q : HttpRequest) (addr : Bytes) (s : Shim) (p : Page)
    (own : (s.addr ≡ some addr) × (bytes_eq q.host_header addr ≡ true))
    (found : lookup p.token s.pages ≡ some p) where
  act-Shows :
      (a : PageAction) (state : PageState) (value : Bytes)
      → split_page_path q.path ≡ some (p.token, a)
      → q.method ≡ post
      → (not (is_nil q.origin) && not (bytes_eq q.origin (codes "http://" ++ addr))) ≡ false
      → ((a ≡ submit) × (state ≡ page_submitted) × (q.body ≡ body_value value)
          ⊎ (a ≡ close_page) × (state ≡ page_dismissed) × (value ≡ []))
      → Shows q s (act p state value)
  unfolding act
  act-Shows a state value path m o asked =
      if_rule (Shows q s) (is_open p.state) (waits p state value) (answers 409)
        (λ e. record {
          action = a;
          addr = addr;
          own_address = own;
          own_path = path;
          found = found;
          is_post = m;
          own_origin = o;
          was_open = open-is_open p.state e;
          asked = asked;
        })
        (λ _. tt)

  submitted-Shows :
      (b : Body)
      → q.body ≡ b
      → split_page_path q.path ≡ some (p.token, submit)
      → q.method ≡ post
      → (not (is_nil q.origin) && not (bytes_eq q.origin (codes "http://" ++ addr))) ≡ false
      → Shows q s (submitted p b)
  submitted-Shows body_too_large e path m o = tt
  submitted-Shows bad_body e path m o = tt
  submitted-Shows no_value e path m o = tt
  submitted-Shows (body_value v) e path m o =
      act-Shows submit page_submitted v path m o (inl (refl, refl, e))

  by_action-Shows :
      (a : PageAction)
      → a ≢ show
      → split_page_path q.path ≡ some (p.token, a)
      → q.method ≡ post
      → (not (is_nil q.origin) && not (bytes_eq q.origin (codes "http://" ++ addr))) ≡ false
      → Shows q s (by_action q p a)
  by_action-Shows show n path m o = absurd (n refl)
  by_action-Shows submit n path m o = submitted-Shows q.body refl path m o
  by_action-Shows close_page n path m o =
      act-Shows close_page page_dismissed [] path m o (inr (refl, refl, refl))

  serve_post-Shows :
      (a : PageAction)
      → a ≢ show
      → split_page_path q.path ≡ some (p.token, a)
      → q.method ≡ post
      → Shows q s (serve_post q addr p a)
  unfolding serve_post
  serve_post-Shows a n path m =
      if_rule (Shows q s)
        (not (is_nil q.origin) && not (bytes_eq q.origin (codes "http://" ++ addr))) _ _ (λ _. tt)
        (λ o.
          if_rule (Shows q s) (ltb max_page_body q.content_length) _ _ (λ _. tt)
            (λ _. by_action-Shows a n path m o))

  by_method-Shows :
      (a : PageAction) (m : Method)
      → q.method ≡ m
      → split_page_path q.path ≡ some (p.token, a)
      → Shows q s (by_method q addr p a m)
  unfolding serve_page
  by_method-Shows show get e path = tt
  by_method-Shows submit post e path = serve_post-Shows submit (λ x. cc) path e
  by_method-Shows close_page post e path = serve_post-Shows close_page (λ x. cc) path e
  by_method-Shows _ _ e path = tt

with_page-Shows :
    (q : HttpRequest) (addr : Bytes) (s : Shim) (token : Bytes) (a : PageAction) (o : Option Page)
    → (s.addr ≡ some addr) × (bytes_eq q.host_header addr ≡ true)
    → lookup token s.pages ≡ o
    → split_page_path q.path ≡ some (token, a)
    → Shows q s (with_page q addr s token a o)
unfolding lookup
with_page-Shows q addr s token a none own f path = tt
with_page-Shows q addr s token a (some p) own f path =
    let same : p.token ≡ token =
      (bytes_eq_iff p.token token).0 (find-holds (has_token token) s.pages f) in
    by_method-Shows q addr s p own (subst (λ t. lookup t s.pages ≡ some p) (sym same) f) a q.method
      refl (subst (λ t. split_page_path q.path ≡ some (t, a)) (sym same) path)

with_path-Shows :
    (q : HttpRequest) (addr : Bytes) (s : Shim) (o : Option (Bytes × PageAction))
    → (s.addr ≡ some addr) × (bytes_eq q.host_header addr ≡ true)
    → split_page_path q.path ≡ o
    → Shows q s (with_path q addr s o)
with_path-Shows q addr s none own path = tt
with_path-Shows q addr s (some (token, a)) own path =
    with_page-Shows q addr s token a (lookup token s.pages) own refl path

at_address-Shows :
    (q : HttpRequest) (s : Shim) (o : Option Bytes) → s.addr ≡ o → Shows q s (at_address q s o)
at_address-Shows q s none e = tt
at_address-Shows q s (some addr) e =
    if_rule (Shows q s) (bytes_eq q.host_header addr) _ _
      (λ h. with_path-Shows q addr s (split_page_path q.path) (e, h) refl) (λ _. tt)

serve_http-Shows : (q : HttpRequest) (s : Shim) → Shows q s (serve_http q s)
unfolding serve_http
serve_http-Shows q s =
    if_rule (Shows q s) q.handler_free _ _ (λ _. at_address-Shows q s s.addr refl) (λ _. tt)

-- A request that is not answered at once is a post under the shim's own address, from its own origin or
-- none, for a page that was open when it came, to be submitted with the value of the body or to be
-- dismissed. Behind the wait for the page's id, and in whatever shim and page there are by then: where
-- the wait ended in time by an id, agterm lists that id as live in the page's row, and the page is still
-- open, the request is answered with 200 and only that page changes, as asked; else it is answered with
-- 409 and nothing changes.
pub serve_http-IsActed :
    (q : HttpRequest) (s : Shim) {p : Page} {state : PageState} {value : Bytes}
    → serve_http q s ≡ waits p state value
    → Admitted q s p state value × ((t : Shim) (r : Page) → Ends q t r state value)
serve_http-IsActed q s {p} {state} {value} e =
    (subst (Shows q s) e (serve_http-Shows q s), λ t r. finish-Ends q t r state value)
