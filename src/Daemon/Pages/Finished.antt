-- ===== src/Daemon/Pages/Finished.antt =====
-- internal/daemon/pageshim.go: how a post ends behind the wait for the id of its page.
use agterm_remote.Daemon.Pages.{
  Page, PageState, Shim, is_open, page_dismissed, page_open, page_submitted, transition,
}
use agterm_remote.Daemon.Pages.Http.{
  HttpRequest, Served, acted, current, finish, says_live, set_page,
}
use agterm_remote.Prelude.{
  arith, ◌∷◌, Bool, Option, [], false, if_rule, inl, inr, is_nil, none, not, refl, some, subst, sym,
  true, ◌∙◌, ◌≡◌, ◌≢◌, ◌⊎◌,
}
use agterm_remote.Text.{Bytes}
use mathlib.Core.Bool.{false≢true}

-- When the page may change behind the wait: the wait ended by an id, which agterm lists as live in
-- the page's row, and the page is still open.
pub record CanAct (q : HttpRequest) (p : Page) : Type 0 where
  pub in_time : q.bound_in_time ≡ true
  pub bound : p.page_id ≢ []
  pub listed : q.live p.row p.page_id ≡ some true
  pub still_open : p.state ≡ page_open

abbrev pub after_act : Shim → Page → PageState → Bytes → Served
after_act s p state value =
    (200, record s { pages = set_page (record p { state = state; value = value }) s.pages })

-- How the second part ends.
abbrev pub Ends : HttpRequest → Shim → Page → PageState → Bytes → Type 0
Ends q s p state value =
    CanAct q p × (finish q s p state value ≡ after_act s p state value)
    ⊎ (CanAct q p → ⊥) × (finish q s p state value ≡ (409, s))

pub open-is_open : (state : PageState) → is_open state ≡ true → state ≡ page_open
unfolding is_open
open-is_open page_open e = refl
open-is_open page_submitted e = cc
open-is_open page_dismissed e = cc

bound-is_nil : (id : Bytes) → not (is_nil id) ≡ true → id ≢ []
bound-is_nil id e n = absurd (false≢true (subst (λ x. not (is_nil x) ≡ true) n e))

is_nil-bound : (id : Bytes) → id ≢ [] → not (is_nil id) ≡ true
is_nil-bound [] n = absurd (n refl)
is_nil-bound (c ∷ id) n = refl

listed-says_live : (o : Option Bool) → says_live o ≡ true → o ≡ some true
listed-says_live none e = cc
listed-says_live (some true) e = refl
listed-says_live (some false) e = cc

current-CanAct : (q : HttpRequest) (p : Page) → CanAct q p → current q p ≡ true
unfolding current
current-CanAct q p c =
    let id : not (is_nil p.page_id) ≡ true = is_nil-bound p.page_id c.bound in
    let live : says_live (q.live p.row p.page_id) ≡ true = rw c.listed refl in
    ground (arith, c.in_time, id, live)

CanAct-current :
    (q : HttpRequest) (p : Page) → current q p ≡ true → is_open p.state ≡ true → CanAct q p
unfolding current
CanAct-current q p e o = record {
  in_time = ground (arith, e);
  bound = bound-is_nil p.page_id (ground (arith, e));
  listed = listed-says_live (q.live p.row p.page_id) (ground (arith, e));
  still_open = open-is_open p.state o;
}

opened : {q : HttpRequest} (p : Page) → CanAct q p → is_open p.state ≡ true
unfolding is_open
opened p k = rw k.still_open refl

pub finish-Ends :
    (q : HttpRequest) (s : Shim) (p : Page) (state : PageState) (value : Bytes)
    → Ends q s p state value
unfolding finish transition
finish-Ends q s p state value =
    let Ending : Served → Type 0 = λ (o : Served).
      CanAct q p × (o ≡ after_act s p state value) ⊎ (CanAct q p → ⊥) × (o ≡ (409, s)) in
    if_rule Ending (current q p) _ _
      (λ c.
        if_rule (λ (t : Bool × Page). Ending (acted s t)) (is_open p.state)
          (true, record p { state = state; value = value }) (false, p)
          (λ o. inl (CanAct-current q p c o, refl))
          (λ o. inr (λ k. false≢true (sym o ∙ opened p k), refl)))
      (λ n. inr (λ k. false≢true (sym n ∙ current-CanAct q p k), refl))
