-- ===== src/Daemon/Pages/Counted.antt =====
-- internal/daemon/pageshim.go: the counts of pages, over any order of the operations of the shim.
use mathlib.Core.Bool.{false≢true}
use agterm_remote.Daemon.Pages.Spent.{remember-Listed}
use agterm_remote.Daemon.Pages.{
  PageState, has_token, spent, Page, Shim, close, drop_page, has_token, listening, lookup,
  max_pages_per_host, max_spent_tokens, new_page, new_shim, page_limit, register, registered,
  release, remove_page, set_count,
}
use agterm_remote.Daemon.Pages.Finished.{after_act, finish-Ends}
use agterm_remote.Daemon.Pages.Count.{
  capped_with, count, count-remove_page, count-set_page, counted_with, counted_without,
  length-remember, remove_absent,
}
use agterm_remote.Daemon.Pages.Http.{HttpRequest, Served, finish, set_page}
use agterm_remote.Prelude.{
  find, ◌⊎◌, true, All, All-member, List, Option, [], ap, arith, find-Member, find-holds, if_cases,
  if_rule, inl, inr, leb, length, none, refl, some, subst, sym, ◌<◌, ◌∙◌, ◌∷◌, ◌≡◌, ◌≤◌,
}
use agterm_remote.Result.{err, ok, ok-injective}
use agterm_remote.Text.{contains, Bytes, bytes_eq_iff}

-- Whose each token is: a token is drawn at random, and not twice.
module _ (owner : Bytes → Bytes) where
  abbrev pub IsOwned : Page → Type 0
  IsOwned p = p.host ≡ owner p.token

  -- A step: an operation of the shim, the second part of a request, whose page may have been released, or
  -- a page that changes under its token and host. Releasing a
  -- host releases its pages one by one.
  pub data Step (s : Shim) : Shim → Type 0 where
    registers :
        (token : Bytes) (listens : Option Bytes) (host row side file dir : Bytes) (p : Page)
        (t : Shim)
        → lookup token s.pages ≡ none
        → host ≡ owner token
        → register (some token) listens host row side file dir s ≡ ok (p, t)
        → Step s t
    releases : (p : Page) → IsOwned p → Step s (release p s)
    updates :
        (p r : Page)
        → lookup r.token s.pages ≡ some p
        → r.host ≡ p.host
        → Step s (record s { pages = set_page r s.pages })
    finishes :
        (q : HttpRequest) (r : Page) (state : PageState) (value : Bytes)
        → (lookup r.token s.pages ≡ some r) ⊎ (lookup r.token s.pages ≡ none)
        → Step s (finish q s r state value).1
    closes : Step s (close s)

  pub data Reach : Shim → Type 0 where
    begins : Reach new_shim
    steps : {s t : Shim} → Reach s → Step s t → Reach t

  pub record IsCounted (s : Shim) : Type 0 where
    pub counted : (h : Bytes) → s.per_host h ≡ count h s.pages
    pub capped : (h : Bytes) → count h s.pages ≤ max_pages_per_host
    pub owned : All IsOwned s.pages
    pub remembers : length s.spent_list ≤ max_spent_tokens
    pub known : (token : Bytes) → spent token s ≡ true → contains s.spent_list token ≡ true

  All-remove_page :
      (token : Bytes) (pages : List Page)
      → All IsOwned pages
      → All IsOwned (remove_page token pages)
  unfolding remove_page
  All-remove_page token [] k = tt
  All-remove_page token (p ∷ pages) (a, k) =
      if_rule (All IsOwned) (has_token token p) _ _ (λ _. k)
        (λ _. (a, All-remove_page token pages k))

  All-set_page :
      (r : Page) (pages : List Page)
      → IsOwned r
      → All IsOwned pages
      → All IsOwned (set_page r pages)
  unfolding set_page
  All-set_page r [] o k = tt
  All-set_page r (p ∷ pages) o (a, k) =
      if_rule (All IsOwned) (has_token r.token p) _ _ (λ _. (o, k))
        (λ _. (a, All-set_page r pages o k))

  found-IsOwned :
      (s : Shim) (token : Bytes) {q : Page}
      → All IsOwned s.pages
      → lookup token s.pages ≡ some q
      → q.host ≡ owner token
  unfolding lookup
  found-IsOwned s token {q} k e =
      All-member IsOwned s.pages k (find-Member (has_token token) s.pages e)
      ∙ ap owner ((bytes_eq_iff q.token token).0 (find-holds (has_token token) s.pages e))

  updated-IsCounted :
      (s : Shim) (p r : Page)
      → IsCounted s
      → lookup r.token s.pages ≡ some p
      → r.host ≡ p.host
      → IsCounted (record s { pages = set_page r s.pages })
  updated-IsCounted s p r c e k = record {
    counted = λ h. c.counted h ∙ sym (count-set_page h r s.pages e k);
    capped = λ h. omega (arith, c.capped h, count-set_page h r s.pages e k);
    owned = All-set_page r s.pages (k ∙ found-IsOwned s r.token c.owned e) c.owned;
    remembers = c.remembers;
    known = c.known;
  }

  released-IsCounted :
      (s : Shim) (p : Page) (o : Option Page)
      → IsCounted s
      → IsOwned p
      → lookup p.token s.pages ≡ o
      → IsCounted (drop_page p s o)
  unfolding set_count
  released-IsCounted s p none c k e = c
  released-IsCounted s p (some q) c k e =
      let own : q.host ≡ p.host = found-IsOwned s p.token c.owned e ∙ sym k in
      record {
        counted =
            λ h. counted_without s p q h own (c.counted h) (count-remove_page h p.token s.pages e);
        capped = λ h. omega (arith, c.capped h, count-remove_page h p.token s.pages e);
        owned = All-remove_page p.token s.pages c.owned;
        remembers = length-remember p.token s c.remembers;
        known = remember-Listed p.token s (c.known);
      }

  set_absent :
      (r : Page) (pages : List Page) → lookup r.token pages ≡ none → set_page r pages ≡ pages
  unfolding lookup set_page
  set_absent r [] e = refl
  set_absent r (p ∷ pages) e =
      elim (if_cases (λ x. x ≡ none) (has_token r.token p) (some p) (find (has_token r.token) pages)
        e) [ inl (_, q) ↦ cc | inr (n, q) ↦ rw (n, set_absent r pages q) refl ]

  acted-IsCounted :
      (s : Shim) (r : Page) (state : PageState) (value : Bytes)
      → IsCounted s
      → (lookup r.token s.pages ≡ some r) ⊎ (lookup r.token s.pages ≡ none)
      → IsCounted (after_act s r state value).1
  acted-IsCounted s r state value c (inl e) =
      updated-IsCounted s r (record r { state = state; value = value }) c e refl
  acted-IsCounted s r state value c (inr e) =
      subst (λ pages. IsCounted (record s { pages = pages }))
        (sym (set_absent (record r { state = state; value = value }) s.pages e)) c

  finished-IsCounted :
      (s : Shim) (q : HttpRequest) (r : Page) (state : PageState) (value : Bytes)
      → IsCounted s
      → (lookup r.token s.pages ≡ some r) ⊎ (lookup r.token s.pages ≡ none)
      → IsCounted (finish q s r state value).1
  finished-IsCounted s q r state value c e = elim (finish-Ends q s r state value) [
    | inl (_, d) ↦
        subst (λ (x : Served). IsCounted x.1) (sym d) (acted-IsCounted s r state value c e)
    | inr (_, d) ↦ subst (λ (x : Served). IsCounted x.1) (sym d) c
  ]

  registered-IsCounted :
      (s : Shim) (p : Page) (o : Option Bytes) {r : Page × Shim}
      → IsCounted s
      → lookup p.token s.pages ≡ none
      → IsOwned p
      → s.per_host p.host < max_pages_per_host
      → registered p s o ≡ ok r
      → IsCounted r.1
  registered-IsCounted s p none c e own cap h = cc
  registered-IsCounted s p (some addr) {r} c e own cap h =
      subst (λ (x : Page × Shim). IsCounted x.1) (ok-injective h)
        (record {
          counted = λ x. counted_with s p x (c.counted x) (remove_absent p.token s.pages e);
          capped = λ x.
              capped_with s p x (c.capped x) (ap (count x) (remove_absent p.token s.pages e))
                (c.counted p.host) cap;
          owned = (own, All-remove_page p.token s.pages c.owned);
          remembers = c.remembers;
          known = c.known;
        })

  register-IsCounted :
      (s : Shim) (token : Bytes) (listens : Option Bytes) (host row side file dir : Bytes)
      {p : Page} {t : Shim}
      → IsCounted s
      → lookup token s.pages ≡ none
      → host ≡ owner token
      → register (some token) listens host row side file dir s ≡ ok (p, t)
      → IsCounted t
  unfolding register
  register-IsCounted s token listens host row side file dir {p} {t} c e own h =
      let fresh = new_page token host row side file dir in
      elim (if_cases (λ x. x ≡ ok (p, t)) (leb max_pages_per_host (s.per_host host))
        (err page_limit) (registered fresh s (listening s.addr listens)) h) [
          | inl (_, w) ↦ cc
          | inr (l, w) ↦
              registered-IsCounted s fresh (listening s.addr listens) c e own (ground (arith, l)) w
        ]

  Step-IsCounted : {s t : Shim} → IsCounted s → Step s t → IsCounted t
  Step-IsCounted {s} c (registers token listens host row side file dir p t e o r) =
      register-IsCounted s token listens host row side file dir c e o r
  Step-IsCounted {s} c (releases p k) =
      unfold release in released-IsCounted s p (lookup p.token s.pages) c k refl
  Step-IsCounted {s} c (updates p r e k) = updated-IsCounted s p r c e k
  Step-IsCounted {s} c (finishes q r state value e) = finished-IsCounted s q r state value c e
  Step-IsCounted {s} c closes =
      unfold close count in
      record {
        counted = λ h. refl;
        capped = λ h. omega arith;
        owned = tt;
        remembers = c.remembers;
        known = c.known;
      }

  -- Over any order of registrations, releases, updates, requests and closings of the shim, where a
  -- token that is drawn is in no open page and is never drawn for two hosts: the count of each host is
  -- the number of its pages in the map, at most 8; and every released token that the shim still knows
  -- is in its list of spent tokens, which holds at most 1024.
  pub Reach-IsCounted : {s : Shim} → Reach s → IsCounted s
  unfolding count
  Reach-IsCounted begins = record {
    counted = λ h. refl;
    capped = λ h. omega arith;
    owned = tt;
    remembers = omega arith;
    known = λ token h. absurd (false≢true (h));
  }
  Reach-IsCounted (steps r x) = Step-IsCounted (Reach-IsCounted r) x
