-- ===== src/Daemon/Pages/Count.antt =====
-- internal/daemon/pageshim.go: how the count of a host follows the map of pages.

use agterm_remote.Daemon.Pages.{
  Page, Shim, forget_oldest, has_token, lookup, max_pages_per_host, max_spent_tokens, remember,
  remove_page, set_count,
}
use agterm_remote.Daemon.Pages.Http.{set_page}
use agterm_remote.Prelude.{
  Bool, Bool-cases, List, [], ap, arith, false, if_rule, if◌then◌else◌, inl, inr, length,
  length-append, ltb, none, refl, some, suc, sym, true, ℕ, ◌++◌, ◌+◌, ◌-◌, ◌<◌, ◌∙◌, ◌∷◌, ◌≡◌, ◌≤◌,
}
use agterm_remote.Text.{Bytes, bytes_eq, bytes_eq_iff}
use mathlib.Core.Option.{some-injective}

abbrev one_if : Bool → ℕ
one_if b = if b then 1 else 0

-- The pages of a host.
unfoldable pub count : Bytes → List Page → ℕ
count h [] = 0
count h (p ∷ pages) = one_if (bytes_eq p.host h) + count h pages

pub remove_absent :
    (token : Bytes) (pages : List Page)
    → lookup token pages ≡ none
    → remove_page token pages ≡ pages
unfolding lookup remove_page
remove_absent token [] e = refl
remove_absent token (p ∷ pages) e = elim (Bool-cases (has_token token p)) [
  | inl t ↦ absurd (ground (arith, e, t))
  | inr t ↦ rw t (ap (λ l. p ∷ l) (remove_absent token pages (rw t at e)))
]

pub count-remove_page :
    (h token : Bytes) (pages : List Page) {q : Page}
    → lookup token pages ≡ some q
    → count h pages ≡ one_if (bytes_eq q.host h) + count h (remove_page token pages)
unfolding lookup remove_page count
count-remove_page h token [] e = cc
count-remove_page h token (p ∷ pages) {q} e = elim (Bool-cases (has_token token p)) [
  | inl t ↦
      let same : p ≡ q = some-injective p q (rw t at e) in
      rw t (ap (λ (x : Page). one_if (bytes_eq x.host h) + count h pages) same)
  | inr t ↦ let rest = count-remove_page h token pages (rw t at e) in rw t (omega (arith, rest))
]

pub count-set_page :
    (h : Bytes) (r : Page) (pages : List Page) {q : Page}
    → lookup r.token pages ≡ some q
    → r.host ≡ q.host
    → count h (set_page r pages) ≡ count h pages
unfolding lookup set_page count
count-set_page h r [] e k = cc
count-set_page h r (p ∷ pages) {q} e k = elim (Bool-cases (has_token r.token p)) [
  | inl t ↦
      let same : p ≡ q = some-injective p q (rw t at e) in
      let host : r.host ≡ p.host = k ∙ ap (λ (x : Page). x.host) (sym same) in
      rw t (ap (λ x. one_if (bytes_eq x h) + count h pages) host)
  | inr t ↦ let rest = count-set_page h r pages (rw t at e) k in rw t (omega (arith, rest))
]

trimmed :
    (released ts : List Bytes) (s : Shim)
    → length ts ≤ suc max_spent_tokens
    → length (forget_oldest released ts s).spent_list ≤ max_spent_tokens
trimmed released [] s h = omega arith
trimmed released (t ∷ ts) s h =
    if_rule (λ (x : Shim). length x.spent_list ≤ max_spent_tokens)
      (ltb max_spent_tokens (length (t ∷ ts))) _ _ (λ _. omega (arith, h)) (λ e. ground (arith, e))

pub length-remember :
    (token : Bytes) (s : Shim)
    → length s.spent_list ≤ max_spent_tokens
    → length (remember token s).spent_list ≤ max_spent_tokens
unfolding remember
length-remember token s h =
    trimmed (token ∷ s.released) (s.spent_list ++ token ∷ []) s
      (omega (arith, length-append s.spent_list (token ∷ []), h))

-- The counts of a host's pages without one page of `p.host`.
pub counted_without :
    (s : Shim) (p q : Page) (h : Bytes)
    → q.host ≡ p.host
    → s.per_host h ≡ count h s.pages
    → count h s.pages ≡ one_if (bytes_eq q.host h) + count h (remove_page p.token s.pages)
    → set_count p.host (s.per_host p.host - 1) s.per_host h ≡ count h (remove_page p.token s.pages)
unfolding set_count
counted_without s p q h own ch removed = elim (Bool-cases (bytes_eq p.host h)) [
  | inl e ↦
      let all_of : s.per_host p.host ≡ count h s.pages =
        ap s.per_host ((bytes_eq_iff p.host h).0 e) ∙ ch in
      let own_eq : bytes_eq q.host h ≡ true = ap (λ x. bytes_eq x h) own ∙ e in
      let one_less : count h s.pages ≡ 1 + count h (remove_page p.token s.pages) =
        rw own_eq at removed in
      rw e (omega (arith, all_of, one_less))
  | inr e ↦
      let own_eq : bytes_eq q.host h ≡ false = ap (λ x. bytes_eq x h) own ∙ e in
      let as_many : count h s.pages ≡ 0 + count h (remove_page p.token s.pages) =
        rw own_eq at removed in
      rw e (omega (arith, ch, as_many))
]

-- The counts with a page whose token is new.
pub counted_with :
    (s : Shim) (p : Page) (h : Bytes)
    → s.per_host h ≡ count h s.pages
    → remove_page p.token s.pages ≡ s.pages
    → set_count p.host (suc (s.per_host p.host)) s.per_host h
      ≡ count h (p ∷ remove_page p.token s.pages)
unfolding set_count count
counted_with s p h ch absent = elim (Bool-cases (bytes_eq p.host h)) [
  | inl e ↦
      let all_of : s.per_host p.host ≡ count h s.pages =
        ap s.per_host ((bytes_eq_iff p.host h).0 e) ∙ ch in
      rw (e, absent) (omega (arith, all_of))
  | inr e ↦ rw (e, absent) (omega (arith, ch))
]

pub capped_with :
    (s : Shim) (p : Page) (h : Bytes)
    → count h s.pages ≤ max_pages_per_host
    → count h (remove_page p.token s.pages) ≡ count h s.pages
    → s.per_host p.host ≡ count p.host s.pages
    → s.per_host p.host < max_pages_per_host
    → count h (p ∷ remove_page p.token s.pages) ≤ max_pages_per_host
unfolding count
capped_with s p h ch absent cp cap = elim (Bool-cases (bytes_eq p.host h)) [
  | inl e ↦
      let all_of : count p.host s.pages ≡ count h s.pages =
        ap (λ x. count x s.pages) ((bytes_eq_iff p.host h).0 e) in
      rw e (omega (arith, absent, cp, cap, all_of))
  | inr e ↦ rw e (omega (arith, absent, ch))
]
