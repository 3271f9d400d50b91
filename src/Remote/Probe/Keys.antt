-- ===== src/Remote/Probe/Keys.antt =====
-- internal/remote/probe.go: the keys of an accepted probe.
-- Every line has a key, and no key stands in two lines or among those seen before.
use agterm_remote.Prelude.{
  List, [], arith, false, if_cases, if◌then◌else◌, inl, inr, is_nil, not, suc, true, ℕ, ◌||◌, ◌∷◌,
  ◌≡◌,
}
use agterm_remote.Remote.Probe.{
  ProbeResult, bad_line, duplicate_key, keyed, parse_line, parse_probe_lines, set_key,
}
use agterm_remote.Result.{>>=-eq-ok, err, ok}
use agterm_remote.Text.{Bytes, contains, cut}

abbrev pub HasKeys : List Bytes → List Bytes → Type 0
HasKeys [] seen = Unit
HasKeys (l ∷ lines) seen =
    ((cut b'\t' l).found ≡ true)
    × (is_nil (cut b'\t' l).before ≡ false)
    × (contains seen (cut b'\t' l).before ≡ false)
    × HasKeys lines ((cut b'\t' l).before ∷ seen)

parse_line-ok :
    (n : ℕ) (l : Bytes) (seen : List Bytes) (r : ProbeResult) {out : ProbeResult}
    → parse_line n l seen r ≡ ok out
    → ((cut b'\t' l).found ≡ true)
      × (is_nil (cut b'\t' l).before ≡ false)
      × (contains seen (cut b'\t' l).before ≡ false)
unfolding parse_line
parse_line-ok n l seen r {out} h =
    let parts = cut b'\t' l in
    let set = keyed parts.before (set_key parts.before parts.after r) in
    let checked = if contains seen parts.before then err (duplicate_key n parts.before) else set in
    elim (if_cases (λ x. x ≡ ok out) (not parts.found || is_nil parts.before) (err (bad_line n))
      checked h) [
        | inl (_, e) ↦ cc
        | inr (t, e) ↦
            elim (if_cases (λ x. x ≡ ok out) (contains seen parts.before)
              (err (duplicate_key n parts.before)) set e) [
                | inl (_, w) ↦ cc
                | inr (u, w) ↦ (ground (arith, t), ground (arith, t), u)
              ]
      ]

-- In a probe that is accepted every line has a key in front of a tab, and no key is given twice.
pub parse_probe_lines-HasKeys :
    (lines : List Bytes) (n : ℕ) (seen : List Bytes) (r : ProbeResult) {out : ProbeResult}
    → parse_probe_lines lines n seen r ≡ ok out
    → HasKeys lines seen
unfolding parse_probe_lines
parse_probe_lines-HasKeys [] n seen r h = tt
parse_probe_lines-HasKeys (l ∷ lines) n seen r h =
    let (r', e, rest) = >>=-eq-ok (parse_line n l seen r) _ h in
    let (a, b, c) = parse_line-ok n l seen r e in
    (a, b, c, parse_probe_lines-HasKeys lines (suc n) ((cut b'\t' l).before ∷ seen) r' rest)
