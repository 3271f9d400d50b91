-- ===== src/Proxy/Wire/Limits.antt =====
-- internal/proxy/wire.go: the header that `DecodeHeader` returns.
use agterm_remote.Int.{negsuc, pos, ℤ}
use agterm_remote.Prelude.{
  Bool-cases, List, Option, Option-cases, [], ap, arith, false, inl, inr, is_none, leb, length, ltb,
  map, none, refl, some, subst, true, ℕ, ◌+◌, ◌∷◌, ◌≡◌, ◌≤◌,
}
use agterm_remote.Proxy.Wire.{
  Header, WireHeader, check_files, check_header, decode_header, max_files, max_files_total,
  max_stdin, within_limit,
}
use agterm_remote.Result.{ok}
use agterm_remote.Text.{Bytes}
use agterm_remote.Token.{valid}
use mathlib.Core.Option.{some-injective}
use mathlib.Core.Path.{ap₂}

abbrev pub sum_of : List ℕ → ℕ
sum_of [] = 0
sum_of (n ∷ ns) = n + sum_of ns

-- File sizes that are lengths, and their sum.
abbrev pub Sized : ℕ → List ℤ → Type 0
Sized before files = (ns : List ℕ) × (files ≡ map pos ns) × (before + sum_of ns ≤ max_files_total)

pub record IsBounded (h : Header) : Type 0 where
  pub session_valid : valid h.session ≡ true
  pub few_files : length h.files ≤ max_files
  pub files_total : Sized 0 h.files
  pub stdin_total : (n : ℕ) × (h.stdin ≡ pos n) × (n ≤ max_stdin)

within_limit-some :
    (limit : ℕ) (size : ℤ) {n : ℕ} → within_limit limit size ≡ some n → (size ≡ pos n) × (n ≤ limit)
unfolding within_limit
within_limit-some limit (pos m) h = elim (Bool-cases (leb m limit)) [
  | inl e ↦
      let s = some-injective m _ (rw e at h) in
      (ap pos s, subst (λ x. x ≤ limit) s (ground (arith, e)))
  | inr e ↦ cc (rw e at h)
]
within_limit-some limit (negsuc m) h = cc

check_files-Sized :
    (before : ℕ) (files : List ℤ)
    → before ≤ max_files_total
    → check_files before files ≡ none
    → Sized before files
unfolding check_files
check_files-Sized before [] b h = ([], refl, ground arith)
check_files-Sized before (size ∷ files) b h =
    elim (Option-cases (within_limit max_files_total size)) [
      | inl e ↦ cc (rw (check_files, e) at h)
      | inr (n, e) ↦
          let h₁ = rw (check_files, e) at h in
          elim (Bool-cases (ltb max_files_total (before + n))) [
            | inl f ↦ cc (rw f at h₁)
            | inr f ↦
                let (ns, g, t) =
                  check_files-Sized (before + n) files (ground (arith, f)) (rw f at h₁) in
                (n ∷ ns, ap₂ ◌∷◌ (within_limit-some max_files_total size e).0 g, ground arith)
          ]
    ]

-- What the tests of `DecodeHeader` leave.
pub record Passed (w : WireHeader) (h : Header) : Type 0 where
  pub header : w.header ≡ h
  pub session : valid w.header.session ≡ true
  pub few : ltb max_files (length w.header.files) ≡ false
  pub files : check_files 0 w.header.files ≡ none
  pub stdin : is_none (within_limit max_stdin w.header.stdin) ≡ false

check_header-Passed : (w : WireHeader) {h : Header} → check_header w ≡ ok h → Passed w h
unfolding check_header
check_header-Passed w h = record {
  header = ground (arith, h);
  session = ground (arith, h);
  few = ground (arith, h);
  files = ground (arith, h);
  stdin = ground (arith, h);
}

given-Bounded : (w : WireHeader) {h : Header} → Passed w h → IsBounded w.header
given-Bounded w p = record {
  session_valid = p.session;
  few_files = ground (arith, p);
  files_total = check_files-Sized 0 w.header.files (ground arith) p.files;
  stdin_total = elim (Option-cases (within_limit max_stdin w.header.stdin)) [
    | inl e ↦ cc (p.stdin, e)
    | inr (n, e) ↦ let (s, l) = within_limit-some max_stdin w.header.stdin e in (n, s, l)
  ];
}

-- A header that is decoded has a valid session name, at most eight files whose sizes are lengths of
-- together at most 8 MiB, and a standard input of at most 1 MiB, whatever JSON gave.
pub decode_header-IsBounded :
    (unmarshal : Bytes → Option WireHeader) (line : Bytes) {h : Header}
    → decode_header unmarshal line ≡ ok h
    → IsBounded h
unfolding decode_header
decode_header-IsBounded unmarshal line {h} e = elim (Option-cases (unmarshal line)) [
  | inl n ↦ cc (rw (decode_header, n) at e)
  | inr (w, s) ↦
      let p = check_header-Passed w (rw (decode_header, s) at e) in
      subst IsBounded p.header (given-Bounded w p)
]
