-- ===== src/Proxy/Argv/Rendered.antt =====
-- internal/proxy/argv.go: the rounds of `parseArgs` that read an option in its rendered form.
use agterm_remote.Prelude.{
  Bool, Bool-cases, List, [], all, all-append, arith, false, find, if_rule, inl, inr, is_nil, not,
  not-false, not-true, refl, some, subst, true, ℕ, ◌&&◌, ◌++◌, ◌+◌, ◌||◌, ◌∙◌, ◌∷◌, ◌≡◌,
}
use agterm_remote.Proxy.Argv.{
  Loop, ParsedOpt, accept, add_opt, long_option, one, parse_loop, round, stop, with_spec,
}
use agterm_remote.Proxy.Argv.Invariant.{IsAccepted}
use agterm_remote.Proxy.Call.{Opt, opt_arg, plain_opt, valued}
use agterm_remote.Proxy.Schema.{LeafSpec, OptSpec, option, universal_opts}
use agterm_remote.Result.{ok}
use agterm_remote.Text.{
  Bytes, Cut, bytes_eq, bytes_eq_refl, codes, contains, cut, cut-append, cut_self, has_byte,
}

-- A name that cannot be mistaken for `--`, `--help` or a name with a value.
abbrev pub well_named : OptSpec → Bool
well_named spec =
    not (is_nil spec.name)
    && (not (has_byte 0 spec.name)
        && (not (has_byte b'=' spec.name) && not (bytes_eq spec.name (codes "help"))))

abbrev pub IsWellNamed : LeafSpec → Type 0
IsWellNamed leaf = all well_named leaf.opts ≡ true

-- An option of a call, as it is rendered.
abbrev pub rendered : ParsedOpt → Opt
rendered o = record {
  name = o.spec.name;
  value = o.value;
  flag = not o.spec.value;
  role = plain_opt;
}

find-all :
    (p q : OptSpec → Bool) (specs : List OptSpec) {spec : OptSpec}
    → all p specs ≡ true
    → find q specs ≡ some spec
    → p spec ≡ true
find-all p q [] h f = cc
find-all p q (x ∷ specs) {spec} h f = elim (Bool-cases (q x)) [
  | inl e ↦ let same : x ≡ spec = ground (arith, e) in subst (λ s. p s ≡ true) same (ground arith)
  | inr e ↦ find-all p q specs (ground arith) (rw e at f)
]

module _ (leaf : LeafSpec) (named : IsWellNamed leaf) where
  option-well_named :
      (name : Bytes) (spec : OptSpec) → option leaf name ≡ some spec → well_named spec ≡ true
  unfolding option bytes_eq
  option-well_named name spec h =
      find-all well_named (λ s. bytes_eq s.name name) (leaf.opts ++ universal_opts)
        (all-append well_named leaf.opts universal_opts named refl) h

pub loop_one :
    (leaf : LeafSpec) (i : ℕ) (st st' : Loop) (arg : Bytes) (rest : List Bytes)
    → round leaf i st arg rest ≡ one st'
    → parse_loop leaf i st (arg ∷ rest) ≡ parse_loop leaf (i + 1) st' rest
unfolding parse_loop
loop_one leaf i st st' arg [] h = rw (h, parse_loop)
loop_one leaf i st st' arg (v ∷ rest) h = rw (h, parse_loop)

pub loop_stop :
    (leaf : LeafSpec) (i : ℕ) (st st' : Loop) (arg : Bytes) (rest : List Bytes)
    → round leaf i st arg rest ≡ stop st'
    → parse_loop leaf i st (arg ∷ rest) ≡ ok st'.out
unfolding parse_loop
loop_stop leaf i st st' arg [] h = rw (h, parse_loop)
loop_stop leaf i st st' arg (v ∷ rest) h = rw (h, parse_loop)

abbrev pub after_opt : Loop → ParsedOpt → Loop
after_opt st o = add_opt (record st { seen = o.spec.name ∷ st.seen }) o.spec o.value

accept-one :
    (leaf : LeafSpec) (st : Loop) (o : ParsedOpt)
    → IsAccepted leaf o
    → (contains st.seen o.spec.name && not o.spec.repeat) ≡ false
    → accept one st o.spec o.spec.name o.value ≡ one (after_opt st o)
unfolding accept
accept-one leaf st o a fresh =
    rw (a.no_nul, fresh)
      (ground (arith, a.not_dropped, a.value_allowed, a.not_stripped, bytes_eq_refl []))

has_byte-append : (c : ℕ) (s t : Bytes) → has_byte c (s ++ t) ≡ (has_byte c s || has_byte c t)
has_byte-append c [] t = refl
has_byte-append c (x ∷ s) t = ground (arith, has_byte-append c s t)

bytes_eq-end : (s t : Bytes) (c : ℕ) → bytes_eq (s ++ c ∷ t) [] ≡ false
unfolding bytes_eq
bytes_eq-end [] t c = refl
bytes_eq-end (x ∷ s) t c = refl

is_nil-bytes_eq : (s : Bytes) → is_nil s ≡ false → bytes_eq s [] ≡ false
unfolding bytes_eq
is_nil-bytes_eq [] h = cc
is_nil-bytes_eq (c ∷ s) h = refl

is_nil-eq : (s : Bytes) → is_nil s ≡ true → s ≡ []
is_nil-eq [] h = refl
is_nil-eq (c ∷ s) h = cc

long_round :
    (leaf : LeafSpec) (i : ℕ) (st : Loop) (body : Bytes) (rest : List Bytes)
    → has_byte 0 body ≡ false
    → bytes_eq body [] ≡ false
    → round leaf i st (b'-' ∷ b'-' ∷ body) rest ≡ long_option leaf st (cut b'=' body) rest
unfolding round bytes_eq
long_round leaf i st body rest nul ne = ground (arith, nul, ne)

long_known :
    (leaf : LeafSpec) (st : Loop) (c : Cut) (spec : OptSpec) (rest : List Bytes)
    → (bytes_eq c.before (codes "help") && not c.found) ≡ false
    → option leaf c.before ≡ some spec
    → long_option leaf st c rest ≡ with_spec st spec c.before c rest
unfolding long_option
long_known leaf st c spec rest h e = rw h (rw (e, long_option))

module _ (leaf : LeafSpec) (named : IsWellNamed leaf) (st : Loop) (o : ParsedOpt)
    (a : IsAccepted leaf o)
    (fresh : (contains st.seen o.spec.name && not o.spec.repeat) ≡ false) where
  name_facts : well_named o.spec ≡ true
  name_facts = option-well_named leaf named o.spec.name o.spec a.from_schema

  round-valued :
      (i : ℕ) (rest : List Bytes)
      → o.spec.value ≡ true
      → round leaf i st (valued o.spec.name o.value) rest ≡ one (after_opt st o)
  unfolding with_spec
  round-valued i rest v =
      long_round leaf i st (o.spec.name ++ b'=' ∷ o.value) rest
        (has_byte-append 0 o.spec.name (b'=' ∷ o.value) ∙ ground (arith, name_facts, a.no_nul))
        (bytes_eq-end o.spec.name o.value b'=')
      ∙ rw (cut-append b'=' o.spec.name o.value (ground (arith, name_facts))) (
          long_known leaf st _ o.spec rest (ground arith) a.from_schema
          ∙ ground (arith, v, accept-one leaf st o a fresh))

  flag_round :
      (i : ℕ) (rest : List Bytes)
      → o.spec.value ≡ false
      → round leaf i st (b'-' ∷ b'-' ∷ o.spec.name) rest ≡ one (after_opt st o)
  unfolding with_spec
  flag_round i rest v =
      long_round leaf i st o.spec.name rest (ground (arith, name_facts))
        (is_nil-bytes_eq o.spec.name (ground (arith, name_facts)))
      ∙ rw (cut_self b'=' o.spec.name (ground (arith, name_facts))) (
          long_known leaf st _ o.spec rest (ground (arith, name_facts)) a.from_schema
          ∙ ground (
            arith,
            v,
            is_nil-eq o.value (ground (arith, a.flag_bare)),
            accept-one leaf st o a fresh,
          ))

  pub opt_round :
      (i : ℕ) (rest : List Bytes)
      → round leaf i st (opt_arg (rendered o)) rest ≡ one (after_opt st o)
  opt_round i rest =
      if_rule (λ arg. round leaf i st arg rest ≡ one (after_opt st o)) (not o.spec.value) _ _
        (λ e. flag_round i rest (not-true o.spec.value e))
        (λ e. round-valued i rest (not-false o.spec.value e))
