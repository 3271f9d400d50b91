-- ===== src/Proxy/Argv/Rounds.antt =====
-- internal/proxy/argv.go: one round of `parseArgs`.

use agterm_remote.Prelude.{
  All, List, Option, [], any, arith, drop, false, find-holds, if_rule, is_nil, none, not, refl,
  some, subst, true, ℕ, ◌&&◌, ◌++◌, ◌||◌, ◌∷◌, ◌≡◌,
}
use agterm_remote.Proxy.Argv.{
  Loop, ParsedOpt, Round, accept, add_opt, add_warning, fail, long_option, one, round, take_value,
  two, unknown, with_spec,
}
use agterm_remote.Proxy.Argv.Invariant.{Good, Inv, NoNul, opt-Inv, pos-Inv, seen-Inv}
use agterm_remote.Proxy.Schema.{LeafSpec, OptSpec, is_stripped, option, universal_opts}
use agterm_remote.Text.{
  Bytes, Cut, bytes_eq, bytes_eq_iff, codes, contains, cut, cut_missing, has_byte, starts_with,
}

module _ (leaf : LeafSpec) (go_on : Loop → Round) where
  accept-Good :
      (keep : (s : Loop) → Inv leaf s → Good leaf (go_on s)) (st : Loop) (spec : OptSpec)
      (value : Bytes)
      → Inv leaf st
      → option leaf spec.name ≡ some spec
      → (spec.value || is_nil value) ≡ true
      → Good leaf (accept go_on st spec spec.name value)
  unfolding accept
  accept-Good keep st spec value inv found bare =
      if_rule (Good leaf) (has_byte 0 value) _ _ (λ _. tt)
        λ nul.
          if_rule (Good leaf) (contains st.seen spec.name && not spec.repeat) _ _ (λ _. tt)
            λ fresh.
              if_rule (Good leaf) (not (bytes_eq spec.dropped [])) _ _
                (λ _.
                  keep (add_warning (record st { seen = spec.name ∷ st.seen }) spec spec.name)
                    (warned (seen-Inv leaf st inv spec.name)))
                λ kept.
                  if_rule (Good leaf)
                    (not (is_nil spec.allowed) && not (contains spec.allowed value)) _ _ (λ _. tt)
                    λ ok_value.
                      if_rule (Good leaf) (is_stripped spec.name) _ _
                        (λ _.
                          keep (record st { seen = spec.name ∷ st.seen })
                            (seen-Inv leaf st inv spec.name))
                        λ bound.
                          let o : ParsedOpt = record { spec = spec; value = value } in
                          keep (add_opt (record st { seen = spec.name ∷ st.seen }) spec value) (
                            opt-Inv leaf st inv o
                              (record {
                                from_schema = found;
                                no_nul = nul;
                                not_dropped =
                                    (bytes_eq_iff spec.dropped []).0 (ground (arith, kept));
                                value_allowed = ground (arith, ok_value);
                                flag_bare = bare;
                                not_stripped = bound;
                              })
                              fresh)
    where
      warned :
          Inv leaf (record st { seen = spec.name ∷ st.seen })
          → Inv leaf (add_warning (record st { seen = spec.name ∷ st.seen }) spec spec.name)
      warned i = record {
        accepted = i.accepted;
        positional = i.positional;
        unrepeated = i.unrepeated;
        were_seen = i.were_seen;
      }

-- The schema gives an option under its own name.
option_name :
    (leaf : LeafSpec) (name : Bytes) {spec : OptSpec}
    → option leaf name ≡ some spec
    → spec.name ≡ name
unfolding option
option_name leaf name {spec} h =
    (bytes_eq_iff spec.name name).0
      (find-holds (λ s. bytes_eq s.name name) (leaf.opts ++ universal_opts) h)

module _ (leaf : LeafSpec) (st : Loop) (inv : Inv leaf st) (spec : OptSpec) where
  take_value-Good :
      (rest : List Bytes)
      → option leaf spec.name ≡ some spec
      → spec.value ≡ true
      → Good leaf (take_value st spec spec.name rest)
  unfolding take_value
  take_value-Good [] found valued = tt
  take_value-Good (value ∷ rest) found valued =
      if_rule (Good leaf) (starts_with value (codes "-") && not (bytes_eq value (codes "-"))) _ _
        (λ _. tt) λ _. accept-Good leaf two (λ s i. i) st spec value inv found (ground arith)

  with_spec-Good :
      (c : Cut) (rest : List Bytes)
      → (c.found ≡ false → c.after ≡ [])
      → option leaf spec.name ≡ some spec
      → Good leaf (with_spec st spec spec.name c rest)
  unfolding with_spec
  with_spec-Good c rest bare found =
      if_rule (Good leaf) spec.value _ _
        (λ valued.
          if_rule (Good leaf) c.found _ _
            (λ _. accept-Good leaf one (λ s i. i) st spec c.after inv found (ground arith))
            (λ _. take_value-Good rest found valued))
        (λ flag.
          if_rule (Good leaf) c.found _ _ (λ _. tt)
            (λ alone.
              let empty = bare alone in
              accept-Good leaf one (λ s i. i) st spec c.after inv found (ground (arith, empty))))

any-NoNul : (ws : List Bytes) → any (has_byte 0) ws ≡ false → All NoNul ws
any-NoNul [] h = tt
any-NoNul (w ∷ ws) h = (ground arith, any-NoNul ws (ground arith))

module _ (leaf : LeafSpec) (st : Loop) (inv : Inv leaf st) where
  found-Good :
      (name : Bytes) (o : Option OptSpec) (c : Cut) (rest : List Bytes)
      → (c.found ≡ false → c.after ≡ [])
      → option leaf name ≡ o
      → Good leaf
          (elim o [ none ↦ fail (unknown leaf name) | some spec ↦ with_spec st spec name c rest ])
  found-Good name none c rest bare e = tt
  found-Good name (some spec) c rest bare e =
      let same = option_name leaf name e in
      subst (λ n. Good leaf (with_spec st spec n c rest)) same
        (with_spec-Good leaf st inv spec c rest bare (rw (← same) at e))

  long_option-Good :
      (arg : Bytes) (rest : List Bytes) → Good leaf (long_option leaf st (cut b'=' arg) rest)
  unfolding long_option
  long_option-Good arg rest =
      if_rule (Good leaf)
        (bytes_eq (cut b'=' arg).before (codes "help") && not (cut b'=' arg).found) _ _
        (λ _. record {
          accepted = inv.accepted;
          positional = inv.positional;
          unrepeated = inv.unrepeated;
          were_seen = inv.were_seen;
        })
        (λ _.
          found-Good (cut b'=' arg).before (option leaf (cut b'=' arg).before) (cut b'=' arg) rest
            (cut_missing b'=' arg) refl)

  pub round-Good : (i : ℕ) (arg : Bytes) (rest : List Bytes) → Good leaf (round leaf i st arg rest)
  unfolding round
  round-Good i arg rest =
      if_rule (Good leaf) (has_byte 0 arg) _ _ (λ _. tt)
        λ nul.
          if_rule (Good leaf) (bytes_eq arg (codes "--")) _ _
            (λ _.
              if_rule (Good leaf) (any (has_byte 0) rest) _ _ (λ _. tt)
                λ clean. pos-Inv leaf st inv rest (any-NoNul rest clean))
            λ _.
              if_rule (Good leaf) (not (starts_with arg (codes "-")) || bytes_eq arg (codes "-")) _
                _ (λ _. pos-Inv leaf st inv (arg ∷ []) (nul, tt))
                λ _.
                  if_rule (Good leaf) (not (starts_with arg (codes "--"))) _ _ (λ _. tt)
                    λ _. long_option-Good (drop 2 arg) rest
