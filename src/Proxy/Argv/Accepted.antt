-- ===== src/Proxy/Argv/Accepted.antt =====
-- internal/proxy/argv.go: the result of `parseArgs`.
use agterm_remote.Prelude.{All, List, [], if_rule, ℕ, ◌+◌, ◌∷◌, ◌≡◌}
use agterm_remote.Proxy.Argv.{
  ArgError, Loop, ParsedArgs, Round, fail, help_only, no_args, one, parse_args, parse_loop, round,
  stop, two,
}
use agterm_remote.Proxy.Argv.Invariant.{Good, Inv, IsAccepted, NoNul, Unrepeated}
use agterm_remote.Proxy.Argv.Rounds.{round-Good}
use agterm_remote.Proxy.Schema.{LeafSpec}
use agterm_remote.Result.{Result, err, ok, ◌>>=◌}
use agterm_remote.Text.{Bytes}

-- A successful parse, with what it guarantees.
abbrev Sound : LeafSpec → Result ArgError ParsedArgs → Type 0
Sound leaf (err e) = Unit
Sound leaf (ok out) = All (IsAccepted leaf) out.opts × All NoNul out.pos × Unrepeated out.opts

module _ (leaf : LeafSpec) where
  Inv-Sound : (st : Loop) → Inv leaf st → Sound leaf (ok st.out)
  Inv-Sound st inv = (inv.accepted, inv.positional, inv.unrepeated)

  last-Sound :
      (r : Round)
      → Good leaf r
      → Sound leaf (elim r [
        | fail e ↦ err e
        | stop st' ↦ ok st'.out
        | one st' ↦ ok st'.out
        | two st' ↦ ok st'.out
      ])
  last-Sound (fail e) g = tt
  last-Sound (stop st) g = Inv-Sound st g
  last-Sound (one st) g = Inv-Sound st g
  last-Sound (two st) g = Inv-Sound st g

  next-Sound :
      (i : ℕ) (value : Bytes) (rest : List Bytes) (r : Round)
      → Good leaf r
      → ((j : ℕ) (st : Loop) → Inv leaf st → Sound leaf (parse_loop leaf j st (value ∷ rest)))
      → ((j : ℕ) (st : Loop) → Inv leaf st → Sound leaf (parse_loop leaf j st rest))
      → Sound leaf (elim r [
        | fail e ↦ err e
        | stop st' ↦ ok st'.out
        | one st' ↦ parse_loop leaf (i + 1) st' (value ∷ rest)
        | two st' ↦ parse_loop leaf (i + 2) st' rest
      ])
  next-Sound i value rest (fail e) g later last = tt
  next-Sound i value rest (stop st) g later last = Inv-Sound st g
  next-Sound i value rest (one st) g later last = later (i + 1) st g
  next-Sound i value rest (two st) g later last = last (i + 2) st g

  parse_loop-Sound :
      (args : List Bytes) (i : ℕ) (st : Loop) → Inv leaf st → Sound leaf (parse_loop leaf i st args)
  unfolding parse_loop
  parse_loop-Sound [] i st inv = Inv-Sound st inv
  parse_loop-Sound (arg ∷ []) i st inv =
      last-Sound (round leaf i st arg []) (round-Good leaf st inv i arg [])
  parse_loop-Sound (arg ∷ value ∷ rest) i st inv =
      next-Sound i value rest (round leaf i st arg (value ∷ rest))
        (round-Good leaf st inv i arg (value ∷ rest)) (parse_loop-Sound (value ∷ rest))
        (parse_loop-Sound rest)

  help_only-Sound :
      (m : Result ArgError ParsedArgs) → Sound leaf m → Sound leaf (m >>= λ out. ok (help_only out))
  help_only-Sound (err e) h = tt
  help_only-Sound (ok out) h =
      if_rule
        (λ (o : ParsedArgs). All (IsAccepted leaf) o.opts × All NoNul o.pos × Unrepeated o.opts)
        out.help _ _ (λ _. (tt, tt, tt)) (λ _. h)

  -- Every option that a successful parse returns stands in the schema of the leaf or is one that
  -- every leaf has, holds no NUL byte, has an allowed value, is neither stripped nor dropped, and
  -- has no value where it is a flag; only repeatable options stand twice; no positional holds a NUL.
  pub parse_args-IsAccepted :
      (args : List Bytes) {out : ParsedArgs}
      → parse_args leaf args ≡ ok out
      → All (IsAccepted leaf) out.opts × All NoNul out.pos × Unrepeated out.opts
  unfolding parse_args
  parse_args-IsAccepted args h =
      let start : Loop = record { seen = []; out = no_args } in
      let sound : Sound leaf (parse_args leaf args) =
        help_only-Sound (parse_loop leaf 0 start args) (
          parse_loop-Sound args 0 start
            (record { accepted = tt; positional = tt; unrepeated = tt; were_seen = tt })) in
      rw h at sound
