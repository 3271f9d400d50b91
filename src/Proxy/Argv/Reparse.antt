-- ===== src/Proxy/Argv/Reparse.antt =====
-- internal/proxy/argv.go and policy.go: `parseArgs` on what `Call.Args` writes.
use agterm_remote.Prelude.{
  All, Bool-cases, List, [], all, any, ap, append-nil, append_assoc, arith, false, inl, inr, map,
  not, refl, sym, true, ℕ, ◌&&◌, ◌++◌, ◌+◌, ◌∙◌, ◌∷◌, ◌≡◌,
}
use agterm_remote.Proxy.Argv.{
  Loop, ParsedArgs, ParsedOpt, add_pos, no_args, one, parse_args, parse_loop, round, stop,
}
use agterm_remote.Proxy.Argv.Accepted.{parse_args-IsAccepted}
use agterm_remote.Proxy.Argv.Invariant.{IsAccepted, MayFollow, NoNul, Unrepeated}
use agterm_remote.Proxy.Argv.Rendered.{
  IsWellNamed, after_opt, loop_one, loop_stop, opt_round, rendered, well_named,
}
use agterm_remote.Proxy.Call.{opt_arg, pos_args}
use agterm_remote.Proxy.Schema.{LeafSpec, allowlist}
use agterm_remote.Result.{ok}
use agterm_remote.Text.{Bytes, bytes_eq, codes, contains, has_byte, starts_with}

-- No option repeats a name in `seen`, or an earlier one, that it may not repeat.
abbrev Fresh : List Bytes → List ParsedOpt → Type 0
Fresh seen [] = Unit
Fresh seen (o ∷ os) =
    ((contains seen o.spec.name && not o.spec.repeat) ≡ false) × Fresh (o.spec.name ∷ seen) os

abbrev Unseen : List Bytes → ParsedOpt → Type 0
Unseen seen o = (contains seen o.spec.name && not o.spec.repeat) ≡ false

Unseen-cons :
    (seen : List Bytes) (o q : ParsedOpt)
    → Unseen seen q
    → MayFollow o q
    → Unseen (o.spec.name ∷ seen) q
Unseen-cons seen o q u m = ground arith

All-Unseen :
    (seen : List Bytes) (o : ParsedOpt) (os : List ParsedOpt)
    → All (Unseen seen) os
    → All (MayFollow o) os
    → All (Unseen (o.spec.name ∷ seen)) os
All-Unseen seen o [] u m = tt
All-Unseen seen o (q ∷ os) (p, u) (r, m) = (Unseen-cons seen o q p r, All-Unseen seen o os u m)

Unrepeated-Fresh :
    (seen : List Bytes) (os : List ParsedOpt) → All (Unseen seen) os → Unrepeated os → Fresh seen os
Unrepeated-Fresh seen [] u h = tt
Unrepeated-Fresh seen (o ∷ os) (p, u) (m, h) =
    (p, Unrepeated-Fresh (o.spec.name ∷ seen) os (All-Unseen seen o os u m) h)

Unseen-nil : (os : List ParsedOpt) → All (Unseen []) os
Unseen-nil [] = tt
Unseen-nil (o ∷ os) = (refl, Unseen-nil os)

-- The result once these options and positionals are read too.
abbrev with_opts : ParsedArgs → List ParsedOpt → ParsedArgs
with_opts out os = record out { opts = out.opts ++ os }

abbrev with_pos : ParsedArgs → List Bytes → ParsedArgs
with_pos out ws = record out { pos = out.pos ++ ws }

plain-ne : (w : Bytes) → starts_with w (codes "-") ≡ false → bytes_eq w (codes "--") ≡ false
unfolding bytes_eq
plain-ne [] h = refl
plain-ne (c ∷ w) h = ground arith

any-All : (ws : List Bytes) → All NoNul ws → any (has_byte 0) ws ≡ false
any-All [] h = refl
any-All (w ∷ ws) (p, h) = ground (arith, any-All ws h)

module _ (leaf : LeafSpec) where
  plain_round :
      (i : ℕ) (st : Loop) (word : Bytes) (rest : List Bytes)
      → NoNul word
      → starts_with word (codes "-") ≡ false
      → round leaf i st word rest ≡ one (add_pos st (word ∷ []))
  unfolding round
  plain_round i st word rest nul plain = rw (nul, plain-ne word plain) (ground (arith, plain))

  plain_loop :
      (pos : List Bytes) (i : ℕ) (st : Loop)
      → All NoNul pos
      → any (λ word. starts_with word (codes "-")) pos ≡ false
      → parse_loop leaf i st pos ≡ ok (with_pos st.out pos)
  plain_loop [] i st n h =
      unfold parse_loop in ap (λ ws. ok (record st.out { pos = ws })) (sym (append-nil st.out.pos))
  plain_loop (w ∷ pos) i st (n, ns) h =
      loop_one leaf i st (add_pos st (w ∷ [])) w pos (plain_round i st w pos n (ground arith))
      ∙ plain_loop pos (i + 1) (add_pos st (w ∷ [])) ns (ground arith)
      ∙ ap (λ ws. ok (record st.out { pos = ws })) (append_assoc st.out.pos (w ∷ []) pos)

  dashes_round :
      (i : ℕ) (st : Loop) (pos : List Bytes)
      → All NoNul pos
      → round leaf i st (codes "--") pos ≡ stop (add_pos st pos)
  unfolding round bytes_eq
  dashes_round i st pos n = rw (any-All pos n)

  pos_loop :
      (pos : List Bytes) (i : ℕ) (st : Loop)
      → All NoNul pos
      → parse_loop leaf i st (pos_args pos) ≡ ok (with_pos st.out pos)
  unfolding pos_args
  pos_loop pos i st n = elim (Bool-cases (any (λ word. starts_with word (codes "-")) pos)) [
    | inl e ↦ rw e (loop_stop leaf i st (add_pos st pos) (codes "--") pos (dashes_round i st pos n))
    | inr e ↦ rw e (plain_loop pos i st n e)
  ]

  -- The rendered options and positionals, in turn.
  items_loop :
      (named : IsWellNamed leaf) (os : List ParsedOpt) (pos : List Bytes) (i : ℕ) (st : Loop)
      → All (IsAccepted leaf) os
      → Fresh st.seen os
      → All NoNul pos
      → parse_loop leaf i st (map (λ o. opt_arg (rendered o)) os ++ pos_args pos)
        ≡ ok (with_pos (with_opts st.out os) pos)
  items_loop named [] pos i st a f n =
      pos_loop pos i st n
      ∙ ap (λ os. ok (record st.out { opts = os; pos = st.out.pos ++ pos }))
          (sym (append-nil st.out.opts))
  items_loop named (o ∷ os) pos i st (a, rest) (f, fs) n =
      loop_one leaf i st (after_opt st o) (opt_arg (rendered o)) _
        (opt_round leaf named st o a f i _)
      ∙ items_loop named os pos (i + 1) (after_opt st o) rest fs n
      ∙ ap (λ l. ok (record st.out { opts = l; pos = st.out.pos ++ pos }))
          (append_assoc st.out.opts (o ∷ []) os)

  -- For a leaf whose option names are not empty, are not help and hold neither = nor a NUL byte:
  -- options that a parse of the leaf may return, of which none that is not repeatable stands
  -- twice, and positionals with no NUL byte, written as `Call.Args` writes them, are parsed to
  -- exactly those options and positionals.
  pub parse_args-rendered :
      (os : List ParsedOpt) (pos : List Bytes)
      → IsWellNamed leaf
      → All (IsAccepted leaf) os
      → Unrepeated os
      → All NoNul pos
      → parse_args leaf (map (λ o. opt_arg (rendered o)) os ++ pos_args pos)
        ≡ ok (record { opts = os; pos = pos; help = false; warnings = [] })
  unfolding parse_args
  parse_args-rendered os pos named a u n = rw (
      items_loop named os pos 0 (record { seen = []; out = no_args }) a
        (Unrepeated-Fresh [] os (Unseen-nil os) u) n)

  -- For a leaf whose option names are not empty, are not help and hold neither = nor a NUL byte:
  -- parsing what a parse returned, rendered again, gives the same options and positionals. No
  -- value turns into an option or a positional, or the other way round, on the way to agtermctl.
  pub parse_args-parse_args :
      (args : List Bytes) {out : ParsedArgs}
      → IsWellNamed leaf
      → parse_args leaf args ≡ ok out
      → parse_args leaf (map (λ o. opt_arg (rendered o)) out.opts ++ pos_args out.pos)
        ≡ ok (record { opts = out.opts; pos = out.pos; help = false; warnings = [] })
  parse_args-parse_args args {out} named h =
      let (a, n, u) = parse_args-IsAccepted leaf args h in
      parse_args-rendered out.opts out.pos named a u n

-- Every leaf of the allowlist has option names that are safe to render.
pub allowlist-IsWellNamed : all (λ leaf. all well_named leaf.opts) allowlist ≡ true
unfolding bytes_eq
allowlist-IsWellNamed = refl
