-- ===== src/Proxy/Prepare/Opened.antt =====
-- internal/proxy/rewrite.go: the command line of a new row (`rewriteNew`).
use agterm_remote.Prelude.{
  Bool-cases, List, [], false, inl, inr, refl, some, subst, true, ◌++◌, ◌∷◌, ◌≡◌,
}
use agterm_remote.Proxy.Call.{Call, Opt, render}
use agterm_remote.Proxy.Prepare.{command_of, last_value, new_opts, open_words, rewrite_new}
use agterm_remote.Proxy.Rewrite.{
  Env, Origin, Prepared, generate_name, has_opt, reservation_key, without_opts,
}
use agterm_remote.Proxy.Rewrite.Names.{IsFree, generated, pick_name-IsFree}
use agterm_remote.Quote.{join}
use agterm_remote.Quote.Shell.{shell_words, shell_words-join}
use agterm_remote.Result.{>>=-eq-ok, ok, ok-injective}
use agterm_remote.Text.{Bytes, bytes_eq, bytes_eq_iff, codes, contains}

-- The option that carries the command line of a new row.
pub record Opens (env : Env) (req : Origin) (c : Call) (name : Bytes) (args : List Bytes)
    : Type 0 where
  pub opt : Opt
  pub is_command : opt.name ≡ codes "command"
  pub one_line : shell_words opt.value ≡ some (open_words env req c name)
  pub alone :
      has_opt (without_opts c.opts (codes "cwd" ∷ codes "command" ∷ [])) (codes "command") ≡ false
  pub rendered :
      args ≡ render c (without_opts c.opts (codes "cwd" ∷ codes "command" ∷ []) ++ opt ∷ []) c.pos

pub record NewRowOf (env : Env) (req : Origin) (reserved : List Bytes) (c : Call) (q : Prepared)
    (reserved₁ : List Bytes) : Type 0 where
  pub name : Bytes
  pub free : IsFree env req reserved name
  pub row : q.new_row ≡ some (record { host = req.host; name = name })
  pub kept : reserved₁ ≡ reservation_key req.host name ∷ reserved
  pub opens : Opens env req c name q.args

without-has :
    (opts : List Opt) (names : List Bytes) (name : Bytes)
    → contains names name ≡ true
    → has_opt (without_opts opts names) name ≡ false
unfolding has_opt without_opts
without-has [] names name e = refl
without-has (opt ∷ opts) names name e = elim (Bool-cases (contains names opt.name)) [
  | inl f ↦ rw f (without-has opts names name e)
  | inr f ↦ rw f (elim (Bool-cases (bytes_eq opt.name name)) [
    | inl g ↦ cc (e, rw ((bytes_eq_iff opt.name name).0 g) at f)
    | inr g ↦ rw g (without-has opts names name e)
  ])
]

opened :
    (env : Env) (req : Origin) (c : Call) (name : Bytes)
    → Opens env req c name (render c (new_opts env req c name) c.pos)
unfolding new_opts bytes_eq
opened env req c name = record {
  opt = command_of (join (open_words env req c name));
  is_command = refl;
  one_line = shell_words-join (open_words env req c name);
  alone = without-has c.opts (codes "cwd" ∷ codes "command" ∷ []) (codes "command") refl;
  rendered = refl;
}

-- A `session new` that is rewritten passes one --command whose value is, to a shell, exactly the words
-- of one `agr open` of the calling host with a free and valid name that is then reserved, whatever the
-- directory and the command of the call hold; no other --command of the call is left.
pub rewrite_new-NewRowOf :
    (env : Env) (req : Origin) (reserved : List Bytes) (p : Prepared) (c : Call) {q : Prepared}
    {reserved₁ : List Bytes}
    → rewrite_new env req reserved p c ≡ ok (q, reserved₁)
    → NewRowOf env req reserved c q reserved₁
unfolding rewrite_new
rewrite_new-NewRowOf env req reserved p c {q} {reserved₁} h =
    let wanted = last_value (codes "name") [] c.opts in
    let ((name, r₁), e, rest) = >>=-eq-ok (generate_name env req reserved wanted) _ h in
    let (picked, key) = generated env req reserved wanted e in
    let same = ok-injective rest in
    subst (λ x. NewRowOf env req reserved c x.0 x.1) same
      (record {
        name = name;
        free = pick_name-IsFree env req reserved wanted picked;
        row = refl;
        kept = key;
        opens = opened env req c name;
      })
