-- ===== src/Proxy/Policy/Authorized.antt =====
-- internal/proxy/policy.go: the verdict of `Authorize`.
use agterm_remote.Bindings.{Binding}
use agterm_remote.Prelude.{
  Bool-cases, List, Option, [], if_cases, inl, inr, none, refl, some, sym, true, ◌≡◌, ◌⊎◌,
}
use agterm_remote.Proxy.Argv.{ArgError, ParsedArgs, parse_args}
use agterm_remote.Proxy.Authz.{Authz, Decision, Norm, Reason, Verdict, allow}
use agterm_remote.Proxy.Call.{Call}
use agterm_remote.Proxy.Leaf.{LeafError, MatchedLeaf, match_leaf}
use agterm_remote.Proxy.Normalise.{Url, normalise}
use agterm_remote.Proxy.Policy.{
  Request, World, asks_help, authorize, authz_of, by_scope, current_binding, help_call, with_args,
  with_bindings, with_caller, with_leaf, with_norm, with_tree, without_world,
}
use agterm_remote.Proxy.Schema.{LeafSpec, Scope, scope_caller, scope_none, scope_pane, scope_row}
use agterm_remote.Proxy.Scopes.Guarded.{Guarded, caller_scope-CallerSafe, pane_scope-PaneActs}
use agterm_remote.Proxy.Scopes.Rows.{row_scope-RowSafe}
use agterm_remote.Proxy.Tree.{TreeRow}
use agterm_remote.Result.{Result, err, ok, ok-injective}
use agterm_remote.Text.{Bytes}

module _ (parse_url : Bytes → Option Url) (agents : List Bytes) (w : World) (q : Request) where
  -- The tree and the bindings were read, the caller is still bound, and the scope of the leaf holds.
  pub record Checked (leaf : LeafSpec) (args : ParsedArgs) (norm : Norm) (v : Verdict)
      : Type 0 where
    pub rows : List TreeRow
    pub all_bound : List Binding
    pub current : Binding
    pub tree_read : w.tree ≡ some rows
    pub bindings_read : w.bindings ≡ some all_bound
    pub caller_bound : current_binding q.caller all_bound ≡ some current
    pub guarded :
        Guarded leaf.scope (authz_of parse_url agents w q leaf args norm rows all_bound current) v

  abbrev pub IsHelp : Verdict → Type 0
  IsHelp v = (c : Call) × (v ≡ allow c none) × (c.help ≡ true)

  -- The call is the help of agr or of a leaf; or its words are a leaf with accepted options, and the
  -- leaf needs no caller or the checks of its scope hold.
  pub data Authorized (v : Verdict) : Type 0 where
    shows_help : IsHelp v → Authorized v
    of_leaf :
        (m : MatchedLeaf) (args : ParsedArgs) (norm : Norm)
        → match_leaf q.argv ≡ ok m
        → parse_args m.spec m.rest ≡ ok args
        → normalise parse_url m.spec args q.file_count ≡ ok norm
        → (v ≡ allow norm.call none) × (m.spec.scope ≡ scope_none) ⊎ Checked m.spec args norm v
        → Authorized v

  by_scope-Guarded : (s : Scope) (a : Authz) {v : Verdict} → by_scope s a ≡ ok v → Guarded s a v
  unfolding by_scope
  by_scope-Guarded scope_none a h = sym (ok-injective h)
  by_scope-Guarded scope_caller a h = caller_scope-CallerSafe a h
  by_scope-Guarded scope_pane a h = pane_scope-PaneActs a h
  by_scope-Guarded scope_row a h = row_scope-RowSafe a h

  module _ (leaf : LeafSpec) (args : ParsedArgs) (norm : Norm) {v : Verdict} where
    with_caller-Checked :
        (rows : List TreeRow) (bs : List Binding) (o : Option Binding)
        → w.tree ≡ some rows
        → w.bindings ≡ some bs
        → current_binding q.caller bs ≡ o
        → (with_caller parse_url agents w q leaf args norm rows bs o).verdict ≡ ok v
        → Checked leaf args norm v
    unfolding with_caller
    with_caller-Checked rows bs none e₁ e₂ e₃ h = cc
    with_caller-Checked rows bs (some current) e₁ e₂ e₃ h = record {
      rows = rows;
      all_bound = bs;
      current = current;
      tree_read = e₁;
      bindings_read = e₂;
      caller_bound = e₃;
      guarded = by_scope-Guarded leaf.scope _ h;
    }

    with_bindings-Checked :
        (rows : List TreeRow) (o : Option (List Binding))
        → w.tree ≡ some rows
        → w.bindings ≡ o
        → (with_bindings parse_url agents w q leaf args norm rows o).verdict ≡ ok v
        → Checked leaf args norm v
    unfolding with_bindings
    with_bindings-Checked rows none e₁ e₂ h = cc
    with_bindings-Checked rows (some bs) e₁ e₂ h =
        with_caller-Checked rows bs (current_binding q.caller bs) e₁ e₂ refl h

    with_tree-Checked :
        (o : Option (List TreeRow))
        → w.tree ≡ o
        → (with_tree parse_url agents w q leaf args norm o).verdict ≡ ok v
        → Checked leaf args norm v
    unfolding with_tree
    with_tree-Checked none e h = cc
    with_tree-Checked (some rows) e h = with_bindings-Checked rows w.bindings e refl h

  needs-none : (s : Scope) → without_world s ≡ true → s ≡ scope_none
  needs-none scope_none e = refl
  needs-none scope_caller e = cc
  needs-none scope_pane e = cc
  needs-none scope_row e = cc

  with_norm-either :
      (leaf : LeafSpec) (args : ParsedArgs) (norm : Norm) {v : Verdict}
      → (with_norm parse_url agents w q leaf args (ok norm)).verdict ≡ ok v
      → (v ≡ allow norm.call none) × (leaf.scope ≡ scope_none) ⊎ Checked leaf args norm v
  unfolding with_norm
  with_norm-either leaf args norm h = elim (Bool-cases (without_world leaf.scope)) [
    | inl e ↦ inl (sym (ok-injective (rw e at h)), needs-none leaf.scope e)
    | inr e ↦ inr (with_tree-Checked leaf args norm w.tree refl (rw e at h))
  ]

  with_norm-Authorized :
      (m : MatchedLeaf) (args : ParsedArgs) (r : Result Reason Norm) {v : Verdict}
      → match_leaf q.argv ≡ ok m
      → parse_args m.spec m.rest ≡ ok args
      → normalise parse_url m.spec args q.file_count ≡ r
      → (with_norm parse_url agents w q m.spec args r).verdict ≡ ok v
      → Authorized v
  unfolding with_norm
  with_norm-Authorized m args (err why) e₁ e₂ e₃ h = cc
  with_norm-Authorized m args (ok norm) e₁ e₂ e₃ h =
      of_leaf m args norm e₁ e₂ e₃ (with_norm-either m.spec args norm h)

  with_args-Authorized :
      (m : MatchedLeaf) (r : Result ArgError ParsedArgs) {v : Verdict}
      → match_leaf q.argv ≡ ok m
      → parse_args m.spec m.rest ≡ r
      → (with_args parse_url agents w q m.spec r).verdict ≡ ok v
      → Authorized v
  unfolding with_args
  with_args-Authorized m (err e) e₁ e₂ h = cc
  with_args-Authorized m (ok args) {v} e₁ e₂ h =
      let shown : Decision = record {
        verdict = ok (allow (help_call parse_url agents w q m.spec) none);
        dropped = [];
      } in
      let checked =
        with_norm parse_url agents w q m.spec args (normalise parse_url m.spec args q.file_count) in
      elim (if_cases (λ (d : Decision). d.verdict ≡ ok v) args.help shown checked h) [
        | inl (_, s) ↦ shows_help (_, sym (ok-injective s), refl)
        | inr (_, s) ↦ with_norm-Authorized m args _ e₁ e₂ refl s
      ]

  with_leaf-Authorized :
      (r : Result LeafError MatchedLeaf) {v : Verdict}
      → match_leaf q.argv ≡ r
      → (with_leaf parse_url agents w q r).verdict ≡ ok v
      → Authorized v
  unfolding with_leaf
  with_leaf-Authorized (err e) e₁ h = cc
  with_leaf-Authorized (ok m) e₁ h = with_args-Authorized m (parse_args m.spec m.rest) e₁ refl h

  -- A call that `Authorize` does not refuse shows help; or it is a listed leaf whose words and options
  -- are accepted, and either the leaf needs no caller, or the tree and the bindings were read, the
  -- caller is still bound, and what the scope of the leaf asks of the caller, the panes or the rows
  -- holds in them.
  pub authorize-Authorized :
      {v : Verdict} → (authorize parse_url agents w q).verdict ≡ ok v → Authorized v
  unfolding authorize
  authorize-Authorized h = elim (Bool-cases (asks_help parse_url agents w q q.argv)) [
    | inl e ↦ shows_help (_, sym (ok-injective (rw e at h)), refl)
    | inr e ↦ with_leaf-Authorized (match_leaf q.argv) refl (rw e at h)
  ]
