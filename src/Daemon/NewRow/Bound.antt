-- ===== src/Daemon/NewRow/Bound.antt =====
-- internal/daemon/proxy.go: which row `preBind` binds.
use agterm_remote.Bindings.{Binding}
use agterm_remote.Daemon.NewRow.{
  Attempt, BindError, Found, bind_found, find_pane, no_id, no_pane, pre_bind, prebind_attempts,
}
use agterm_remote.Daemon.NewRow.Scan.{Seen, find_pane-either}
use agterm_remote.Prelude.{
  List, Option, [], ap, false, if_cases, inl, inr, is_nil, none, refl, some, subst, sym, true, ℕ,
  ◌∙◌, ◌≡◌, ◌⊎◌,
}
use agterm_remote.Result.{Result, err, ok, ok-injective}
use agterm_remote.Text.{Bytes, codes}
use mathlib.Core.Bool.{false≢true}
use mathlib.Core.Option.{some-injective}

module _ (host name mux : Bytes) (now : ℕ) (id : Bytes) (attempts : List Attempt) where
  -- The binding of the new row: the host and the name that were asked for, on a left pane that a read
  -- of the tree showed in the row whose id was reported.
  pub record IsNewBinding (b : Binding) : Type 0 where
    pub own_host : b.host ≡ host
    pub own_name : b.name ≡ name
    pub has_pane : is_nil b.pane_id ≡ false
    pub seen : Seen id attempts (b.row, b.pane_id)

  bind_found-IsNewBinding :
      (f : Found) {b : Binding}
      → (f ≡ ([], [])) ⊎ Seen id attempts f
      → bind_found host name mux id now (codes "left") (ok f) ≡ ok b
      → IsNewBinding b
  bind_found-IsNewBinding f {b} k h =
      let made : Binding = record {
        row = f.0;
        pane_id = f.1;
        pane = codes "left";
        host = host;
        name = name;
        mux = mux;
        bound_at = now;
        grants = none;
      } in
      elim (if_cases (λ x. x ≡ ok b) (is_nil f.1) (err (no_pane id)) (ok made) h) [
        | inl (_, e) ↦ cc
        | inr (n, e) ↦ subst IsNewBinding (ok-injective e) (elim k [
          | inl z ↦ absurd (false≢true (sym n ∙ ap (λ (x : Found). is_nil x.1) z))
          | inr q ↦ record { own_host = refl; own_name = refl; has_pane = n; seen = q }
        ])
      ]

  found-IsNewBinding :
      (o : Option (Result BindError Found)) {b : Binding}
      → find_pane prebind_attempts true id attempts ([], []) ≡ o
      → (elim o [ none ↦ none | some r ↦ some (bind_found host name mux id now (codes "left") r) ])
        ≡ some (ok b)
      → IsNewBinding b
  found-IsNewBinding none e h = cc
  found-IsNewBinding (some (err x)) e h = cc
  found-IsNewBinding (some (ok f)) {b} e h =
      bind_found-IsNewBinding f (find_pane-either prebind_attempts true id attempts ([], []) e)
        (some-injective (bind_found host name mux id now (codes "left") (ok f)) (ok b) h)

  -- Where `preBind` gives a binding to the store, it is of the host and the name of the new row, and of
  -- a row and its left pane that one of the trees it read holds, the id of the row being the one that
  -- the output reported, in any case of its letters.
  pub pre_bind-IsNewBinding :
      {b : Binding} → pre_bind host name mux now id attempts ≡ some (ok b) → IsNewBinding b
  unfolding pre_bind
  pre_bind-IsNewBinding {b} h =
      elim (if_cases (λ x. x ≡ some (ok b)) (is_nil id) (some (err no_id))
        (elim (find_pane prebind_attempts true id attempts ([], [])) [
          | none ↦ none
          | some r ↦ some (bind_found host name mux id now (codes "left") r)
        ])
        h) [
          | inl (_, e) ↦ cc
          | inr (_, e) ↦
              found-IsNewBinding (find_pane prebind_attempts true id attempts ([], [])) refl e
        ]
