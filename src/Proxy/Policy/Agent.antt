-- ===== src/Proxy/Policy/Agent.antt =====
-- internal/proxy/policy.go: `CheckAgent`.
use agterm_remote.Bindings.{Binding}
use agterm_remote.Prelude.{
  Bool-cases, List, Option, Option-cases, any, false, find, inl, inr, none, refl, some, ◌≡◌,
}
use agterm_remote.Proxy.Policy.{World, check_agent, not_agent, pane_agent, row_agent}
use agterm_remote.Proxy.Tree.{AgentError, Surface, TreeRow, agent_running, surface_by_id}
use agterm_remote.Text.{Bytes, equal_fold}
use mathlib.Core.Option

-- The pane runs an allowed agent, and no binding holds it.
pub record AgentRuns (agents : List Bytes) (w : World) (row_id : Bytes) (pane_id : Bytes)
    : Type 0 where
  pub rows : List TreeRow
  pub all_bound : List Binding
  pub row : TreeRow
  pub surface : Surface
  pub tree_read : w.tree ≡ some rows
  pub bindings_read : w.bindings ≡ some all_bound
  pub unbound : any (λ b. equal_fold b.pane_id pane_id) all_bound ≡ false
  pub row_found : find (λ r. equal_fold r.id row_id) rows ≡ some row
  pub surface_found : surface_by_id row pane_id ≡ some surface
  pub runs : agent_running agents row surface.kind ≡ none

module _ (agents : List Bytes) (pane_id : Bytes) where
  abbrev Running : TreeRow → Type 0
  Running row =
      (s : Surface) × (surface_by_id row pane_id ≡ some s)
      × (agent_running agents row s.kind ≡ none)

  no_error : (o : Option AgentError) → Option.map not_agent o ≡ none → o ≡ none
  no_error none h = refl
  no_error (some e) h = cc

  pane_agent-none :
      (row : TreeRow) (o : Option Surface)
      → surface_by_id row pane_id ≡ o
      → pane_agent agents pane_id row o ≡ none
      → Running row
  unfolding pane_agent
  pane_agent-none row none e h = cc
  pane_agent-none row (some s) e h = (s, e, no_error (agent_running agents row s.kind) h)

  row_agent-none :
      (o : Option TreeRow)
      → row_agent agents pane_id o ≡ none
      → (row : TreeRow) × (o ≡ some row) × Running row
  unfolding row_agent
  row_agent-none none h = cc
  row_agent-none (some row) h = (row, refl, pane_agent-none row (surface_by_id row pane_id) refl h)

-- A pane passes the last check before typing only if the tree and the bindings were read anew, no
-- binding of any host holds the pane, and the pane is in its row and runs an allowed agent.
pub check_agent-AgentRuns :
    (agents : List Bytes) (w : World) (row_id pane_id : Bytes)
    → check_agent agents w row_id pane_id ≡ none
    → AgentRuns agents w row_id pane_id
unfolding check_agent
check_agent-AgentRuns agents w row_id pane_id h = elim (Option-cases w.tree) [
  | inl e ↦ cc (rw (check_agent, e) at h)
  | inr (rows, e) ↦
      let h₁ = rw (check_agent, e) at h in
      elim (Option-cases w.bindings) [
        | inl f ↦ cc (rw f at h₁)
        | inr (bs, f) ↦
            let h₂ = rw f at h₁ in
            elim (Bool-cases (any (λ b. equal_fold b.pane_id pane_id) bs)) [
              | inl u ↦ cc (rw u at h₂)
              | inr u ↦
                  let (row, found, (s, there_at, runs)) =
                    row_agent-none agents pane_id (find (λ r. equal_fold r.id row_id) rows)
                      (rw u at h₂) in
                  record {
                    rows = rows;
                    all_bound = bs;
                    row = row;
                    surface = s;
                    tree_read = e;
                    bindings_read = f;
                    unbound = u;
                    row_found = found;
                    surface_found = there_at;
                    runs = runs;
                  }
            ]
      ]
]
