-- ===== src/Daemon/NewRow/Tests.antt =====
-- Tests of the binding of a new row, and its theorem at a row that the second read shows.
use agterm_remote.Bindings.{Binding}
use agterm_remote.Daemon.NewRow.{
  Attempt, context_over, exec, find_pane, pre_bind, scan_rows, scan_surfaces,
}
use agterm_remote.Daemon.NewRow.Bound.{IsNewBinding, pre_bind-IsNewBinding}
use agterm_remote.Int.{pos}
use agterm_remote.Prelude.{List, [], false, none, refl, some, true, ◌∷◌, ◌≡◌}
use agterm_remote.Proxy.Tree.{TreeRow}
use agterm_remote.Result.{err}
use agterm_remote.Text.{bytes_eq, codes}

abbrev new_row : TreeRow
new_row = record {
  id = codes "R9";
  name = codes "api";
  surfaces = (record { kind = codes "left"; pane_id = codes "p9"; visible = true }) ∷ [];
  has_split = false;
  foreground = [];
  foreground_shell = [];
  split_foreground = [];
  split_foreground_shell = [];
}

abbrev tries : List Attempt
tries = (false, some []) ∷ (false, some (new_row ∷ [])) ∷ []

abbrev made : Binding
made = record {
  row = codes "R9";
  pane_id = codes "p9";
  pane = codes "left";
  host = codes "dev";
  name = codes "api";
  mux = codes "tmux";
  bound_at = 7;
  grants = none;
}

-- The context ends in the wait before the second read.
ended_test :
    pre_bind
      (codes "dev")
      (codes "api")
      (codes "tmux")
      7
      (codes "r9")
      ((false, none) ∷ (true, none) ∷ [])
    ≡ some (err context_over)
unfolding pre_bind find_pane
ended_test = refl

exec_test :
    (exec (some (pos 3)) false [] ≡ (pos 3, none))
    × (exec (some (pos 0)) true (codes "x" ∷ []) ≡ (pos 1, some (codes "x" ∷ [])))
unfolding exec
exec_test = (refl, refl)

pre_bind-IsNewBinding_example :
    IsNewBinding (codes "dev") (codes "api") (codes "tmux") 7 (codes "r9") tries made
unfolding pre_bind find_pane scan_rows scan_surfaces bytes_eq
pre_bind-IsNewBinding_example =
    pre_bind-IsNewBinding (codes "dev") (codes "api") (codes "tmux") 7 (codes "r9") tries refl
