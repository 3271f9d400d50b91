-- ===== src/Daemon/Run/Commands.antt =====
-- internal/daemon/proxy.go: the commands that `run` runs for a call, and what it answers.
use agterm_remote.Daemon.Run.Outcomes.{
  Drove, IsBehind, RunOf, cancels, closes, drive-Drove, exec-CodeOf, exec-hook, paged, plain,
  unprepared, unregistered,
}
use agterm_remote.Daemon.NewRow.{exec}
use agterm_remote.Daemon.Pages.{Page, PageError, Shim, bind, register}
use agterm_remote.Daemon.Run.{
  Met, Ran, RunAnswer, at_least_one, bound_page, close_args, close_overlay, code_of, commands_of,
  drive_shim_page, exits_with, hook, hooked, is_zero, opened_page, page_args, page_url, refuses,
  registered_page, rewritten, run, run_page, run_plain, run_prepared, run_rewritten, run_unpaged,
  waited_page,
}
use agterm_remote.Int.{negsuc, pos, ℤ}
use agterm_remote.Prelude.{
  All, All-append, All-map, ap, append-nil, if◌then◌else◌, Bool, List, Option, [], arith, false,
  if_rule, is_nil, none, not, refl, some, suc, sym, true, zero, ◌++◌, ◌||◌, ◌∷◌, ◌≡◌,
}
use agterm_remote.Proxy.Call.{Call}
use agterm_remote.Proxy.Rewrite
use agterm_remote.Proxy.Rewrite.{Prepared, RewriteError}
use agterm_remote.Result.{Result, err, ok}
use agterm_remote.Text.{Bytes}
use mathlib.Core.Bool.{false≢true}

is_zero-pos : (code : ℤ) → is_zero code ≡ true → code ≡ pos 0
is_zero-pos (pos zero) e = refl
is_zero-pos (pos (suc n)) e = absurd (false≢true e)
is_zero-pos (negsuc n) e = absurd (false≢true e)

abbrev exit_of : RunAnswer → ℤ
exit_of (refuses e) = negsuc 0
exit_of (exits_with code) = code

at_least_one-pos : (m : Met) (code : ℤ) → exits_with (at_least_one m code) ≡ exits_with (pos 0) → ⊥
at_least_one-pos m (pos zero) e = absurd (false≢true (ap (λ x. is_zero (exit_of x)) e))
at_least_one-pos m (pos (suc n)) e = absurd (false≢true (ap (λ x. is_zero (exit_of x)) e))
at_least_one-pos m (negsuc n) e = absurd (false≢true (ap (λ x. is_zero (exit_of x)) e))

module _ (m : Met) where
  run_unpaged-RunOf :
      (call : Call) (p : Prepared) (reserved : List Bytes) (o : Option Ran × Shim)
      → rewritten m call ≡ ok (p, reserved)
      → Drove m call o
      → RunOf m call (run_unpaged m p o)
  unfolding run_plain
  run_unpaged-RunOf call p reserved (some r, s) e d = d
  run_unpaged-RunOf call p reserved (none, s) e d =
      plain p reserved (hooked (exec (m.ended p.args) m.over p.cancel).1) (code_of m p.args p) e
        refl (exec-hook m p.cancel (m.ended p.args) m.over)
        (exec-CodeOf m p.args p (m.ended p.args) m.over refl refl) refl

  module _ (call : Call) (p : Prepared) (reserved : List Bytes) (url : Bytes)
      (e : rewritten m call ≡ ok (p, reserved)) where
    args : List Bytes
    args = page_args m p.args url

    -- A page's run with these commands behind those of `exec`.
    paged_with :
        (r : Ran) (more : List (List Bytes))
        → r.commands ≡ commands_of m args p ++ more
        → All (IsBehind m p) more
        → (r.answer ≡ exits_with (pos 0) → (code_of m args p ≡ pos 0) × (m.over_later ≡ false))
        → RunOf m call r
    unfolding args
    paged_with r more c b z =
        let hooks = hooked (exec (m.ended args) m.over p.cancel).1 in
        paged p reserved url (hooks ++ more) (code_of m args p) e c
          (All-append (IsBehind m p) hooks more
            (All-map (λ argv h. cancels h) hooks (exec-hook m p.cancel (m.ended args) m.over)) b)
          (exec-CodeOf m args p (m.ended args) m.over refl refl) z

    hook-IsBehind : All (IsBehind m p) (hook p.cancel)
    hook-IsBehind =
        if_rule (All (IsBehind m p)) (is_nil p.cancel) [] (p.cancel ∷ []) (λ _. tt)
          (λ _. (cancels refl, tt))

    close-IsBehind : (q : Page) → All (IsBehind m p) (close_overlay m q)
    close-IsBehind q =
        if_rule (All (IsBehind m p)) (m.lists q) (close_args q ∷ []) [] (λ l. (closes q refl l, tt))
          (λ _. tt)

    waited_page-RunOf :
        (page : Page) (s : Shim) (o : Option Page)
        → (code_of m args p ≡ pos 0) × (m.over_later ≡ false)
        → RunOf m call (waited_page m p (commands_of m args p) page s o)
    waited_page-RunOf page s none z = paged_with _ (hook p.cancel) refl hook-IsBehind (λ _. z)
    waited_page-RunOf page s (some q) z =
        paged_with _ (close_overlay m q) refl (close-IsBehind q) (λ _. z)

    bound_page-RunOf :
        (blocks : Bool) (page : Page) (s : Shim)
        → (code_of m args p ≡ pos 0) × (m.over_later ≡ false)
        → RunOf m call (bound_page m p (commands_of m args p) blocks page s)
    bound_page-RunOf true page s z = waited_page-RunOf page _ (m.waited page) z
    bound_page-RunOf false page s z =
        paged_with _ [] (sym (append-nil (commands_of m args p))) tt (λ _. z)

    opened_page-RunOf :
        (blocks : Bool) (page : Page) (s : Shim)
        → RunOf m call (opened_page m p (commands_of m args p) (code_of m args p) blocks page s)
    opened_page-RunOf blocks page s =
        let code = code_of m args p in
        if_rule (RunOf m call) (not (is_zero code) || m.over || m.over_later) _ _
          (λ _.
            paged_with _ (if is_zero code then hook p.cancel else []) refl
              (if_rule (All (IsBehind m p)) (is_zero code) (hook p.cancel) [] (λ _. hook-IsBehind)
                (λ _. tt))
              (λ h. absurd (at_least_one-pos m code h)))
          (λ n.
            let z : (code ≡ pos 0) × (m.over_later ≡ false) =
              (is_zero-pos code (ground (arith, n)), ground (arith, n)) in
            if_rule (RunOf m call) (is_nil m.page_id) _ _
              (λ _. paged_with _ [] (sym (append-nil (commands_of m args p))) tt (λ _. z))
              (λ _. bound_page-RunOf blocks (bind m.page_id page) s z))

  registered_page-RunOf :
      (call : Call) (p : Prepared) (reserved : List Bytes) (blocks : Bool)
      (o : Result PageError (Page × Shim))
      → rewritten m call ≡ ok (p, reserved)
      → RunOf m call (registered_page m p blocks o)
  unfolding args
  registered_page-RunOf call p reserved blocks (err x) e = unregistered p reserved x e refl refl
  registered_page-RunOf call p reserved blocks (ok (page, s)) e =
      opened_page-RunOf call p reserved (page_url m s.addr page) e blocks page s

  run_prepared-RunOf :
      (call : Call) (p : Prepared) (reserved : List Bytes) (o : Option Rewrite.Page)
      → rewritten m call ≡ ok (p, reserved)
      → RunOf m call (run_prepared m call p o)
  unfolding run_page
  run_prepared-RunOf call p reserved none e =
      run_unpaged-RunOf call p reserved (drive_shim_page m call) e (drive-Drove m call)
  run_prepared-RunOf call p reserved (some page) e =
      registered_page-RunOf call p reserved page.block
        (register m.token m.listens m.origin.host page.row page.side page.file m.dir m.shim) e

  run_rewritten-RunOf :
      (call : Call) (o : Result RewriteError (Prepared × List Bytes))
      → rewritten m call ≡ o
      → RunOf m call (run_rewritten m call o)
  run_rewritten-RunOf call (err x) e = unprepared x e refl refl
  run_rewritten-RunOf call (ok (p, reserved)) e = run_prepared-RunOf call p reserved p.page e

  pub run-RunOf : (call : Call) → RunOf m call (run m call)
  unfolding run
  run-RunOf call = run_rewritten-RunOf call (rewritten m call) refl
