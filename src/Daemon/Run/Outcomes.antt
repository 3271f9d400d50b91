-- ===== src/Daemon/Run/Outcomes.antt =====
-- internal/daemon/proxy.go: what a run may do, the end of a command, and the pages that a call drives.
use agterm_remote.Daemon.Pages.Http.{set_page}
use agterm_remote.Daemon.NewRow.{exec}
use agterm_remote.Daemon.Pages.{transition, page_dismissed, Page, PageError, Shim, open_in_slot}
use agterm_remote.Daemon.Run.{
  Met, Ran, by_page, by_rewrite, close_args, drive_found, drive_shim_page, drive_target,
  driven_page, exits_with, hooked, page_args, pick_shown, refuses, rewritten,
}
use agterm_remote.Int.{negsuc, pos, ℤ}
use agterm_remote.Prelude.{
  Member, here, there, All, if◌then◌else◌, Bool, Bool-cases, List, Option, [], false, if_rule, inl,
  inr, is_nil, none, refl, some, true, ℕ, ◌||◌, ◌∷◌, ◌≡◌, ◌⊎◌,
}
use agterm_remote.Proxy.Call.{Call, Target}
use agterm_remote.Proxy.Rewrite.{Prepared, RewriteError}
use agterm_remote.Result.{err, ok}
use agterm_remote.Text.{Bytes, bytes_eq, bytes_eq_iff, codes}

-- The two cases of a test by `elim`.
elim_rule :
    {A : Type 0} (P : A → Type 0) (b : Bool) (x y : A)
    → (b ≡ true → P x)
    → (b ≡ false → P y)
    → P (elim b [ true ↦ x | false ↦ y ])
elim_rule P true x y t f = t refl
elim_rule P false x y t f = f refl

module _ (m : Met) where
  -- A command behind the main one: the call's cancel hook, or the close of a page that agterm still lists.
  pub data IsBehind (p : Prepared) (argv : List Bytes) : Type 0 where
    cancels : argv ≡ p.cancel → IsBehind p argv
    closes : (q : Page) → argv ≡ close_args q → m.lists q ≡ true → IsBehind p argv

  -- The exit code of a command that was run: its own, where it ended in time by itself; else 1.
  pub data CodeOf (args : List Bytes) (code : ℤ) : Type 0 where
    in_time :
        (n : ℕ) → m.over ≡ false → m.ended args ≡ some (pos n) → code ≡ pos n → CodeOf args code
    not_in_time : m.over ≡ true → code ≡ pos 1 → CodeOf args code
    not_run : m.ended args ≡ none → code ≡ pos 1 → CodeOf args code
    killed : (n : ℕ) → m.ended args ≡ some (negsuc n) → code ≡ pos 1 → CodeOf args code

  -- The open pages of the host in the slot of a target.
  abbrev pub slot : Target → List Page
  slot target = open_in_slot m.origin.host target.row target.side m.shim

  -- What `run` does for a call.
  pub data RunOf (call : Call) (r : Ran) : Type 0 where
    unprepared :
        (e : RewriteError)
        → rewritten m call ≡ err e
        → r.commands ≡ []
        → r.answer ≡ refuses (by_rewrite e)
        → RunOf call r
    unregistered :
        (p : Prepared) (reserved : List Bytes) (e : PageError)
        → rewritten m call ≡ ok (p, reserved)
        → r.commands ≡ []
        → r.answer ≡ refuses (by_page e)
        → RunOf call r
    drove :
        (q : Page) (target : Target)
        → call.targets ≡ target ∷ []
        → Member q (slot target)
        → m.shows q ≡ true
        → (r.commands ≡ []) ⊎ (r.commands ≡ close_args q ∷ []) × (m.lists q ≡ true)
        → r.answer ≡ exits_with (pos 0)
        → (call.leaf ≡ codes "session overlay submit") ⊎ (call.leaf ≡ codes "session overlay close")
        → RunOf call r
    plain :
        (p : Prepared) (reserved : List Bytes) (behind : List (List Bytes)) (code : ℤ)
        → rewritten m call ≡ ok (p, reserved)
        → r.commands ≡ p.args ∷ behind
        → All (λ argv. argv ≡ p.cancel) behind
        → CodeOf p.args code
        → r.answer ≡ exits_with code
        → RunOf call r
    paged :
        (p : Prepared) (reserved : List Bytes) (url : Bytes) (behind : List (List Bytes)) (code : ℤ)
        → rewritten m call ≡ ok (p, reserved)
        → r.commands ≡ page_args m p.args url ∷ behind
        → All (IsBehind p) behind
        → CodeOf (page_args m p.args url) code
        → (r.answer ≡ exits_with (pos 0) → (code ≡ pos 0) × (m.over_later ≡ false))
        → RunOf call r

  pub exec-CodeOf :
      (args : List Bytes) (p : Prepared) (o : Option ℤ) (b : Bool)
      → m.ended args ≡ o
      → m.over ≡ b
      → CodeOf args (exec o b p.cancel).0
  unfolding exec
  exec-CodeOf args p none true e h = not_in_time h refl
  exec-CodeOf args p (some (pos n)) true e h = not_in_time h refl
  exec-CodeOf args p (some (negsuc n)) true e h = not_in_time h refl
  exec-CodeOf args p none false e h = not_run e refl
  exec-CodeOf args p (some (pos n)) false e h = in_time n h e refl
  exec-CodeOf args p (some (negsuc n)) false e h = killed n e refl

  hook-IsHook :
      (cancel : List Bytes)
      → All (λ argv. argv ≡ cancel) (hooked (if is_nil cancel then none else some cancel))
  hook-IsHook [] = tt
  hook-IsHook (c ∷ cancel) = (refl, tt)

  pub exec-hook :
      (cancel : List Bytes) (o : Option ℤ) (b : Bool)
      → All (λ argv. argv ≡ cancel) (hooked (exec o b cancel).1)
  unfolding exec
  exec-hook cancel none true = hook-IsHook cancel
  exec-hook cancel (some (pos n)) true = hook-IsHook cancel
  exec-hook cancel (some (negsuc n)) true = hook-IsHook cancel
  exec-hook cancel none false = tt
  exec-hook cancel (some (pos n)) false = tt
  exec-hook cancel (some (negsuc n)) false = tt

  -- What `driveShimPage` answers with.
  abbrev pub Drove : Call → Option Ran × Shim → Type 0
  Drove call (none, s) = Unit
  Drove call (some r, s) = RunOf call r

  IsDriven : Call → Type 0
  IsDriven call =
      (call.leaf ≡ codes "session overlay submit") ⊎ (call.leaf ≡ codes "session overlay close")

  -- The page that is driven, if one is.
  abbrev Picked : List Page → Option Page → Type 0
  Picked pages none = Unit
  Picked pages (some q) = Member q pages × (m.shows q ≡ true)

  pick_shown-Picked :
      (all_pages pages : List Page) (found : Option Page) (s : Shim)
      → ((p : Page) → Member p pages → Member p all_pages)
      → Picked all_pages found
      → Picked all_pages (pick_shown m pages found s).0
  unfolding pick_shown
  pick_shown-Picked all_pages [] found s i k = k
  pick_shown-Picked all_pages (p ∷ pages) (some q) s i k =
      pick_shown-Picked all_pages pages (some q) _ (λ x h. i x (there h)) k
  pick_shown-Picked all_pages (p ∷ pages) none s i k =
      let t : Shim = record s { pages = set_page (transition page_dismissed [] p).1 s.pages } in
      let taken = pick_shown-Picked all_pages pages (some p) s (λ x h. i x (there h)) in
      let passed = pick_shown-Picked all_pages pages none t (λ x h. i x (there h)) tt in
      elim_rule (λ (r : Option Page × Shim). Picked all_pages r.0) (m.shows p) _ _
        (λ e. taken (i p here, e)) (λ _. passed)

  driven-RunOf :
      (call : Call) (target : Target) (q : Page) (t : Bool × Page) (s : Shim)
      → IsDriven call
      → call.targets ≡ target ∷ []
      → Picked (slot target) (some q)
      → RunOf call (driven_page m q t s)
  unfolding IsDriven
  driven-RunOf call target q (false, r) s l e (i, k) = drove q target e i k (inl refl) refl l
  driven-RunOf call target q (true, r) s l e (i, k) =
      drove q target e i k
        (if_rule
          (λ (c : List (List Bytes)). (c ≡ []) ⊎ (c ≡ close_args q ∷ []) × (m.lists q ≡ true))
          (m.lists q) (close_args q ∷ []) [] (λ d. inr (refl, d)) (λ _. inl refl))
        refl l

  drive_found-Drove :
      (call : Call) (target : Target) (o : Option Page × Shim)
      → IsDriven call
      → call.targets ≡ target ∷ []
      → Picked (slot target) o.0
      → Drove call (drive_found m call o)
  drive_found-Drove call target (none, s) l e k = tt
  drive_found-Drove call target (some q, s) l e k = driven-RunOf call target q _ s l e k

  drive_target-Drove :
      (call : Call) (targets : List Target)
      → IsDriven call
      → call.targets ≡ targets
      → Drove call (drive_target m call targets)
  drive_target-Drove call [] l e = tt
  drive_target-Drove call (t ∷ []) l e =
      drive_found-Drove call t (pick_shown m (slot t) none m.shim) l e
        (pick_shown-Picked (slot t) (slot t) none m.shim (λ p h. h) tt)
  drive_target-Drove call (t ∷ u ∷ targets) l e = tt

  leaf-IsDriven :
      (call : Call)
      → (bytes_eq call.leaf (codes "session overlay submit")
          || bytes_eq call.leaf (codes "session overlay close"))
        ≡ true
      → IsDriven call
  unfolding IsDriven
  leaf-IsDriven call h = elim (Bool-cases (bytes_eq call.leaf (codes "session overlay submit"))) [
    | inl e ↦ inl ((bytes_eq_iff call.leaf (codes "session overlay submit")).0 e)
    | inr n ↦ inr ((bytes_eq_iff call.leaf (codes "session overlay close")).0 (rw n at h))
  ]

  pub drive-Drove : (call : Call) → Drove call (drive_shim_page m call)
  unfolding drive_shim_page
  drive-Drove call =
      if_rule (Drove call) _ (drive_target m call call.targets) (none, m.shim)
        (λ h. drive_target-Drove call call.targets (leaf-IsDriven call h) refl) (λ _. tt)
