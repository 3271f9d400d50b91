-- ===== src/Daemon/Run.antt =====
-- internal/daemon/proxy.go: `run`, from the rewrite of an allowed call to its exit code, with every command
-- of agtermctl on the way. Rewrite is that of Proxy/Prepare, `exec` that of Daemon/NewRow, and the pages
-- are those of Daemon/Pages.
pub mod Outcomes
pub mod Commands
mod Tests
use agterm_remote.Daemon.NewRow.{exec}
use agterm_remote.Daemon.Pages.{
  Page, PageError, Shim, bind, open_in_slot, outcome, page_dismissed, page_submitted, register,
  release, transition,
}
use agterm_remote.Daemon.Pages.Http.{set_page}
use agterm_remote.Int.{negsuc, pos, ℤ}
use agterm_remote.Prelude.{
  Bool, List, Option, [], false, if◌then◌else◌, is_nil, none, not, some, suc, true, zero, ℕ, ◌&&◌,
  ◌++◌, ◌||◌, ◌∷◌,
}
use agterm_remote.Proxy.Call.{Call, Opt, Target}
use agterm_remote.Proxy.Prepare.{last_value, rewrite}
use agterm_remote.Proxy.Rewrite
use agterm_remote.Proxy.Rewrite.{Env, NewRow, Origin, Prepared, RewriteError}
use agterm_remote.Result.{Result, err, ok}
use agterm_remote.Text.{Bytes, bytes_eq, codes, contains}

-- What `run` meets: what the rewrite reads; the shim with the token and the listener that a new page
-- would get; which page agterm shows (`current`) and which it still lists when its overlay is closed; how
-- a command ends; whether the context of the call is over when it ended, and when `runPage` looks again;
-- the page id in its reply; whether the host still tracks a watcher; and the page as the wait for it leaves it, `none` where the context ends first.
pub record Met : Type 0 where
  pub is_local : Bytes → Bool
  pub dir : Bytes
  pub env : Env
  pub origin : Origin
  pub reserved : List Bytes
  pub shim : Shim
  pub token : Option Bytes
  pub listens : Option Bytes
  pub shows : Page → Bool
  pub lists : Page → Bool
  pub ended : List Bytes → Option ℤ
  pub over : Bool
  pub over_later : Bool
  pub page_id : Bytes
  pub tracks : Bool
  pub waited : Page → Option Page

pub data RunRefusal : Type 0 where
  by_rewrite : RewriteError → RunRefusal
  by_page : PageError → RunRefusal
  no_page_id : RunRefusal

pub data RunAnswer : Type 0 where
  refuses : RunRefusal → RunAnswer
  exits_with : ℤ → RunAnswer

-- The commands in their order, the answer, the row that is handed to `preBind`, and the shim that is left.
pub record Ran : Type 0 where
  pub commands : List (List Bytes)
  pub answer : RunAnswer
  pub binds : Option NewRow
  pub shim : Shim

abbrev pub is_zero : ℤ → Bool
is_zero (pos zero) = true
is_zero _ = false

-- `cancelHook`
abbrev pub hook : List Bytes → List (List Bytes)
hook argv = if is_nil argv then [] else argv ∷ []

abbrev pub hooked : Option (List Bytes) → List (List Bytes)
hooked none = []
hooked (some argv) = argv ∷ []

-- The argv of `closePageOverlay`.
unfoldable pub close_args : Page → List Bytes
close_args p =
    codes "session"
    ∷ codes "overlay"
    ∷ codes "close"
    ∷ (codes "--target=" ++ p.row)
    ∷ (if is_nil p.side then [] else (codes "--pane=" ++ p.side) ∷ [])

module _ (m : Met) where
  -- `closePageOverlay`
  abbrev pub close_overlay : Page → List (List Bytes)
  close_overlay p = if m.lists p then close_args p ∷ [] else []

  abbrev pub code_of : List Bytes → Prepared → ℤ
  code_of args p = (exec (m.ended args) m.over p.cancel).0

  -- The commands of `exec`.
  abbrev pub commands_of : List Bytes → Prepared → List (List Bytes)
  commands_of args p = args ∷ hooked (exec (m.ended args) m.over p.cancel).1

  -- `run` behind the pages: `exec`, or `runNewRow`, which hands the row to `preBind` behind a success.
  unfoldable pub run_plain : Prepared → Ran
  run_plain p = record {
    commands = commands_of p.args p;
    answer = exits_with (code_of p.args p);
    binds = if is_zero (code_of p.args p) then p.new_row else none;
    shim = m.shim;
  }

  -- The loop of `driveShimPage`: the first page that agterm shows; every other one is dismissed.
  unfoldable pub pick_shown : List Page → Option Page → Shim → Option Page × Shim
  pick_shown [] found s = (found, s)
  pick_shown (p ∷ pages) (some q) s =
      pick_shown pages (some q)
        (record s { pages = set_page (transition page_dismissed [] p).1 s.pages })
  pick_shown (p ∷ pages) none s = elim (m.shows p) [
    | true ↦ pick_shown pages (some p) s
    | false ↦
        pick_shown pages none
          (record s { pages = set_page (transition page_dismissed [] p).1 s.pages })
  ]

  abbrev pub driven_page : Page → Bool × Page → Shim → Ran
  driven_page p (did, q) s = record {
    commands = if did then close_overlay p else [];
    answer = exits_with (pos 0);
    binds = none;
    shim = if did then record s { pages = set_page q s.pages } else s;
  }

  abbrev pub drive_found : Call → Option Page × Shim → Option Ran × Shim
  drive_found call (none, s) = (none, s)
  drive_found call (some p, s) =
      let submits = bytes_eq call.leaf (codes "session overlay submit") in
      (
        some (
            driven_page p
              (transition (if submits then page_submitted else page_dismissed)
                (if submits then last_value (codes "value") [] call.opts else []) p)
              s),
        s,
      )

  abbrev pub drive_target : Call → List Target → Option Ran × Shim
  drive_target call (target ∷ []) =
      drive_found call
        (pick_shown (open_in_slot m.origin.host target.row target.side m.shim) none m.shim)
  drive_target call _ = (none, m.shim)

  -- `driveShimPage`: its result where it handles the call, and the shim where it does not.
  unfoldable pub drive_shim_page : Call → Option Ran × Shim
  drive_shim_page call =
      if bytes_eq call.leaf (codes "session overlay submit")
        || bytes_eq call.leaf (codes "session overlay close")
      then drive_target call call.targets
      else (none, m.shim)

  abbrev pub page_url : Option Bytes → Page → Bytes
  page_url none p = []
  page_url (some addr) p = codes "http://" ++ (addr ++ b'/' ∷ (p.token ++ b'/' ∷ []))

  -- The argv of a page.
  unfoldable pub page_args : List Bytes → Bytes → List Bytes
  page_args args url =
      let opens = args ++ (codes "--url=" ++ url) ∷ codes "--js" ∷ [] in
      if contains opens (codes "--json") then opens else opens ++ codes "--json" ∷ []

  -- `runPage` behind the wait.
  abbrev pub waited_page : Prepared → List (List Bytes) → Page → Shim → Option Page → Ran
  waited_page p done page s none = record {
    commands = done ++ hook p.cancel;
    answer = exits_with (pos 1);
    binds = none;
    shim = release page s;
  }
  waited_page p done page s (some q) = record {
    commands = done ++ close_overlay q;
    answer = exits_with (pos (outcome q).0);
    binds = none;
    shim = release q s;
  }

  -- Behind the command, where agterm opened the page in time.
  abbrev pub bound_page : Prepared → List (List Bytes) → Bool → Page → Shim → Ran
  bound_page p done blocks page s =
      let t : Shim = record s { pages = set_page page s.pages } in
      if blocks then waited_page p done page t (m.waited page) else record {
        commands = done;
        answer = exits_with (pos 0);
        binds = none;
        shim = if m.tracks then t else release page t;
      }

  abbrev pub at_least_one : ℤ → ℤ
  at_least_one (pos zero) = pos 1
  at_least_one code = code

  abbrev pub opened_page : Prepared → List (List Bytes) → ℤ → Bool → Page → Shim → Ran
  opened_page p done code blocks page s =
      if not (is_zero code) || m.over || m.over_later
      then record {
        commands = done ++ (if is_zero code then hook p.cancel else []);
        answer = exits_with (at_least_one code);
        binds = none;
        shim = release page s;
      }
      else if is_nil m.page_id
      then record {
        commands = done;
        answer = refuses no_page_id;
        binds = none;
        shim = release page s;
      }
      else bound_page p done blocks (bind m.page_id page) s

  abbrev pub registered_page : Prepared → Bool → Result PageError (Page × Shim) → Ran
  registered_page p blocks (err e) = record {
    commands = [];
    answer = refuses (by_page e);
    binds = none;
    shim = m.shim;
  }
  registered_page p blocks (ok (page, s)) =
      let args = page_args p.args (page_url s.addr page) in
      opened_page p (commands_of args p) (code_of args p) blocks page s

  -- `runPage`
  unfoldable pub run_page : Prepared → Rewrite.Page → Ran
  run_page p page =
      registered_page p page.block
        (register m.token m.listens m.origin.host page.row page.side page.file m.dir m.shim)

  abbrev pub run_unpaged : Prepared → Option Ran × Shim → Ran
  run_unpaged p (some r, s) = r
  run_unpaged p (none, s) = record (run_plain p) { shim = s }

  abbrev pub run_prepared : Call → Prepared → Option Rewrite.Page → Ran
  run_prepared call p (some page) = run_page p page
  run_prepared call p none = run_unpaged p (drive_shim_page call)

  abbrev pub rewritten : Call → Result RewriteError (Prepared × List Bytes)
  rewritten call = rewrite m.is_local m.dir m.env m.origin m.reserved call

  abbrev pub run_rewritten : Call → Result RewriteError (Prepared × List Bytes) → Ran
  run_rewritten call (err e) = record {
    commands = [];
    answer = refuses (by_rewrite e);
    binds = none;
    shim = m.shim;
  }
  run_rewritten call (ok (p, reserved)) = run_prepared call p p.page

  -- `run`
  unfoldable pub run : Call → Ran
  run call = run_rewritten call (rewritten call)
