-- ===== src/Lib.antt =====
-- The core of agr, which attaches the terminal rows of agterm on a Mac to multiplexer sessions on
-- remote hosts: the names and bindings of those sessions, the bridge to a host and the listener behind
-- it, and the proxy through which a host may call agtermctl on the Mac.
--
-- The supervisor of a bridge (Bridge) keeps one ssh process to each host and backs off between its
-- attempts. What a host sends arrives at its listener (Receiver): status events go to the rows that the
-- bindings give to the host, and a call is handed to the host's calls (Daemon/Calls), which count it in
-- (Daemon/Slots), ask the policy and, for text typed into a foreign pane, the user (Daemon/Consent).
-- An allowed call is run (Daemon/Run). A page of a host is served by the page shim (Daemon/Pages).
--
-- A host sends a call as one header line and a body. The daemon decodes the header within its limits
-- (Proxy/Wire), lets the policy decide (Proxy/Policy) and rewrites an allowed call into the argv that
-- it runs (Proxy/Rewrite, Proxy/Prepare); the output goes back as frames (Proxy/Frames). The policy
-- finds the leaf in the allowlist (Proxy/Leaf, Proxy/Schema), parses its options (Proxy/Argv), checks
-- them (Proxy/Normalise), and then asks the live tree and the bindings what the call may act on
-- (Proxy/Tree, Proxy/Targets, Proxy/Scopes). The store of bindings (Bindings) says which pane belongs
-- to which host and session.
--
-- Files, with the code that each is about:
--   Token, Token/Safe, Token/Key           internal/token/token.go
--   Quote, Quote/Shell                     internal/proxy/quote.go
--   Bindings, Bindings/Distinct, Bindings/Upsert, Bindings/Grants, Bindings/Store and below
--                                          internal/bindings/store.go
--   Proxy/Schema                           internal/proxy/policy.go (the allowlist), argv.go
--   Proxy/Argv and below                   internal/proxy/argv.go (parseArgs)
--   Proxy/Leaf, Proxy/Leaf/Listed          internal/proxy/policy.go (matchLeaf)
--   Proxy/Normalise, Proxy/Normalise/Files internal/proxy/policy.go (normalise, checkOverlayOpen)
--   Proxy/Tree                             internal/agterm/ctl.go (TreeRow), policy.go (attached)
--   Proxy/Targets, Proxy/Targets/Owned     internal/proxy/policy.go (targetRows to wholeRowRefusal)
--   Proxy/Scopes and below                 internal/proxy/policy.go (the three scopes, typeLocal)
--   Proxy/Policy and below                 internal/proxy/policy.go (Authorize, run, load, CheckAgent)
--   Proxy/Typed, Proxy/Typed/Visible       internal/proxy/policy.go (SanitizeTyped, Preview)
--   Proxy/Call, Proxy/Authz                internal/proxy/policy.go (Call, render, the types)
--   Proxy/Wire and below                   internal/proxy/wire.go (DecodeHeader, ReadBody)
--   Proxy/Frames and below                 internal/proxy/wire.go (Frames)
--   Proxy/Rewrite and below                internal/proxy/rewrite.go (sizePage, pickName)
--   Proxy/Prepare, Proxy/Prepare/Opened    internal/proxy/rewrite.go (rewrite and its cases)
--   Handled and below                      internal/handled/store.go
--   Bridge/Backoff and below               internal/bridge/backoff.go
--   Bridge/Supervisor and below            internal/bridge/supervisor.go (Supervisor)
--   Receiver/Lines, Receiver/Connection and below
--                                          internal/receiver/listener.go
--   Receiver/Events and below              internal/receiver/event.go, listener.go (route)
--   Daemon/Slots, Daemon/Calls, Daemon/Run, Daemon/NewRow and below
--                                          internal/daemon/proxy.go
--   Daemon/Consent and below               internal/daemon/consent.go
--   Daemon/Pages and below                 internal/daemon/pageshim.go
--   Daemon/Version and below               internal/agterm/client.go (VersionLess), proxy.go
--   Remote/Sessions, Remote/Probe and below
--                                          internal/remote/sessions.go, probe.go (ParseProbe)
--   Prelude, Result, Text, Int, Utf8       shared helpers, and the Go library functions in use
-- The Tests modules run the definitions and apply the theorems at concrete inputs.
--
-- How the code is modelled. A string is its list of bytes. EqualFold and ToLower fold ASCII
-- letters, which ids are made of. A refusal is a constructor with the values that its message
-- shows. A map is a list, whose file says which entry of a key counts, or a function; the seen and
-- reserved sets are lists. State is passed explicitly: the file of the store is its bytes or
-- nothing, beside its temporary file, and a connection is what was written to it and whether an exit was. A mutex or the file lock makes an
-- operation one step. Loops recurse on their list; the generated names are counted down from the
-- limit of the code, and a write has as much fuel as it has bytes, which is enough since every
-- frame carries one at least.
--
-- Where goroutines share an object (the supervisor, the slots of a host, the page shim), its model is a
-- step relation: each section under the mutex, each send and each receive is a step, and a theorem is
-- about every order of them. A request to the page shim is two steps, before and behind the wait for the
-- id of its page; what each reads in several sections is one look, and the run of one call meets the
-- pages as they are when it looks. What the user, the clock, agterm or the network answers stands in a record
-- beside a call (Answers, Meets, Met, CtlMeets, HttpRequest, Hook); a list of answers may end before the code
-- does, and the result is then `none`, which means that it still waits.
--
-- Parameters: encoding/json, SHA-256, url.Parse, the test for local URLs, the directory of a call's
-- files, what bufio's ReadSlice returns, what rand draws, the search for an id in the output of a
-- command, and whether system calls and the writes of a connection succeed.
--
-- Not modelled: the command line; the daemon's life cycle of hosts, its event loop and its resync; the
-- runner of processes and the ssh runner; the installation on a host; the script in
-- a page; the clipboard; the rest of the agterm client. They are input and output in the main, or are
-- not reached yet. Creating and removing temporary directories is not modelled either.
pub mod Prelude
pub mod Result
pub mod Text
pub mod Token
pub mod Quote
pub mod Bindings
pub mod Utf8
pub mod Proxy
pub mod Int
pub mod Handled
pub mod Bridge
pub mod Daemon
pub mod Receiver
pub mod Remote
