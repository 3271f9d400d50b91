-- ===== src/Bridge/Supervisor/Ssh.antt =====
-- internal/bridge/supervisor.go: the commands of ssh, and the failure that its log shows. Paths and
-- the log's contents come from the caller; `none` is a log that cannot be read.
-- What names a tunnel.
use agterm_remote.Prelude.{
  Bool, List, Option, [], ap, append_assoc, arith, drop, false, if◌then◌else◌, is_nil, length, none,
  refl, some, suc, sym, take, true, zero, ℕ, ◌++◌, ◌||◌, ◌∙◌, ◌∷◌, ◌≡◌, ◌≤◌,
}
use agterm_remote.Proxy.Frames.{after}
use agterm_remote.Quote.{escape_quotes, quote}
use agterm_remote.Quote.Shell.{shell_words, shell_words-rm}
use agterm_remote.Text.{Bytes, codes, starts_with}

pub record Tunnel : Type 0 where
  pub host : Bytes
  pub remote_sock : Bytes
  pub local_sock : Bytes
  pub ssh_path : Bytes
  pub log_path : Bytes

unfoldable pub shell_quote : Bytes → Bytes
unfolding escape_quotes
shell_quote word = b'\'' ∷ (escape_quotes word ++ b'\'' ∷ [])

unfoldable pub batch_options : List Bytes
batch_options =
    codes "-o"
    ∷ codes "BatchMode=yes"
    ∷ codes "-o"
    ∷ codes "ControlMaster=no"
    ∷ codes "-o"
    ∷ codes "ControlPath=none"
    ∷ []

-- The argv of `start`.
unfoldable pub start_argv : Tunnel → List Bytes
unfolding batch_options
start_argv t =
    t.ssh_path
    ∷ codes "-N"
    ∷ (batch_options
        ++ codes "-o"
          ∷ codes "ExitOnForwardFailure=yes"
          ∷ codes "-o"
          ∷ codes "StreamLocalBindUnlink=yes"
          ∷ codes "-o"
          ∷ codes "ServerAliveInterval=15"
          ∷ codes "-o"
          ∷ codes "ServerAliveCountMax=2"
          ∷ codes "-R"
          ∷ (t.remote_sock ++ b':' ∷ t.local_sock)
          ∷ t.host
          ∷ [])

unfoldable pub reclaim_command : Bytes → Bytes
unfolding shell_quote
reclaim_command sock = codes "rm -f -- " ++ shell_quote sock

-- The argv of `reclaimRemoteSocket`.
unfoldable pub reclaim_argv : Tunnel → List Bytes
unfolding batch_options reclaim_command
reclaim_argv t =
    t.ssh_path
    ∷ (batch_options
        ++ codes "-o"
          ∷ codes "ConnectTimeout=10"
          ∷ t.host
          ∷ codes "--"
          ∷ reclaim_command t.remote_sock
          ∷ [])

unfoldable pub forward_failure : Bytes
forward_failure = codes "remote port forwarding failed for listen path "

abbrev pub forward_failure_scan : ℕ
forward_failure_scan = 65536

-- `bytes.Contains`
unfoldable pub has_infix : Bytes → Bytes → Bool
has_infix [] p = starts_with [] p
has_infix (c ∷ s) p = starts_with (c ∷ s) p || has_infix s p

unfoldable pub forward_failed : Tunnel → ℕ → Option Bytes → Bool
unfolding has_infix forward_failure
forward_failed t offset none = false
forward_failed t offset (some log) =
    if is_nil t.log_path || is_nil t.remote_sock
    then false
    else has_infix (take forward_failure_scan (drop offset log)) (forward_failure ++ t.remote_sock)

starts_with-append : (p s : Bytes) → starts_with (p ++ s) p ≡ true
starts_with-append [] s = refl
starts_with-append (x ∷ p) s = ground (arith, starts_with-append p s)

has_infix-prefix : (p s : Bytes) → has_infix (p ++ s) p ≡ true
unfolding has_infix
has_infix-prefix [] [] = refl
has_infix-prefix [] (y ∷ s) = refl
has_infix-prefix (x ∷ p) s = rw (starts_with-append (x ∷ p) s) refl

has_infix-append : (a p s : Bytes) → has_infix (a ++ (p ++ s)) p ≡ true
unfolding has_infix
has_infix-append [] p s = has_infix-prefix p s
has_infix-append (x ∷ a) p s = ground (arith, has_infix-append a p s)

drop-append : (a b : Bytes) → drop (length a) (a ++ b) ≡ b
drop-append [] b = refl
drop-append (x ∷ a) b = drop-append a b

take-append : (n : ℕ) (a b : Bytes) → length a ≤ n → (rest : Bytes) × (take n (a ++ b) ≡ a ++ rest)
take-append n [] b h = (take n b, refl)
take-append zero (x ∷ a) b h = absurd (omega (arith, h))
take-append (suc n) (x ∷ a) b h =
    let (rest, e) = take-append n a b (omega (arith, h)) in (rest, ap (λ l. x ∷ l) e)

seen :
    (n : ℕ) (old before mark after : Bytes)
    → length (before ++ mark) ≤ n
    → has_infix (take n (drop (length old) (old ++ (before ++ (mark ++ after))))) mark ≡ true
seen n old before mark after h =
    let (rest, e) = take-append n (before ++ mark) after h in
    ap (λ l. has_infix (take n l) mark) (drop-append old (before ++ (mark ++ after)))
    ∙ ap (λ l. has_infix (take n l) mark) (sym (append_assoc before mark after))
    ∙ ap (λ l. has_infix l mark) (e ∙ append_assoc before mark rest)
    ∙ has_infix-append before mark rest

-- Where a run of ssh logs that its socket's path could not be bound, within the first 64 KiB of what
-- it logs, the failure is seen, and the remote shell reads the command that then reclaims the socket
-- as the removal of exactly that path, whatever bytes the path holds.
pub forward_failed-reclaimed :
    (t : Tunnel) (old before after : Bytes)
    → is_nil t.log_path ≡ false
    → is_nil t.remote_sock ≡ false
    → length (before ++ (forward_failure ++ t.remote_sock)) ≤ forward_failure_scan
    → (forward_failed t
          (length old)
          (some (old ++ (before ++ ((forward_failure ++ t.remote_sock) ++ after))))
        ≡ true)
      × (shell_words (reclaim_command t.remote_sock)
          ≡ some (codes "rm" ∷ codes "-f" ∷ codes "--" ∷ t.remote_sock ∷ []))
unfolding forward_failed reclaim_command shell_quote quote
forward_failed-reclaimed t old before after l r h = (
  rw (l, r) (seen forward_failure_scan old before (forward_failure ++ t.remote_sock) after h),
  shell_words-rm t.remote_sock,
)
