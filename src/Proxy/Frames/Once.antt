-- ===== src/Proxy/Frames/Once.antt =====
-- internal/proxy/wire.go: sequences of writes, exits and refusals on one connection.
use Prim.Native.Char.{code}
use agterm_remote.Int.{pos, ℤ}
use mathlib.Core.Bool.{false≢true}
use agterm_remote.Prelude.{
  All, Bool, List, Option, [], false, if_rule, none, refl, some, subst, sym, true, ℕ, ◌∙◌, ◌∷◌, ◌≡◌,
}
use agterm_remote.Proxy.Frames.{
  FrameError, Frames, frames_closed, exit, exit_bytes, frame, frame_bytes, reason_bytes, refuse,
  then_exit, written,
}
use agterm_remote.Text.{Bytes}

-- `Stdout` and `Stderr`, with the kind of their frames.
pub data Stream : Type 0 where
  stdout stderr : Stream

abbrev pub kind_of : Stream → ℕ
kind_of stdout = b'o'
kind_of stderr = b'e'

-- What may happen on the connection of a call, in any order and from any goroutine.
pub data FrameOp : Type 0 where
  write_op : Stream → Bytes → FrameOp
  exit_op : ℤ → FrameOp
  refuse_op : Bytes → FrameOp

-- One `Write` of the connection: what it was given, and, where it failed, how many bytes arrived.
abbrev pub Sent : Type 0
Sent = Bytes × Option ℕ

-- The connection: its writes, the last first, and how the next ones end. A write whose end is not
-- listed succeeds.
pub record Conn : Type 0 where
  pub writes : List Sent
  pub ends : List (Option ℕ)

abbrev pub sending_to : List Sent → Bytes → List (Option ℕ) → Conn × Bool
sending_to log buf [] = (record { writes = (buf, none) ∷ log; ends = [] }, true)
sending_to log buf (none ∷ ends) = (record { writes = (buf, none) ∷ log; ends = ends }, true)
sending_to log buf (some n ∷ ends) = (record { writes = (buf, some n) ∷ log; ends = ends }, false)

abbrev pub sending : Conn → Bytes → Conn × Bool
sending c buf = sending_to c.writes buf c.ends

abbrev pub apply : FrameOp → Frames Conn → Frames Conn
apply (write_op stream payload) f = (frame sending (kind_of stream) payload f).0
apply (exit_op code) f = (exit sending code f).0
apply (refuse_op reason) f = (refuse sending reason f).0

abbrev pub run_ops : List FrameOp → Frames Conn → Frames Conn
run_ops [] f = f
run_ops (op ∷ ops) f = run_ops ops (apply op f)

-- A write of an `o` or an `e` frame.
abbrev pub IsFrame : Sent → Type 0
IsFrame sent =
    (stream : Stream) × (payload : Bytes) × (sent.0 ≡ frame_bytes (kind_of stream) payload)

-- Only data frames are written; or one exit frame is, behind them.
pub data OneExit (f : Frames Conn) : Type 0 where
  running : f.exited ≡ false → All IsFrame f.w.writes → OneExit f
  exited_with :
      (code : ℤ) (ended : Option ℕ) (log : List Sent)
      → f.exited ≡ true
      → f.w.writes ≡ (exit_bytes code, ended) ∷ log
      → All IsFrame log
      → OneExit f

abbrev Written : Conn → Bytes → Conn → Type 0
Written c buf d = (ended : Option ℕ) × (d.writes ≡ (buf, ended) ∷ c.writes)

sending_to-Written :
    (c : Conn) (buf : Bytes) (ends : List (Option ℕ))
    → Written c buf (sending_to c.writes buf ends).0
sending_to-Written c buf [] = (none, refl)
sending_to-Written c buf (none ∷ ends) = (none, refl)
sending_to-Written c buf (some n ∷ ends) = (some n, refl)

written-w : (f : Frames Conn) (r : Conn × Bool) → (written sending f r).0 ≡ record f { w = r.0 }
written-w f (w, true) = refl
written-w f (w, false) = refl

framed :
    (stream : Stream) (payload : Bytes) (f : Frames Conn) (d : Conn)
    → f.exited ≡ false
    → All IsFrame f.w.writes
    → Written f.w (frame_bytes (kind_of stream) payload) d
    → OneExit (record f { w = d })
framed stream payload f d x l (ended, e) = running x (rw e ((stream, payload, refl), l))

-- While no exit was written, the writes are data frames.
open_frames : (f : Frames Conn) → f.exited ≡ false → OneExit f → All IsFrame f.w.writes
open_frames f x (running y l) = l
open_frames f x (exited_with c ended log y e l) = absurd (false≢true (sym x ∙ y))

frame-OneExit :
    (stream : Stream) (payload : Bytes) (f : Frames Conn)
    → OneExit f
    → OneExit (frame sending (kind_of stream) payload f).0
unfolding frame
frame-OneExit stream payload f o =
    let buf = frame_bytes (kind_of stream) payload in
    if_rule (λ (x : Frames Conn × Option FrameError). OneExit x.0) f.exited (f, some frames_closed)
      (written sending f (sending f.w buf)) (λ _. o)
      (λ x. subst OneExit (sym (written-w f (sending f.w buf))) (
        framed stream payload f (sending f.w buf).0 x (open_frames f x o)
          (sending_to-Written f.w buf f.w.ends)))

closed_with :
    (code : ℤ) (f : Frames Conn) (d : Conn)
    → All IsFrame f.w.writes
    → Written f.w (exit_bytes code) d
    → OneExit (record f { exited = true; w = d })
closed_with code f d l (ended, e) = exited_with code ended f.w.writes refl e l

exit-OneExit : (code : ℤ) (f : Frames Conn) → OneExit f → OneExit (exit sending code f).0
unfolding exit
exit-OneExit code f o =
    let buf = exit_bytes code in
    if_rule (λ (x : Frames Conn × Option FrameError). OneExit x.0) f.exited (f, some frames_closed)
      (written sending (record f { exited = true }) (sending f.w buf)) (λ _. o)
      (λ x. subst OneExit (sym (written-w (record f { exited = true }) (sending f.w buf))) (
        closed_with code f (sending f.w buf).0 (open_frames f x o)
          (sending_to-Written f.w buf f.w.ends)))

then_exit-OneExit :
    (out : Frames Conn × Option FrameError) → OneExit out.0 → OneExit (then_exit sending out).0
then_exit-OneExit (g, some e) o = o
then_exit-OneExit (g, none) o = exit-OneExit (pos 1) g o

refuse-OneExit :
    (reason : Bytes) (f : Frames Conn) → OneExit f → OneExit (refuse sending reason f).0
unfolding refuse
refuse-OneExit reason f o =
    let payload = reason_bytes sending reason in
    then_exit-OneExit (frame sending b'e' payload f) (frame-OneExit stderr payload f o)

apply-OneExit : (op : FrameOp) (f : Frames Conn) → OneExit f → OneExit (apply op f)
apply-OneExit (write_op stream payload) f o = frame-OneExit stream payload f o
apply-OneExit (exit_op code) f o = exit-OneExit code f o
apply-OneExit (refuse_op reason) f o = refuse-OneExit reason f o

run_ops-keeps : (ops : List FrameOp) (f : Frames Conn) → OneExit f → OneExit (run_ops ops f)
run_ops-keeps [] f o = o
run_ops-keeps (op ∷ ops) f o = run_ops-keeps ops (apply op f) (apply-OneExit op f o)

-- Whatever is written, refused and reported on the connection of one call, in any order, and however
-- each write of the connection ends, whole or broken off after any number of bytes: the frames that
-- are written are `o` and `e` frames, with at most one exit frame, and nothing is written behind it.
pub run_ops-OneExit :
    (ends : List (Option ℕ)) (ops : List FrameOp)
    → OneExit (run_ops ops (record { w = record { writes = []; ends = ends }; exited = false }))
run_ops-OneExit ends ops =
    run_ops-keeps ops (record { w = record { writes = []; ends = ends }; exited = false })
      (running refl tt)
