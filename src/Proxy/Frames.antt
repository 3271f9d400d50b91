-- ===== src/Proxy/Frames.antt =====
-- internal/proxy/wire.go: the frames of the answer to a call. The connection is a state with a write
-- that may fail.
pub mod Stream
pub mod Once
use Prim.Native.Char.{code}
use agterm_remote.Int.{itoa_int, pos, ℤ}
use agterm_remote.Prelude.{
  Bool, Option, [], false, if◌then◌else◌, length, none, some, suc, true, zero, ℕ, ◌++◌, ◌+◌, ◌∷◌,
}
use agterm_remote.Proxy.Wire.{frame_chunk}
use agterm_remote.Text.{Bytes, codes, itoa}

pub data FrameError : Type 0 where
  frames_closed write_failed : FrameError

pub record Frames (W : Type 0) : Type 0 where
  pub w : W
  pub exited : Bool

-- One `o <n>` or `e <n>` frame.
unfoldable pub frame_bytes : ℕ → Bytes → Bytes
frame_bytes kind payload = kind ∷ b' ' ∷ (itoa (length payload) ++ b'\n' ∷ payload)

-- The one `x <code>` frame.
unfoldable pub exit_bytes : ℤ → Bytes
exit_bytes code = codes "x " ++ (itoa_int code ++ b'\n' ∷ [])

unfoldable pub first : ℕ → Bytes → Bytes
first zero p = []
first (suc n) [] = []
first (suc n) (c ∷ p) = c ∷ first n p

unfoldable pub after : ℕ → Bytes → Bytes
after zero p = p
after (suc n) [] = []
after (suc n) (c ∷ p) = after n p

module _ {W : Type 0} (put : W → Bytes → W × Bool) where
  abbrev pub written : Frames W → W × Bool → Frames W × Option FrameError
  written f (w, true) = (record f { w = w }, none)
  written f (w, false) = (record f { w = w }, some write_failed)

  unfoldable pub frame : ℕ → Bytes → Frames W → Frames W × Option FrameError
  frame kind payload f =
      if f.exited then (f, some frames_closed) else written f (put f.w (frame_bytes kind payload))

  unfoldable pub exit : ℤ → Frames W → Frames W × Option FrameError
  exit code f =
      if f.exited
      then (f, some frames_closed)
      else written (record f { exited = true }) (put f.w (exit_bytes code))

  abbrev pub reason_bytes : Bytes → Bytes
  reason_bytes reason = codes "agtermctl (via agr): " ++ (reason ++ b'\n' ∷ [])

  abbrev then_exit : Frames W × Option FrameError → Frames W × Option FrameError
  then_exit (g, some e) = (g, some e)
  then_exit (g, none) = exit (pos 1) g

  unfoldable pub refuse : Bytes → Frames W → Frames W × Option FrameError
  refuse reason f = then_exit (frame b'e' (reason_bytes reason) f)

  -- `frameStream.Write`: the fuel is the length of the text, since each round sends at least one byte.
  unfoldable pub stream_from : ℕ → ℕ → ℕ → Bytes → Frames W → Frames W × (ℕ × Option FrameError)
  stream_from zero kind sent p f = (f, (sent, none))
  stream_from (suc fuel) kind sent [] f = (f, (sent, none))
  stream_from (suc fuel) kind sent (c ∷ p) f =
      let chunk = first frame_chunk (c ∷ p) in
      let (g, problem) = frame kind chunk f in
      elim problem [
        | some e ↦ (g, (sent, some e))
        | none ↦ stream_from fuel kind (sent + length chunk) (after frame_chunk (c ∷ p)) g
      ]

  unfoldable pub stream_write : ℕ → Bytes → Frames W → Frames W × (ℕ × Option FrameError)
  stream_write kind p f = stream_from (length p) kind 0 p f
