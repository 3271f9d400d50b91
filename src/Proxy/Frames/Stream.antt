-- ===== src/Proxy/Frames/Stream.antt =====
-- internal/proxy/wire.go: `frameStream.Write` on a connection that takes what is sent.
use agterm_remote.Prelude.{
  All, Bool, List, Option, [], ap, append-nil, append_assoc, arith, false, length, length-append,
  none, refl, suc, sym, true, zero, ℕ, ◌++◌, ◌+◌, ◌∙◌, ◌∷◌, ◌≡◌, ◌≤◌,
}
use agterm_remote.Proxy.Frames.{
  FrameError, Frames, after, first, frame, frame_bytes, stream_from, stream_write,
}
use agterm_remote.Proxy.Wire.{frame_chunk}
use agterm_remote.Text.{Bytes}

-- A connection that takes what is written.
abbrev pub taking : Bytes → Bytes → Bytes × Bool
taking sent buf = (sent ++ buf, true)

abbrev pub joined_frames : ℕ → List Bytes → Bytes
joined_frames kind [] = []
joined_frames kind (chunk ∷ chunks) = frame_bytes kind chunk ++ joined_frames kind chunks

abbrev pub joined_chunks : List Bytes → Bytes
joined_chunks [] = []
joined_chunks (chunk ∷ chunks) = chunk ++ joined_chunks chunks

first-after : (n : ℕ) (p : Bytes) → first n p ++ after n p ≡ p
unfolding first after
first-after zero p = refl
first-after (suc n) [] = refl
first-after (suc n) (c ∷ p) = ap (λ x. c ∷ x) (first-after n p)

length-first : (n : ℕ) (p : Bytes) → length (first n p) ≤ n
unfolding first
length-first zero p = ground arith
length-first (suc n) [] = ground arith
length-first (suc n) (c ∷ p) = ground (arith, length-first n p)

length-cut : (n : ℕ) (p : Bytes) → length (first n p) + length (after n p) ≡ length p
length-cut n p = sym (length-append (first n p) (after n p)) ∙ ap length (first-after n p)

first-some : (n c : ℕ) (p : Bytes) → 1 ≤ n → 1 ≤ length (first n (c ∷ p))
unfolding first
first-some zero c p l = l
first-some (suc n) c p l = ground arith

chunk-some : (c : ℕ) (p : Bytes) → 1 ≤ length (first frame_chunk (c ∷ p))
unfolding frame_chunk
chunk-some c p = first-some 65536 c p (omega arith)

-- What a stream of frames that was sent in full shows.
pub record Streamed (kind : ℕ) (sent : Bytes) (before : ℕ) (p : Bytes)
    (out : Frames Bytes × (ℕ × Option FrameError)) : Type 0 where
  pub chunks : List Bytes
  pub no_error : out.1.1 ≡ none
  pub count : out.1.0 ≡ before + length p
  pub bytes : out.0.w ≡ sent ++ joined_frames kind chunks
  pub still_open : out.0.exited ≡ false
  pub whole : joined_chunks chunks ≡ p
  pub small : All (λ chunk. length chunk ≤ frame_chunk) chunks

nothing :
    (kind before : ℕ) (sent : Bytes)
    → Streamed kind sent before [] (record { w = sent; exited = false }, (before, none))
nothing kind before sent = record {
  chunks = [];
  no_error = refl;
  count = ground arith;
  bytes = sym (append-nil sent);
  still_open = refl;
  whole = refl;
  small = tt;
}

streamed :
    (fuel kind before : ℕ) (p sent : Bytes)
    → length p ≤ fuel
    → Streamed kind sent before p
        (stream_from taking fuel kind before p (record { w = sent; exited = false }))
unfolding stream_from frame
streamed zero kind before [] sent l = nothing kind before sent
streamed zero kind before (c ∷ p) sent l = absurd (ground arith)
streamed (suc fuel) kind before [] sent l = nothing kind before sent
streamed (suc fuel) kind before (c ∷ p) sent l =
    let chunk = first frame_chunk (c ∷ p) in
    let cut_at = length-cut frame_chunk (c ∷ p) in
    let r =
      streamed fuel kind (before + length chunk) (after frame_chunk (c ∷ p))
        (sent ++ frame_bytes kind chunk) (omega (arith, l, cut_at, chunk-some c p)) in
    record {
      chunks = chunk ∷ r.chunks;
      no_error = r.no_error;
      count = r.count ∙ omega (arith, cut_at);
      bytes = r.bytes ∙ append_assoc sent (frame_bytes kind chunk) (joined_frames kind r.chunks);
      still_open = r.still_open;
      whole = ap (λ x. chunk ++ x) r.whole ∙ first-after frame_chunk (c ∷ p);
      small = (length-first frame_chunk (c ∷ p), r.small);
    }

-- A write of any text on an open connection that takes what is sent reports the whole text as written,
-- and sends frames of the stream's kind, each of at most 64 KiB, whose contents joined are the text.
pub stream_write-Streamed :
    (kind : ℕ) (p sent : Bytes)
    → Streamed kind sent 0 p (stream_write taking kind p (record { w = sent; exited = false }))
unfolding stream_write
stream_write-Streamed kind p sent = streamed (length p) kind 0 p sent (omega arith)
