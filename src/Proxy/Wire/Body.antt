-- ===== src/Proxy/Wire/Body.antt =====
-- internal/proxy/wire.go: `ReadBody` on a body of the announced sizes.
use agterm_remote.Int.{pos, ℤ}
use agterm_remote.Prelude.{List, [], append_assoc, length, map, refl, some, ◌++◌, ◌∷◌, ◌≡◌}
use agterm_remote.Proxy.Wire.{
  BodyError, Header, read_body, read_files, read_full, read_sized, short_file, short_stdin,
}
use agterm_remote.Result.{ok}
use agterm_remote.Text.{Bytes}

abbrev pub lengths_of : List Bytes → List ℤ
lengths_of fs = map (λ f. pos (length f)) fs

abbrev pub joined : List Bytes → Bytes
joined [] = []
joined (f ∷ fs) = f ++ joined fs

pub read_full-append : (s r : Bytes) → read_full (length s) (s ++ r) ≡ some (s, r)
unfolding read_full
read_full-append [] r = refl
read_full-append (c ∷ s) r = rw (read_full-append s r)

read_sized-append :
    (why : BodyError) (s r : Bytes) → read_sized why (pos (length s)) (s ++ r) ≡ ok (s, r)
unfolding read_sized
read_sized-append why s r = rw (read_sized, read_full-append s r)

read_files-joined :
    (fs : List Bytes) (r : Bytes) → read_files (lengths_of fs) (joined fs ++ r) ≡ ok (fs, r)
unfolding read_files
read_files-joined [] r = refl
read_files-joined (f ∷ fs) r =
    rw (append_assoc f (joined fs) r)
      (rw (read_sized-append short_file f (joined fs ++ r)) (rw (read_files-joined fs r)))

-- The files and the standard input that a header announces by their lengths are read back exactly,
-- in their order, whatever they hold, and the reader is left at the first byte behind the body.
pub read_body-announced :
    (h : Header) (fs : List Bytes) (stdin rest : Bytes)
    → h.files ≡ lengths_of fs
    → h.stdin ≡ pos (length stdin)
    → read_body h (joined fs ++ (stdin ++ rest)) ≡ ok (fs, (stdin, rest))
unfolding read_body
read_body-announced h fs stdin rest e₁ e₂ =
    rw (e₁, e₂, read_files-joined fs (stdin ++ rest), read_sized-append short_stdin stdin rest)
