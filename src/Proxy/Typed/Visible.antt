-- ===== src/Proxy/Typed/Visible.antt =====
-- internal/proxy/policy.go: the text that `SanitizeTyped` accepts.
use mathlib.Core.Option
use agterm_remote.Prelude.{
  All, List, Option, [], arith, leb, length, none, not, refl, some, subst, suc, sym, true, zero, ℕ,
  ◌&&◌, ◌==◌, ◌||◌, ◌∷◌, ◌≡◌, ◌≤◌,
}
use agterm_remote.Proxy.Typed.{
  check_decoded, check_runes, is_control, is_format, max_typed_text, sanitize_typed,
}
use agterm_remote.Result.{ok}
use agterm_remote.Text.{Bytes}
use agterm_remote.Utf8.{State, emit, runes, runes_from, start, step}

-- A rune that may be typed.
abbrev pub MayType : ℕ → Type 0
MayType r = ((r == b'\n' || r == b'\t') || (not (is_control r) && not (is_format r))) ≡ true

check_runes-MayType : (rs : List ℕ) → check_runes rs ≡ ok tt → All MayType rs
unfolding check_runes
check_runes-MayType [] h = tt
check_runes-MayType (r ∷ rs) h = (ground arith, check_runes-MayType rs (ground arith))

-- A byte that is no control byte but a newline or a tab.
abbrev pub IsHarmless : ℕ → Type 0
IsHarmless b = (b == b'\n' || b == b'\t' || (leb 0x20 b && not (b == 0x7f))) ≡ true

-- Between runes, or at a byte that must be 0x80 at least.
abbrev IsReady : State → Type 0
IsReady st = (st.need == 0 || leb 0x80 st.lo) ≡ true

-- What one step of the decoder shows of its byte and of the next state.
abbrev StepFact : Option (State × Option ℕ) → ℕ → Type 0
StepFact none b = Unit
StepFact (some (st, none)) b = IsReady st × (leb 0x80 b ≡ true)
StepFact (some (st, some r)) b = IsReady st × ((leb 0x80 b || r == b) ≡ true)

step-StepFact : (n : ℕ) (st : State) (b : ℕ) → st.need ≡ n → IsReady st → StepFact (step n st b) b
unfolding step
step-StepFact zero st b e h = ground arith
step-StepFact (suc left) st b e h = ground arith

byte-IsHarmless : (r b : ℕ) → MayType r → (leb 0x80 b || r == b) ≡ true → IsHarmless b
unfolding is_control
byte-IsHarmless r b t h = ground arith

high-IsHarmless : (b : ℕ) → leb 0x80 b ≡ true → IsHarmless b
high-IsHarmless b h = ground arith

map-eq-some :
    (f : List ℕ → List ℕ) (o : Option (List ℕ)) {y : List ℕ}
    → Option.map f o ≡ some y
    → (x : List ℕ) × (o ≡ some x) × (f x ≡ y)
map-eq-some f none h = cc
map-eq-some f (some x) h = (x, refl, ground arith)

-- The byte behind a step, and what the runes behind it show of the rest.
after_step :
    (o : Option (State × Option ℕ)) (b : ℕ) (s : Bytes) {rs : List ℕ}
    → StepFact o b
    → ((st : State) (rest : List ℕ)
        → IsReady st
        → runes_from st s ≡ some rest
        → All MayType rest
        → All IsHarmless s)
    → elim o [ none ↦ none | some (st, out) ↦ Option.map (emit out) (runes_from st s) ] ≡ some rs
    → All MayType rs
    → IsHarmless b × All IsHarmless s
after_step none b s f later h t = cc
after_step (some (st, none)) b s {rs} (ready, high) later h t =
    let (rest, e, same) = map-eq-some (emit none) (runes_from st s) h in
    (high-IsHarmless b high, later st rest ready e (rw same t))
after_step (some (st, some r)) b s {rs} (ready, f) later h t =
    let (rest, e, same) = map-eq-some (emit (some r)) (runes_from st s) h in
    let typed : All MayType (r ∷ rest) = subst (All MayType) (sym same) t in
    (byte-IsHarmless r b typed.0 f, later st rest ready e typed.1)

runes_from-IsHarmless :
    (s : Bytes) (st : State) {rs : List ℕ}
    → IsReady st
    → runes_from st s ≡ some rs
    → All MayType rs
    → All IsHarmless s
unfolding runes_from
runes_from-IsHarmless [] st ready h t = tt
runes_from-IsHarmless (b ∷ s) st ready h t =
    after_step (step st.need st b) b s (step-StepFact st.need st b refl ready)
      (λ st' rest r e m. runes_from-IsHarmless s st' r e m) h t

decoded-IsHarmless :
    (o : Option (List ℕ)) (text : Bytes)
    → runes text ≡ o
    → check_decoded o ≡ ok tt
    → All IsHarmless text × ((rs : List ℕ) × (runes text ≡ some rs) × All MayType rs)
unfolding check_decoded runes
decoded-IsHarmless none text e h = cc
decoded-IsHarmless (some rs) text e h =
    let typed = check_runes-MayType rs h in
    (runes_from-IsHarmless text start refl e typed, (rs, e, typed))

-- Accepted text is at most 64 KiB of valid UTF-8. None of its bytes is a control byte but a newline
-- or a tab, so it holds no escape sequence, and none of its runes is a control or format character.
pub sanitize_typed_sound :
    (text : Bytes)
    → sanitize_typed text ≡ ok tt
    → (length text ≤ max_typed_text)
      × (All IsHarmless text × ((rs : List ℕ) × (runes text ≡ some rs) × All MayType rs))
unfolding sanitize_typed
sanitize_typed_sound text h =
    (ground arith, decoded-IsHarmless (runes text) text refl (ground arith))

check_runes_complete : (rs : List ℕ) → All MayType rs → check_runes rs ≡ ok tt
unfolding check_runes
check_runes_complete [] h = refl
check_runes_complete (r ∷ rs) (p, h) = ground (arith, check_runes_complete rs h)

-- Text of valid UTF-8 within the limit, all of whose runes may be typed, is accepted.
pub sanitize_typed_complete :
    (text : Bytes) (rs : List ℕ)
    → length text ≤ max_typed_text
    → runes text ≡ some rs
    → All MayType rs
    → sanitize_typed text ≡ ok tt
unfolding sanitize_typed
sanitize_typed_complete text rs fits e h = ground (arith, e, check_runes_complete rs h)
