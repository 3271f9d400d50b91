-- ===== src/Handled/Recorded.antt =====
-- internal/handled/store.go: the hooks that run while a claim of a pane is recorded.
use agterm_remote.Handled.{
  Claim, ClaimError, Codec, Hook, answers, claim, claimed_at, empty_pane, is_kept, load,
  lock_failed, on_loaded, or_empty, prune, prune_grace, pruned, read_failed, record_claim, write,
  write_failed,
}
use agterm_remote.Handled.Kept.{
  All-IsKey-append, IsJson, IsKey, Spares, claimed_at-append, claimed_at-prune,
}
use agterm_remote.Prelude.{
  All, All-filter, Bool, List, Option, [], arith, false, if_rule, inl, inr, is_nil, is_none, none,
  not, refl, some, subst, sym, true, ℕ, ◌+◌, ◌∙◌, ◌∷◌, ◌≡◌, ◌≢◌, ◌≤◌, ◌⊎◌,
}
use agterm_remote.Result.{Result, err, ok, ok-injective}
use agterm_remote.Text.{Bytes, contains}
use agterm_remote.Utf8.{is_utf8}
use mathlib.Core.Bool.{false≢true}

-- Either another pane is asked about, or the answer is not that the pane is new.
abbrev pub NotNew : Bytes → Hook → Result ClaimError Bool → Type 0
NotNew pane h r = h.pane ≡ pane → r ≢ ok false

abbrev pub AllNotNew : Bytes → List Hook → List (Result ClaimError Bool) → Type 0
AllNotNew pane (h ∷ hs) (r ∷ rs) = NotNew pane h r × AllNotNew pane hs rs
AllNotNew pane [] [] = Unit
AllNotNew pane _ _ = ⊥

module _ {File : Type 0} (json : Codec File) (laws : IsJson json) (pane : Bytes) (t0 : ℕ) where
  -- The file holds a claim of the pane that is not older than `t0`.
  pub record Recorded (d : Option File) : Type 0 where
    pub file : File
    pub claims : List Claim
    pub at : ℕ
    pub is_file : d ≡ some file
    pub decoded : json.decode file ≡ some claims
    pub holds : claimed_at pane claims ≡ some at
    pub recent : t0 ≤ at

  abbrev Good : Hook → Result ClaimError Bool × Option File → Type 0
  Good h out = NotNew pane h out.0 × Recorded out.1

  fails : (h : Hook) (e : ClaimError) (d : Option File) → Recorded d → Good h (err e, d)
  fails h e d r = (λ _ q. cc, r)

  pub written :
      (at : ℕ) (cs : List Claim)
      → All IsKey cs
      → claimed_at pane cs ≡ some at
      → t0 ≤ at
      → Recorded (some (json.encode cs))
  written at cs ks holds recent =
      let (cs', back, same) = laws.round_trip cs ks in
      record {
        file = json.encode cs;
        claims = cs';
        at = at;
        is_file = refl;
        decoded = back;
        holds = same pane ∙ holds;
        recent = recent;
      }

  write-Good :
      (h : Hook) (answer : Bool) (cs : List Claim) (d : Option File)
      → Recorded d
      → Recorded (some (json.encode cs))
      → (h.pane ≡ pane → answer ≡ true)
      → Good h (write json h answer cs d)
  write-Good h answer cs d r r' a =
      if_rule (Good h) h.writable _ _ (λ _. ((λ e q. false≢true (sym (ok-injective q) ∙ a e)), r'))
        (λ _. fails h write_failed d r)

  record_claim-Good :
      (h : Hook) (at : ℕ) (cs : List Claim) (d : Option File)
      → Recorded d
      → is_utf8 h.pane ≡ true
      → All IsKey cs
      → claimed_at pane cs ≡ some at
      → t0 ≤ at
      → Good h (record_claim json h cs d)
  record_claim-Good h at cs d r u ks holds recent =
      if_rule (Good h) (is_none (claimed_at h.pane cs)) _ _
        (λ n.
          write-Good h false _ d r
            (written at _ (All-IsKey-append cs _ ks u) (claimed_at-append pane at cs _ holds)
              recent)
            (λ e. rw holds at (rw e at n)))
        (λ n. write-Good h true cs d r (written at cs ks holds recent) (λ _. refl))

  spared :
      (h : Hook) (live : List Bytes) (at : ℕ)
      → h.live ≡ some live
      → Spares pane t0 h
      → t0 ≤ at
      → (contains live pane ≡ true) ⊎ (h.now ≤ at + prune_grace)
  spared h live at e s recent = elim (s live e) [ inl l ↦ inl l | inr g ↦ inr (omega arith) ]

  pruned-Good :
      (h : Hook) (o : Option (List Bytes)) (at : ℕ) (cs : List Claim)
      → h.live ≡ o
      → Spares pane t0 h
      → t0 ≤ at
      → All IsKey cs
      → claimed_at pane cs ≡ some at
      → All IsKey (pruned json h cs) × (claimed_at pane (pruned json h cs) ≡ some at)
  unfolding prune
  pruned-Good h none at cs e s recent ks holds = rw e (ks, holds)
  pruned-Good h (some live) at cs e s recent ks holds = rw e (
    All-filter IsKey (is_kept live h.now) cs ks,
    claimed_at-prune pane live h.now at cs (spared h live at e s recent) holds,
  )

  on_loaded-Good :
      (h : Hook) (d : Option File)
      → Spares pane t0 h
      → is_utf8 h.pane ≡ true
      → Recorded d
      → Good h (on_loaded json h (load json h d) d)
  unfolding load
  on_loaded-Good h d s u r =
      let keys = laws.decode_keys r.file r.claims r.decoded in
      let (ks, holds) = pruned-Good h h.live r.at r.claims refl s r.recent keys r.holds in
      let open_file =
        if_rule (λ x. Good h (on_loaded json h x d)) h.readable
          (ok (or_empty json (json.decode r.file))) (err read_failed)
          (λ _.
            rw r.decoded
              (record_claim-Good h r.at (pruned json h r.claims) d r u ks holds r.recent))
          (λ _. fails h read_failed d r) in
      subst (λ x. Good h (on_loaded json h (load json h x) d)) (sym r.is_file) open_file

  claim-Good :
      (h : Hook) (d : Option File)
      → Spares pane t0 h
      → is_utf8 h.pane ≡ true
      → Recorded d
      → Good h (claim json h d)
  unfolding claim
  claim-Good h d s u r =
      if_rule (Good h) (is_nil h.pane) _ _ (λ _. fails h empty_pane d r)
        (λ _.
          if_rule (Good h) (not h.lockable) _ _ (λ _. fails h lock_failed d r)
            (λ _. on_loaded-Good h d s u r))

  -- A hook of this history: it spares the claim, and its pane id is valid UTF-8.
  abbrev pub Later : Hook → Type 0
  Later h = Spares pane t0 h × (is_utf8 h.pane ≡ true)

  pub answers-NotNew :
      (hs : List Hook) (d : Option File)
      → All Later hs
      → Recorded d
      → AllNotNew pane hs (answers json hs d)
  unfolding answers
  answers-NotNew [] d _ r = tt
  answers-NotNew (h ∷ hs) d ((s, u), l) r =
      let (n, r') = claim-Good h d s u r in (n, answers-NotNew hs (claim json h d).1 l r')
