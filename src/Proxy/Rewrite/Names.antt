-- ===== src/Proxy/Rewrite/Names.antt =====
-- internal/proxy/rewrite.go: `pickName` and `generateName`.
use agterm_remote.Bindings.{Binding}
use agterm_remote.Prelude.{
  Bool, Bool-cases, List, Member, Option-cases, any, ap, arith, false, here, if◌then◌else◌, inl,
  inr, not, some, subst, suc, sym, there, true, zero, ℕ, ◌&&◌, ◌-◌, ◌∙◌, ◌∷◌, ◌≡◌,
}
use agterm_remote.Proxy.Rewrite.{
  Env, Origin, candidate, free_name, generate_name, is_taken, max_generated_names, numbered,
  pick_name, reservation_key, reserved_for, reserved_name,
}
use agterm_remote.Result.{>>=-eq-ok, ok, ok-injective}
use agterm_remote.Text.{Bytes, bytes_eq, bytes_eq_refl, contains, cut-append, has_byte}
use agterm_remote.Token.{valid}
use mathlib.Core.Bool.{false≢true}
use mathlib.Core.Option.{some-injective}

numbered-free :
    (taken : Bytes → Bool) (base : Bytes) (n fuel : ℕ) {name : Bytes}
    → numbered taken base n fuel ≡ some name
    → (valid name ≡ true) × (taken name ≡ false)
unfolding numbered
numbered-free taken base n zero h = cc
numbered-free taken base n (suc fuel) {name} h =
    elim (Bool-cases (valid (candidate base n) && not (taken (candidate base n)))) [
      | inl e ↦
          let s = some-injective (candidate base n) name (rw e at h) in
          subst (λ x. (valid x ≡ true) × (taken x ≡ false)) s (ground (arith, e))
      | inr e ↦ numbered-free taken base (suc n) fuel (rw e at h)
    ]

free_name-free :
    (taken : Bytes → Bool) (session wanted : Bytes) {name : Bytes}
    → free_name taken session wanted ≡ ok name
    → (valid name ≡ true) × (taken name ≡ false)
unfolding free_name
free_name-free taken session wanted {name} h =
    elim (Bool-cases (valid wanted && not (taken wanted))) [
      | inl e ↦
          subst (λ x. (valid x ≡ true) × (taken x ≡ false)) (ok-injective (rw e at h))
            (ground (arith, e))
      | inr e ↦
          let base = if valid wanted then wanted else session in
          let h₁ = rw e at h in
          elim (Option-cases (numbered taken base 2 (max_generated_names - 2))) [
            | inl f ↦ cc (rw f at h₁)
            | inr (x, f) ↦
                subst (λ x. (valid x ≡ true) × (taken x ≡ false)) (ok-injective (rw f at h₁))
                  (numbered-free taken base 2 _ f)
          ]
    ]

-- A name that no session of the host has, that no binding gives to it, and that is not reserved.
pub record IsFree (env : Env) (req : Origin) (reserved : List Bytes) (name : Bytes) : Type 0 where
  pub sessions : List Bytes
  pub bound : List Binding
  pub listed : env.sessions ≡ some sessions
  pub loaded : env.bindings ≡ some bound
  pub is_valid : valid name ≡ true
  pub no_session : contains sessions name ≡ false
  pub no_binding : any (λ b. bytes_eq b.host req.host && bytes_eq b.name name) bound ≡ false
  pub no_reservation : reserved_for req.host reserved name ≡ false

not-taken :
    (env : Env) (req : Origin) (reserved : List Bytes) (name : Bytes) (ss : List Bytes)
    (bs : List Binding)
    → env.sessions ≡ some ss
    → env.bindings ≡ some bs
    → (valid name ≡ true) × (is_taken req.host ss bs reserved name ≡ false)
    → IsFree env req reserved name
unfolding is_taken
not-taken env req reserved name ss bs e₁ e₂ (v, t) = record {
  sessions = ss;
  bound = bs;
  listed = e₁;
  loaded = e₂;
  is_valid = v;
  no_session = ground (arith, t);
  no_binding = ground (arith, t);
  no_reservation = ground (arith, t);
}

-- The name that is picked for a new row is a valid token; no session of the host has it, no binding
-- of the host has it, and no other call of the host has reserved it.
pub pick_name-IsFree :
    (env : Env) (req : Origin) (reserved : List Bytes) (wanted : Bytes) {name : Bytes}
    → pick_name env req reserved wanted ≡ ok name
    → IsFree env req reserved name
unfolding pick_name
pick_name-IsFree env req reserved wanted {name} h = elim (Option-cases env.sessions) [
  | inl e ↦ cc (rw (pick_name, e) at h)
  | inr (ss, e) ↦
      let h₁ = rw (pick_name, e) at h in
      elim (Option-cases env.bindings) [
        | inl f ↦ cc (rw f at h₁)
        | inr (bs, f) ↦
            not-taken env req reserved name ss bs e f
              (free_name-free (is_taken req.host ss bs reserved) req.session wanted (rw f at h₁))
      ]
]

cut-key :
    (host name : Bytes)
    → has_byte 0 host ≡ false
    → reserved_name host (reservation_key host name) ≡ some name
unfolding reserved_name reservation_key
cut-key host name e = rw (cut-append 0 host name e) (rw (bytes_eq_refl host))

reserved_for-Member :
    (host name : Bytes) (reserved : List Bytes)
    → has_byte 0 host ≡ false
    → Member (reservation_key host name) reserved
    → reserved_for host reserved name ≡ true
unfolding reserved_for
reserved_for-Member host name _ e (here {xs}) = rw (cut-key host name e) (rw (bytes_eq_refl name))
reserved_for-Member host name _ e (there {y} {xs} m) =
    ground (arith, reserved_for-Member host name xs e m)

pub generated :
    (env : Env) (req : Origin) (reserved : List Bytes) (wanted : Bytes) {name : Bytes}
    {reserved₁ : List Bytes}
    → generate_name env req reserved wanted ≡ ok (name, reserved₁)
    → (pick_name env req reserved wanted ≡ ok name)
      × (reserved₁ ≡ reservation_key req.host name ∷ reserved)
unfolding generate_name
generated env req reserved wanted h =
    let (picked, e, rest) = >>=-eq-ok (pick_name env req reserved wanted) _ h in
    let same = ok-injective rest in
    (
      e ∙ ap ok (ap (λ p. p.0) same),
      sym (ap (λ p. p.1) same)
          ∙ ap (λ x. reservation_key req.host x ∷ reserved) (ap (λ p. p.0) same),
    )

-- A name that is reserved on a host is not given to another call of that host, where the name of the
-- host has no NUL byte.
pub generate_name_reserved :
    (env : Env) (req : Origin) (reserved : List Bytes) (wanted name : Bytes) {other : Bytes}
    {reserved₁ : List Bytes}
    → has_byte 0 req.host ≡ false
    → Member (reservation_key req.host name) reserved
    → generate_name env req reserved wanted ≡ ok (other, reserved₁)
    → ¬ (other ≡ name)
generate_name_reserved env req reserved wanted name {other} e m h same =
    let free = pick_name-IsFree env req reserved wanted (generated env req reserved wanted h).0 in
    let r = reserved_for-Member req.host name reserved e m in
    let no = subst (λ x. reserved_for req.host reserved x ≡ false) same free.no_reservation in
    false≢true (sym no ∙ r)
