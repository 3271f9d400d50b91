-- ===== src/Proxy/Argv/Invariant.antt =====
-- internal/proxy/argv.go: the options and positionals that `parseArgs` has collected so far.
use agterm_remote.Prelude.{
  All, All-append, All-map, Bool-cases, List, [], arith, false, inl, inr, is_nil, not, some, true,
  ◌&&◌, ◌++◌, ◌||◌, ◌∷◌, ◌≡◌,
}
use agterm_remote.Proxy.Argv.{Loop, ParsedOpt, Round, add_opt, add_pos, fail, one, stop, two}
use agterm_remote.Proxy.Schema.{LeafSpec, is_stripped, option}
use agterm_remote.Text.{Bytes, bytes_eq, bytes_eq_iff, bytes_eq_refl, contains, has_byte}

-- An option that passed the schema of `leaf`.
pub record IsAccepted (leaf : LeafSpec) (o : ParsedOpt) : Type 0 where
  pub from_schema : option leaf o.spec.name ≡ some o.spec
  pub no_nul : has_byte 0 o.value ≡ false
  pub not_dropped : o.spec.dropped ≡ []
  pub value_allowed : (is_nil o.spec.allowed || contains o.spec.allowed o.value) ≡ true
  pub flag_bare : (o.spec.value || is_nil o.value) ≡ true
  pub not_stripped : is_stripped o.spec.name ≡ false

abbrev pub NoNul : Bytes → Type 0
NoNul w = has_byte 0 w ≡ false

-- Where `q` comes behind `p`, it repeats it only if its option may be repeated.
abbrev pub MayFollow : ParsedOpt → ParsedOpt → Type 0
MayFollow p q = (not (bytes_eq p.spec.name q.spec.name) || q.spec.repeat) ≡ true

abbrev pub Unrepeated : List ParsedOpt → Type 0
Unrepeated [] = Unit
Unrepeated (o ∷ os) = All (MayFollow o) os × Unrepeated os

Unrepeated-append :
    (os : List ParsedOpt) (o : ParsedOpt)
    → Unrepeated os
    → All (λ x. MayFollow x o) os
    → Unrepeated (os ++ o ∷ [])
Unrepeated-append [] o u h = (tt, tt)
Unrepeated-append (x ∷ os) o (p, u) (q, h) =
    (All-append (MayFollow x) os (o ∷ []) p (q, tt), Unrepeated-append os o u h)

abbrev pub WasSeen : List Bytes → ParsedOpt → Type 0
WasSeen seen o = contains seen o.spec.name ≡ true

pub record Inv (leaf : LeafSpec) (st : Loop) : Type 0 where
  pub accepted : All (IsAccepted leaf) st.out.opts
  pub positional : All NoNul st.out.pos
  pub unrepeated : Unrepeated st.out.opts
  pub were_seen : All (WasSeen st.seen) st.out.opts

abbrev pub Good : LeafSpec → Round → Type 0
Good leaf (fail e) = Unit
Good leaf (stop st) = Inv leaf st
Good leaf (one st) = Inv leaf st
Good leaf (two st) = Inv leaf st

module _ (leaf : LeafSpec) (st : Loop) (inv : Inv leaf st) where
  pub seen-Inv : (name : Bytes) → Inv leaf (record st { seen = name ∷ st.seen })
  seen-Inv name = record {
    accepted = inv.accepted;
    positional = inv.positional;
    unrepeated = inv.unrepeated;
    were_seen = All-map (λ o h. ground (arith, h)) st.out.opts inv.were_seen;
  }

  pub pos-Inv : (ws : List Bytes) → All NoNul ws → Inv leaf (add_pos st ws)
  pos-Inv ws h = record {
    accepted = inv.accepted;
    positional = All-append NoNul st.out.pos ws inv.positional h;
    unrepeated = inv.unrepeated;
    were_seen = inv.were_seen;
  }

  follows :
      (o : ParsedOpt)
      → (contains st.seen o.spec.name && not o.spec.repeat) ≡ false
      → All (λ x. MayFollow x o) st.out.opts
  follows o h = All-map (λ x s. may x s) st.out.opts inv.were_seen
    where
      may : (x : ParsedOpt) → WasSeen st.seen x → MayFollow x o
      may x s = elim (Bool-cases (bytes_eq x.spec.name o.spec.name)) [
        | inl e ↦
            let same = (bytes_eq_iff x.spec.name o.spec.name).0 e in
            let there : contains st.seen o.spec.name ≡ true = rw same at s in ground (arith, there)
        | inr e ↦ ground (arith, e)
      ]

  pub opt-Inv :
      (o : ParsedOpt)
      → IsAccepted leaf o
      → (contains st.seen o.spec.name && not o.spec.repeat) ≡ false
      → Inv leaf (add_opt (record st { seen = o.spec.name ∷ st.seen }) o.spec o.value)
  opt-Inv o ok_opt fresh = record {
    accepted = All-append (IsAccepted leaf) st.out.opts (o ∷ []) inv.accepted (ok_opt, tt);
    positional = inv.positional;
    unrepeated = Unrepeated-append st.out.opts o inv.unrepeated (follows o fresh);
    were_seen =
        All-append (WasSeen (o.spec.name ∷ st.seen)) st.out.opts (o ∷ [])
          (All-map (λ x h. ground (arith, h)) st.out.opts inv.were_seen)
          (ground (arith, bytes_eq_refl o.spec.name), tt);
  }
