-- ===== src/Bindings/Store/Written.antt =====
-- internal/bindings/store.go: what the write of a list of bindings leaves, whichever system call fails.
use agterm_remote.Bindings.{Binding}
use agterm_remote.Bindings.Store.{
  Codec, Disk, Io, StoreError, newline, finish_temp, remove_behind, remove_temp, try, after_part,
  ◌and_then◌, same, create_temp, rename, fill_temp, mkdir_failed, encode_failed, create_failed,
  chmod_failed, sync_failed, close_failed, rename_failed, Call, write_unlocked,
}
use agterm_remote.Prelude.{
  Bool, none, false, ◌∙◌, sym, subst, take, ℕ, List, Option, refl, some, true, ◌++◌, ◌≡◌,
}
use agterm_remote.Result.{Result, err, ok}
use agterm_remote.Text.{Bytes}

-- The system calls of a write all succeed.
pub record Writes (io : Io) : Type 0 where
  pub made : io.makes_dir ≡ true
  pub encoded : io.encodes ≡ true
  pub created : io.creates ≡ true
  pub moded : io.chmods ≡ true
  pub whole : io.breaks_off ≡ none
  pub synced : io.syncs ≡ true
  pub closed : io.closes ≡ true
  pub renamed : io.renames ≡ true

-- What a part of a call keeps of the disk, in every case, and where it fails.
module _ {B : Type 0} (view : Disk → B) where
  abbrev pub Keeps : Call Unit → Type 0
  Keeps c = (d : Disk) → view (c d).1 ≡ view d

  abbrev pub KeepsFailing : Call Unit → Type 0
  KeepsFailing c = (d : Disk) (e : StoreError) → (c d).0 ≡ err e → view (c d).1 ≡ view d

  try-Keeps :
      (works : Bool) (e : StoreError) (change : Disk → Disk)
      → ((d : Disk) → view (change d) ≡ view d)
      → Keeps (try works e change)
  try-Keeps true e change k d = k d
  try-Keeps false e change k d = refl

  try-KeepsFailing :
      (works : Bool) (e : StoreError) (change : Disk → Disk) → KeepsFailing (try works e change)
  try-KeepsFailing true e change d x h = cc
  try-KeepsFailing false e change d x h = refl

  after_part-Keeps :
      (next : Call Unit) (r : Result StoreError Unit × Disk)
      → Keeps next
      → view (after_part next r).1 ≡ view r.1
  after_part-Keeps next (err e, d) k = refl
  after_part-Keeps next (ok u, d) k = k d

  and_then-Keeps : (part next : Call Unit) → Keeps part → Keeps next → Keeps (part and_then next)
  and_then-Keeps part next p n d = after_part-Keeps next (part d) n ∙ p d

  after_part-KeepsFailing :
      (next : Call Unit) (r : Result StoreError Unit × Disk) (e : StoreError)
      → KeepsFailing next
      → (after_part next r).0 ≡ err e
      → view (after_part next r).1 ≡ view r.1
  after_part-KeepsFailing next (err x, d) e k h = refl
  after_part-KeepsFailing next (ok u, d) e k h = k d e h

  and_then-KeepsFailing :
      (part next : Call Unit) → Keeps part → KeepsFailing next → KeepsFailing (part and_then next)
  and_then-KeepsFailing part next p n d e h = after_part-KeepsFailing next (part d) e n h ∙ p d

  fill_temp-Keeps :
      (bytes : Bytes) (o : Option ℕ)
      → ((d : Disk) (x : Option Bytes) → view (record d { temp = x }) ≡ view d)
      → Keeps (fill_temp bytes o)
  fill_temp-Keeps bytes none k d = k d (some bytes)
  fill_temp-Keeps bytes (some n) k d = k d (some (take n bytes))

remove_temp-file :
    (removes : Bool) (o : Option Bytes) (d : Disk) → (remove_temp removes o d).file ≡ d.file
remove_temp-file removes none d = refl
remove_temp-file true (some bytes) d = refl
remove_temp-file false (some bytes) d = refl

remove_temp-remains : (o : Option Bytes) (d : Disk) → (remove_temp true o d).remains ≡ d.remains
remove_temp-remains none d = refl
remove_temp-remains (some bytes) d = refl

remove_temp-temp :
    (removes : Bool) (o : Option Bytes) (d : Disk)
    → d.temp ≡ o
    → (remove_temp removes o d).temp ≡ none
remove_temp-temp removes none d e = e
remove_temp-temp true (some bytes) d e = refl
remove_temp-temp false (some bytes) d e = refl

try_then-temp :
    (works : Bool) (e : StoreError) (change : Disk → Disk) (next : Call Unit) (d : Disk)
    → d.temp ≡ none
    → (next (change d)).1.temp ≡ none
    → ((try works e change and_then next) d).1.temp ≡ none
try_then-temp true e change next d k n = n
try_then-temp false e change next d k n = k

module _ (json : Codec) (io : Io) where
  finish_temp-KeepsFailing :
      (bytes : Bytes) → KeepsFailing (λ d. d.file) (finish_temp json io bytes)
  finish_temp-KeepsFailing bytes =
      let file : Disk → Option Bytes = λ d. d.file in
      let synced = try io.syncs sync_failed same in
      let closed = try io.closes close_failed same in
      let renamed = try io.renames rename_failed rename in
      and_then-KeepsFailing file (try io.chmods chmod_failed same) _
        (try-Keeps file io.chmods chmod_failed same (λ d. refl))
        (and_then-KeepsFailing file (fill_temp bytes io.breaks_off) _
          (fill_temp-Keeps file bytes io.breaks_off (λ d x. refl))
          (and_then-KeepsFailing file synced _
            (try-Keeps file io.syncs sync_failed same (λ d. refl))
            (and_then-KeepsFailing file closed _
              (try-Keeps file io.closes close_failed same (λ d. refl))
              (try-KeepsFailing file io.renames rename_failed rename))))

  finish_temp-remains : (bytes : Bytes) → Keeps (λ d. d.remains) (finish_temp json io bytes)
  finish_temp-remains bytes =
      let remains : Disk → List Bytes = λ d. d.remains in
      let synced = try io.syncs sync_failed same in
      let closed = try io.closes close_failed same in
      let renamed = try io.renames rename_failed rename in
      and_then-Keeps remains (try io.chmods chmod_failed same) _
        (try-Keeps remains io.chmods chmod_failed same (λ d. refl))
        (and_then-Keeps remains (fill_temp bytes io.breaks_off) _
          (fill_temp-Keeps remains bytes io.breaks_off (λ d x. refl))
          (and_then-Keeps remains synced _ (try-Keeps remains io.syncs sync_failed same (λ d. refl))
            (and_then-Keeps remains closed _
              (try-Keeps remains io.closes close_failed same (λ d. refl))
              (try-Keeps remains io.renames rename_failed rename (λ d. refl)))))

  removed_finish :
      (bytes : Bytes)
      → KeepsFailing (λ d. d.file) (λ d. remove_behind io.removes (finish_temp json io bytes d))
  removed_finish bytes d e h =
      let r = finish_temp json io bytes d in
      remove_temp-file io.removes (r.1).temp r.1 ∙ finish_temp-KeepsFailing bytes d e h

  pub write_unlocked-KeepsFailing :
      (bs : List Binding) → KeepsFailing (λ d. d.file) (write_unlocked json io bs)
  unfolding write_unlocked
  write_unlocked-KeepsFailing bs =
      let file : Disk → Option Bytes = λ d. d.file in
      and_then-KeepsFailing file (try io.makes_dir mkdir_failed same) _
        (try-Keeps file io.makes_dir mkdir_failed same (λ d. refl))
        (and_then-KeepsFailing file (try io.encodes encode_failed same) _
          (try-Keeps file io.encodes encode_failed same (λ d. refl))
          (and_then-KeepsFailing file (try io.creates create_failed create_temp) _
            (try-Keeps file io.creates create_failed create_temp (λ d. refl))
            (removed_finish (json.encode bs ++ newline))))

  removed_remains :
      (bytes : Bytes)
      → io.removes ≡ true
      → Keeps (λ d. d.remains) (λ d. remove_behind io.removes (finish_temp json io bytes d))
  removed_remains bytes h d =
      let r = finish_temp json io bytes d in
      subst (λ b. (remove_temp b (r.1).temp r.1).remains ≡ d.remains) (sym h)
        (remove_temp-remains (r.1).temp r.1 ∙ finish_temp-remains bytes d)

  pub write_unlocked-remains :
      (bs : List Binding) → io.removes ≡ true → Keeps (λ d. d.remains) (write_unlocked json io bs)
  unfolding write_unlocked
  write_unlocked-remains bs h =
      let remains : Disk → List Bytes = λ d. d.remains in
      and_then-Keeps remains (try io.makes_dir mkdir_failed same) _
        (try-Keeps remains io.makes_dir mkdir_failed same (λ d. refl))
        (and_then-Keeps remains (try io.encodes encode_failed same) _
          (try-Keeps remains io.encodes encode_failed same (λ d. refl))
          (and_then-Keeps remains (try io.creates create_failed create_temp) _
            (try-Keeps remains io.creates create_failed create_temp (λ d. refl))
            (removed_remains (json.encode bs ++ newline) h)))

  -- A write that begins without a temporary file leaves none behind under its name.
  pub write_unlocked-temp :
      (bs : List Binding) (d : Disk) → d.temp ≡ none → (write_unlocked json io bs d).1.temp ≡ none
  unfolding write_unlocked
  write_unlocked-temp bs d k = try_then-temp io.makes_dir mkdir_failed same _ d k (
      try_then-temp io.encodes encode_failed same _ d k (
        try_then-temp io.creates create_failed create_temp _ d k (
          let r = finish_temp json io (json.encode bs ++ newline) (create_temp d) in
          remove_temp-temp io.removes (r.1).temp r.1 refl)))

  -- The disk with this file, written whole.
  abbrev pub written_disk : Disk → List Binding → Disk
  written_disk d bs = record d { file = some (json.encode bs ++ newline); temp = none }

  pub write_unlocked-ok :
      (bs : List Binding) (d : Disk)
      → Writes io
      → write_unlocked json io bs d ≡ (ok tt, written_disk d bs)
  unfolding write_unlocked
  write_unlocked-ok bs d w =
      rw (w.made, w.encoded, w.created, w.moded, w.whole, w.synced, w.closed, w.renamed) refl
