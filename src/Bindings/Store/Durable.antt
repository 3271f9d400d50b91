-- ===== src/Bindings/Store/Durable.antt =====
-- internal/bindings/store.go: the file that a call of the store leaves.
use agterm_remote.Bindings.Store.Written.{
  write_unlocked-temp, Writes, written_disk, write_unlocked-KeepsFailing, write_unlocked-remains,
  write_unlocked-ok,
}
use agterm_remote.Bindings.{Binding, grant_list, nil_if_empty}
use agterm_remote.Bindings.Store.{
  Codec, Disk, Io, Request, StoreError, add_grant, add_request, bind, bind_request, decoded,
  drop_grant, drop_request, effect, load, load_unlocked, newline, no_binding, lock_failed, Call,
  save, save_request, serve, unbind, unbind_request, update, with_lock, write_unlocked,
}
use agterm_remote.Prelude.{
  none, ◌∙◌, ap, sym, if_rule, List, Option, arith, map, refl, some, true, ◌++◌, ◌≡◌,
}
use agterm_remote.Result.{Result, err, ok}
use agterm_remote.Text.{Bytes}

-- `json:"grants,omitempty"`: an empty list of grants comes back as no list.
abbrev pub normal : Binding → Binding
unfolding nil_if_empty
normal b = record b { grants = nil_if_empty (grant_list b.grants) }

-- The file written for these bindings reads back as them, as `encoding/json` documents for strings
-- of valid UTF-8.
abbrev pub RoundTrips : Codec → List Binding → Type 0
RoundTrips json bs = json.decode (json.encode bs ++ newline) ≡ some (map normal bs)

module _ (json : Codec) (io : Io) where
  -- The list that a call which gets the lock reads.
  abbrev pub Reads : Disk → List Binding → Type 0
  Reads d bs = load json io d ≡ (ok bs, d)

  update-ok :
      (f : List Binding → Option (List Binding)) (d : Disk) (bs bs' : List Binding)
      → load_unlocked json io d.file ≡ ok bs
      → f bs ≡ some bs'
      → Writes io
      → update json io f d ≡ (ok tt, written_disk json io d bs')
  unfolding update
  update-ok f d bs bs' l e w = rw (l, update) (rw (e, update) (write_unlocked-ok json io bs' d w))

  abbrev stored : Option (List Binding) → Call Unit
  stored none d = (err no_binding, d)
  stored (some next) d = write_unlocked json io next d

  abbrev edited :
      (List Binding → Option (List Binding)) → Result StoreError (List Binding) → Call Unit
  edited f (err e) d = (err e, d)
  edited f (ok current) d = stored (f current) d

  stored-Keeps :
      {B : Type 0} (view : Disk → B) (o : Option (List Binding)) (d : Disk)
      → ((bs : List Binding) → view (write_unlocked json io bs d).1 ≡ view d)
      → view (stored o d).1 ≡ view d
  stored-Keeps view none d k = refl
  stored-Keeps view (some next) d k = k next

  stored-KeepsFailing :
      (o : Option (List Binding)) (d : Disk) (e : StoreError)
      → (stored o d).0 ≡ err e
      → (stored o d).1.file ≡ d.file
  stored-KeepsFailing none d e h = refl
  stored-KeepsFailing (some next) d e h = write_unlocked-KeepsFailing json io next d e h

  edited-Keeps :
      {B : Type 0} (view : Disk → B) (f : List Binding → Option (List Binding))
      (l : Result StoreError (List Binding)) (d : Disk)
      → ((bs : List Binding) → view (write_unlocked json io bs d).1 ≡ view d)
      → view (edited f l d).1 ≡ view d
  edited-Keeps view f (err e) d k = refl
  edited-Keeps view f (ok bs) d k = stored-Keeps view (f bs) d k

  edited-KeepsFailing :
      (f : List Binding → Option (List Binding)) (l : Result StoreError (List Binding)) (d : Disk)
      (e : StoreError)
      → (edited f l d).0 ≡ err e
      → (edited f l d).1.file ≡ d.file
  edited-KeepsFailing f (err x) d e h = refl
  edited-KeepsFailing f (ok bs) d e h = stored-KeepsFailing (f bs) d e h

  stored-elim :
      (o : Option (List Binding)) (d : Disk)
      → (elim o [ none ↦ (err no_binding, d) | some next ↦ write_unlocked json io next d ])
        ≡ stored o d
  stored-elim none d = refl
  stored-elim (some next) d = refl

  update-edited :
      (f : List Binding → Option (List Binding)) (d : Disk) (l : Result StoreError (List Binding))
      → load_unlocked json io d.file ≡ l
      → update json io f d ≡ edited f l d
  unfolding update
  update-edited f d (err e) h = rw (h, update) refl
  update-edited f d (ok bs) h = rw (h, update) (stored-elim (f bs) d)

  -- What an update makes of the disk, in the cases of its load and its edit.
  update-view :
      {B : Type 0} (view : Disk → B) (f : List Binding → Option (List Binding)) (d : Disk)
      → ((bs : List Binding) → view (write_unlocked json io bs d).1 ≡ view d)
      → view (update json io f d).1 ≡ view d
  update-view view f d k =
      let l = load_unlocked json io d.file in
      rw (update-edited f d l refl) (edited-Keeps view f l d k)

  update-err :
      (f : List Binding → Option (List Binding)) (d : Disk) (e : StoreError)
      → (update json io f d).0 ≡ err e
      → (update json io f d).1.file ≡ d.file
  update-err f d e h =
      let l = load_unlocked json io d.file in
      let same_call = update-edited f d l refl in
      ap (λ (x : Result StoreError Unit × Disk). x.1.file) same_call
      ∙ edited-KeepsFailing f l d e
          (sym (ap (λ (x : Result StoreError Unit × Disk). x.0) same_call) ∙ h)

  serve-update :
      (r : Request) (d : Disk) → serve json io r d ≡ with_lock json io (update json io (effect r)) d
  unfolding serve save bind add_grant drop_grant unbind effect
  serve-update (save_request next) d = refl
  serve-update (bind_request b) d = refl
  serve-update (add_request host name g) d = refl
  serve-update (drop_request host name g) d = refl
  serve-update (unbind_request row) d = refl

  with_lock-err :
      (f : List Binding → Option (List Binding)) (d : Disk) (e : StoreError)
      → (with_lock json io (update json io f) d).0 ≡ err e
      → (with_lock json io (update json io f) d).1.file ≡ d.file
  unfolding with_lock
  with_lock-err f d e = ground (arith, update-err f d e)

  with_lock-view :
      {B : Type 0} (view : Disk → B) (f : List Binding → Option (List Binding)) (d : Disk)
      → ((bs : List Binding) → view (write_unlocked json io bs d).1 ≡ view d)
      → view (with_lock json io (update json io f) d).1 ≡ view d
  unfolding with_lock
  with_lock-view view f d k =
      if_rule (λ (x : Result StoreError Unit × Disk). view x.1 ≡ view d) io.lockable
        (update json io f d) (err lock_failed, d) (λ _. update-view view f d k) (λ _. refl)

  -- A call that reports an error, whichever of its system calls failed (the write of the temporary file
  -- after any number of bytes), has left the file as it was. No call that begins without a temporary file
  -- leaves one that it does not count among those it could not remove; and where they can be removed, there
  -- is none more of these, whether the call fails or succeeds.
  pub serve_atomic :
      (r : Request) (d : Disk)
      → ((e : StoreError) → (serve json io r d).0 ≡ err e → (serve json io r d).1.file ≡ d.file)
        × (d.temp ≡ none → (serve json io r d).1.temp ≡ none)
        × (io.removes ≡ true → (serve json io r d).1.remains ≡ d.remains)
  serve_atomic r d = rw serve-update (
    with_lock-err (effect r) d,
    λ k.
        with_lock-view (λ x. x.temp) (effect r) d (λ bs. write_unlocked-temp json io bs d k ∙ sym k)
        ∙ k,
    λ h. with_lock-view (λ x. x.remains) (effect r) d (λ bs. write_unlocked-remains json io bs h d),
  )

  Reads-lock : (d : Disk) (bs : List Binding) → Reads d bs → io.lockable ≡ true
  unfolding load with_lock
  Reads-lock d bs h = ground arith

  Reads-file : (d : Disk) (bs : List Binding) → Reads d bs → load_unlocked json io d.file ≡ ok bs
  unfolding load with_lock
  Reads-file d bs h = ground (arith, Reads-lock d bs h)

  serve_written :
      (r : Request) (d : Disk) (bs bs' : List Binding)
      → load json io d ≡ (ok bs, d)
      → Writes io
      → effect r bs ≡ some bs'
      → serve json io r d ≡ (ok tt, written_disk json io d bs')
  unfolding with_lock update
  serve_written r d bs bs' h w e =
      rw serve-update
        (rw (Reads-lock d bs h) (update-ok (effect r) d bs bs' (Reads-file d bs h) e w))

load-written :
    (json : Codec) (later : Io) (bytes : Bytes) (d : Disk) (bs : List Binding)
    → json.decode bytes ≡ some bs
    → later.lockable ≡ true
    → later.readable ≡ true
    → load json later (record d { file = some bytes; temp = none })
      ≡ (ok bs, record d { file = some bytes; temp = none })
unfolding load with_lock load_unlocked decoded
load-written json later bytes d bs e lock read = rw (lock, read) (rw e)

module _ (json : Codec) (io : Io) where
  -- Where the lock is taken, the file reads as a list of bindings, the request applies to that
  -- list, the system calls of the write succeed, and JSON gives back the list that is written: the call succeeds, and
  -- every later load that gets the lock and the file gives what the request makes of the list, an
  -- empty list of grants being read as none.
  pub load-serve :
      (later : Io) (r : Request) (d : Disk) (bs bs' : List Binding)
      → RoundTrips json bs'
      → load json io d ≡ (ok bs, d)
      → Writes io
      → later.lockable ≡ true
      → later.readable ≡ true
      → effect r bs ≡ some bs'
      → (d' : Disk) × (serve json io r d ≡ (ok tt, d'))
        × (load json later d' ≡ (ok (map normal bs'), d'))
  load-serve later r d bs bs' trip h w lock read e = (
    written_disk json io d bs',
    serve_written json io r d bs bs' h w e,
    load-written json later _ d (map normal bs') trip lock read,
  )
