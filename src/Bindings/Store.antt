-- ===== src/Bindings/Store.antt =====
-- The database file of internal/bindings/store.go: each call takes the lock, reads the file and, if
-- it writes, replaces the file by a temporary one. JSON and the outcome of each system call are
-- parameters.
pub mod Written
pub mod Durable
use agterm_remote.Bindings.{
  Binding, Grant, edit_grants, save_all, unbind_row, upsert, with_grant, without_grant,
}
use agterm_remote.Bindings.Distinct.{IsDistinct, IsDistinct-filter}
use agterm_remote.Bindings.Grants.{Holds, Holds-IsDistinct}
use agterm_remote.Bindings.Upsert.{upsert-IsDistinct}
use agterm_remote.Prelude.{
  Bool, List, Option, [], if◌then◌else◌, none, not, some, take, true, false, ℕ, ◌++◌, ◌∷◌, ◌≡◌,
}
use agterm_remote.Result.{Result, err, ok}
use agterm_remote.Text.{Bytes, bytes_eq}

pub data StoreError : Type 0 where
  lock_failed read_failed decode_failed no_binding : StoreError
  mkdir_failed encode_failed create_failed chmod_failed write_failed sync_failed close_failed
        rename_failed :
      StoreError

-- The file's bytes, `none` being a missing file; the temporary file of the present call; and the
-- temporary files that earlier calls could not remove.
pub record Disk : Type 0 where
  pub file : Option Bytes
  pub temp : Option Bytes
  pub remains : List Bytes

-- Whether the system calls of one call succeed: taking the lock, reading the file that is there, and
-- those of the write, where `written` says after how many bytes the write of the temporary file breaks
-- off, if it does.
pub record Io : Type 0 where
  pub lockable : Bool
  pub readable : Bool
  pub makes_dir : Bool
  pub encodes : Bool
  pub creates : Bool
  pub chmods : Bool
  pub breaks_off : Option ℕ
  pub syncs : Bool
  pub closes : Bool
  pub renames : Bool
  pub removes : Bool

-- `encoding/json` on the list of bindings.
pub record Codec : Type 0 where
  pub encode : List Binding → Bytes
  pub decode : Bytes → Option (List Binding)

-- An action on the file.
abbrev pub Call : Type 0 → Type 0
Call A = Disk → Result StoreError A × Disk

abbrev pub newline : Bytes
newline = b'\n' ∷ []

-- A system call: it does its work, or fails and changes nothing.
abbrev pub try : Bool → StoreError → (Disk → Disk) → Call Unit
try works e change d = if works then (ok tt, change d) else (err e, d)

-- The next part is only run where this one succeeded.
abbrev pub after_part : Call Unit → Result StoreError Unit × Disk → Result StoreError Unit × Disk
after_part next (err e, d) = (err e, d)
after_part next (ok u, d) = next d

infixr 20 ◌and_then◌
abbrev pub ◌and_then◌ : Call Unit → Call Unit → Call Unit
(part and_then next) d = after_part next (part d)

abbrev pub same : Disk → Disk
same d = d

abbrev pub create_temp : Disk → Disk
create_temp d = record d { temp = some [] }

-- `os.Rename`: the temporary file becomes the file.
abbrev pub rename : Disk → Disk
rename d = record d { file = d.temp; temp = none }

-- The deferred `os.Remove`; behind a rename there is nothing to remove.
abbrev pub remove_temp : Bool → Option Bytes → Disk → Disk
remove_temp removes none d = d
remove_temp true (some bytes) d = record d { temp = none }
remove_temp false (some bytes) d = record d { temp = none; remains = bytes ∷ d.remains }

-- The write of the temporary file.
abbrev pub fill_temp : Bytes → Option ℕ → Call Unit
fill_temp bytes none d = (ok tt, record d { temp = some bytes })
fill_temp bytes (some n) d = (err write_failed, record d { temp = some (take n bytes) })

abbrev pub remove_behind : Bool → Result StoreError Unit × Disk → Result StoreError Unit × Disk
remove_behind removes (r, d) = (r, remove_temp removes d.temp d)

module _ (json : Codec) (io : Io) where
  with_lock : {A : Type 0} → Call A → Call A
  with_lock fn d = if io.lockable then fn d else (err lock_failed, d)

  decoded : Option (List Binding) → Result StoreError (List Binding)
  decoded none = err decode_failed
  decoded (some bs) = ok bs

  load_unlocked : Option Bytes → Result StoreError (List Binding)
  unfolding decoded
  load_unlocked none = ok []
  load_unlocked (some bytes) = if io.readable then decoded (json.decode bytes) else err read_failed

  -- The part of `writeUnlocked` behind the creation of its temporary file.
  abbrev pub finish_temp : Bytes → Call Unit
  finish_temp bytes =
      try io.chmods chmod_failed same
      and_then fill_temp bytes io.breaks_off
      and_then try io.syncs sync_failed same
      and_then try io.closes close_failed same
      and_then try io.renames rename_failed rename

  unfoldable pub write_unlocked : List Binding → Call Unit
  write_unlocked bs =
      try io.makes_dir mkdir_failed same
      and_then try io.encodes encode_failed same
      and_then try io.creates create_failed create_temp
      and_then (λ d. remove_behind io.removes (finish_temp (json.encode bs ++ newline) d))

  -- The shape of every writer: load, compute, write.
  update : (List Binding → Option (List Binding)) → Call Unit
  unfolding load_unlocked write_unlocked
  update f d = elim (load_unlocked d.file) [
    | err e ↦ (err e, d)
    | ok current ↦ elim (f current) [
      | none ↦ (err no_binding, d)
      | some next ↦ write_unlocked next d
    ]
  ]

  unfoldable pub load : Call (List Binding)
  unfolding with_lock load_unlocked
  load = with_lock (λ d. (load_unlocked d.file, d))

  unfoldable pub save : List Binding → Call Unit
  unfolding with_lock update
  save next = with_lock (update (λ current. some (save_all current next)))

  unfoldable pub bind : Binding → Call Unit
  unfolding with_lock update
  bind b = with_lock (update (λ current. some (upsert current b)))

  unfoldable pub add_grant : Bytes → Bytes → Grant → Call Unit
  unfolding with_lock update
  add_grant host name g = with_lock (update (edit_grants host name (with_grant g)))

  unfoldable pub drop_grant : Bytes → Bytes → Grant → Call Unit
  unfolding with_lock update
  drop_grant host name g = with_lock (update (edit_grants host name (without_grant g)))

  unfoldable pub unbind : Bytes → Call Unit
  unfolding with_lock update
  unbind row = with_lock (update (λ current. some (unbind_row row current)))

-- The writers of the store.
pub data Request : Type 0 where
  save_request : List Binding → Request
  bind_request : Binding → Request
  add_request drop_request : Bytes → Bytes → Grant → Request
  unbind_request : Bytes → Request

module _ (json : Codec) (io : Io) where
  unfoldable pub serve : Request → Call Unit
  serve (save_request next) = save json io next
  serve (bind_request b) = bind json io b
  serve (add_request host name g) = add_grant json io host name g
  serve (drop_request host name g) = drop_grant json io host name g
  serve (unbind_request row) = unbind json io row

-- What a writer makes of the list of bindings; `none` is a missing session.
unfoldable pub effect : Request → List Binding → Option (List Binding)
effect (save_request next) bs = some (save_all bs next)
effect (bind_request b) bs = some (upsert bs b)
effect (add_request host name g) bs = edit_grants host name (with_grant g) bs
effect (drop_request host name g) bs = edit_grants host name (without_grant g) bs
effect (unbind_request row) bs = some (unbind_row row bs)

save_all-IsDistinct : (bs next : List Binding) → IsDistinct bs → IsDistinct (save_all bs next)
unfolding save_all
save_all-IsDistinct bs [] d = d
save_all-IsDistinct bs (b ∷ next) d =
    save_all-IsDistinct (upsert bs b) next (upsert-IsDistinct bs b d)

Holds-effect : (r : Request) (bs : List Binding) → IsDistinct bs → Holds IsDistinct (effect r bs)
unfolding effect unbind_row
Holds-effect (save_request next) bs d = save_all-IsDistinct bs next d
Holds-effect (bind_request b) bs d = upsert-IsDistinct bs b d
Holds-effect (add_request host name g) bs d = Holds-IsDistinct host name (with_grant g) bs d
Holds-effect (drop_request host name g) bs d = Holds-IsDistinct host name (without_grant g) bs d
Holds-effect (unbind_request row) bs d = IsDistinct-filter (λ b. not (bytes_eq b.row row)) bs d

-- Every writer keeps the bindings free of conflicts.
pub effect-IsDistinct :
    (r : Request) (bs : List Binding) {bs' : List Binding}
    → effect r bs ≡ some bs'
    → IsDistinct bs
    → IsDistinct bs'
effect-IsDistinct r bs e d = rw e at (Holds-effect r bs d)
