-- ===== src/Proxy/Wire.antt =====
-- internal/proxy/wire.go: the header of a call with its limits, and the body. JSON decoding is a
-- parameter; a reader is the bytes that are still to come.
pub mod Limits
pub mod Body
use agterm_remote.Int.{negsuc, pos, ℤ}
use agterm_remote.Prelude.{
  Bool, List, Option, [], false, if◌then◌else◌, is_nil, is_none, leb, length, ltb, none, not, some,
  suc, zero, ℕ, ◌+◌, ◌==◌, ◌∷◌,
}
use agterm_remote.Result.{Result, err, ok, ◌>>=◌}
use agterm_remote.Text.{Bytes, bytes_eq, codes}
use agterm_remote.Token.{valid}

unfoldable pub max_files : ℕ
max_files = 8

unfoldable pub max_files_total : ℕ
max_files_total = 8388608

unfoldable pub max_stdin : ℕ
max_stdin = 1048576

unfoldable pub frame_chunk : ℕ
frame_chunk = 65536

pub record Self : Type 0 where
  pub row : Bytes
  pub pane_id : Bytes

pub record Header : Type 0 where
  pub session : Bytes
  pub self : Self
  pub cwd : Bytes
  pub argv : List Bytes
  pub files : List ℤ
  pub stdin : ℤ

-- `wireHeader`: the header line as JSON gives it; an absent `session_id` is empty.
pub record WireHeader : Type 0 where
  pub cmd : Bytes
  pub v : ℤ
  pub session_id : Bytes
  pub header : Header

pub data HeaderError : Type 0 where
  bad_json bad_version has_session_id : HeaderError
  bad_cmd bad_session : Bytes → HeaderError
  too_many_files : ℕ → HeaderError
  bad_size bad_stdin : ℤ → HeaderError
  files_exceed : HeaderError

-- The size where it is not negative and at most the limit.
unfoldable pub within_limit : ℕ → ℤ → Option ℕ
within_limit limit (pos n) = if leb n limit then some n else none
within_limit limit (negsuc _) = none

-- The loop over the file sizes, with the running total.
unfoldable pub check_files : ℕ → List ℤ → Option HeaderError
check_files before [] = none
check_files before (size ∷ sizes) = elim (within_limit max_files_total size) [
  | none ↦ some (bad_size size)
  | some n ↦
      let rest = check_files (before + n) sizes in
      if ltb max_files_total (before + n) then some files_exceed else rest
]

abbrev is_one : ℤ → Bool
is_one (pos n) = n == 1
is_one (negsuc _) = false

unfoldable pub check_header : WireHeader → Result HeaderError Header
check_header w =
    let h = w.header in
    if not (bytes_eq w.cmd (codes "ctl"))
    then err (bad_cmd w.cmd)
    else if not (is_one w.v)
    then err bad_version
    else if not (is_nil w.session_id)
    then err has_session_id
    else if not (valid h.session)
    then err (bad_session h.session)
    else if ltb max_files (length h.files)
    then err (too_many_files (length h.files))
    else elim (check_files 0 h.files) [
      | some e ↦ err e
      | none ↦ if is_none (within_limit max_stdin h.stdin) then err (bad_stdin h.stdin) else ok h
    ]

unfoldable pub decode_header : (Bytes → Option WireHeader) → Bytes → Result HeaderError Header
decode_header unmarshal line = elim (unmarshal line) [
  | none ↦ err bad_json
  | some w ↦ check_header w
]

-- A negative size makes `make` panic.
pub data BodyError : Type 0 where
  short_file short_stdin make_panics : BodyError

-- `io.ReadFull` on a buffer of that many bytes.
unfoldable pub read_full : ℕ → Bytes → Option (Bytes × Bytes)
read_full zero r = some ([], r)
read_full (suc n) [] = none
read_full (suc n) (c ∷ r) = elim (read_full n r) [
  | none ↦ none
  | some (data_read, rest) ↦ some (c ∷ data_read, rest)
]

unfoldable pub read_sized : BodyError → ℤ → Bytes → Result BodyError (Bytes × Bytes)
read_sized why (negsuc _) r = err make_panics
read_sized why (pos n) r = elim (read_full n r) [ none ↦ err why | some out ↦ ok out ]

unfoldable pub read_files : List ℤ → Bytes → Result BodyError (List Bytes × Bytes)
read_files [] r = ok ([], r)
read_files (size ∷ sizes) r = do
  (file, r₁) ← read_sized short_file size r
  (files, r₂) ← read_files sizes r₁
  ok (file ∷ files, r₂)

-- The files, the standard input, and what the reader still holds.
unfoldable pub read_body : Header → Bytes → Result BodyError (List Bytes × (Bytes × Bytes))
read_body h r = do
  (files, r₁) ← read_files h.files r
  (stdin, r₂) ← read_sized short_stdin h.stdin r₁
  ok (files, (stdin, r₂))
