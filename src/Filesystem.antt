-- ===== src/Filesystem.antt =====
-- src/common/vsftp_filesystem.c. A `char *` and its length are one list, `NULL` with length 0 the
-- empty one; output parameters are part of the result.
pub mod Keeps
pub mod Lines
pub mod Resolved
use vs_ftp.Common.{
  ℕ, ◌+◌, ℤ, success, failure, is_zero, is_invalid, Bool, true, false, Option, none, some, [], ◌∷◌,
  ◌++◌, ltb, ◌==◌, ◌||◌, if◌then◌else◌, length, get_or,
}
use vs_ftp.Libc.{Bytes, c_str, strncpy}
use vs_ftp.Os.{Call, FileKind, directory, regular, other, Os}
use vs_ftp.Machine.{M, pure, ◌>>=◌, ◌>>◌, perform, invoke}

-- `PATH_LEN_MAX`
abbrev pub path_len_max : ℕ
path_len_max = 256

abbrev pub slash : ℕ
slash = b'/'

-- `ConcatCwdAndPath`
unfoldable pub concat_cwd_and_path : Bytes → Bytes → ℕ → Option Bytes
concat_cwd_and_path cwd path size =
    if ltb (length cwd + length path) size
    then (let out = c_str cwd ++ slash ∷ c_str path in
        if ltb (length out) size then some out else none)
    else none

-- `VSFTPFilesystemIsAbsPath`
unfoldable pub is_abs_path : Bytes → ℤ
is_abs_path path = if get_or path 0 0 == slash then success else failure

abbrev is_directory : FileKind → Bool
is_directory directory = true
is_directory regular = false
is_directory other = false

abbrev is_regular : FileKind → Bool
is_regular directory = false
is_regular regular = true
is_regular other = false

-- What `VSFTPFilesystemOpenFile` returns, with `*fd` (-1 before the call) and `*size` (0 before it).
pub record Opened : Type 0 where
  pub retval : ℤ
  pub fd : ℤ
  pub count : ℕ

abbrev not_opened : ℤ → Opened
not_opened r = record { retval = r; fd = failure; count = 0 }

-- What `VSFTPFilesystemListDirPerLine` returns, with `buf` and `*cookie` after the call.
pub record Listed : Type 0 where
  pub retval : ℤ
  pub buf : Bytes
  pub cookie : Option ℕ

module _ {K : Type 0} ⦃os : Os K⦄ where
  -- `VSFTPFilesystemIsDir`. What `stat` returns is not looked at.
  unfoldable pub is_dir : Bytes → M K ℤ
  is_dir [] = pure failure
  is_dir (c ∷ dir) = do
    a ← perform (Call.stat (c_str (c ∷ dir)))
    pure (if is_directory a.kind then success else failure)

  -- `VSFTPFilesystemIsFile`
  unfoldable pub is_file : Bytes → M K ℤ
  is_file [] = pure failure
  is_file (c ∷ file) = do
    a ← perform (Call.stat (c_str (c ∷ file)))
    pure (if is_regular a.kind then success else failure)

  -- The end of `VSFTPFilesystemGetRealPath`, once `lpath` is known.
  unfoldable pub resolve : Bytes → ℕ → M K (Option Bytes)
  resolve lpath size = do
    a ← perform (Call.realpath (c_str lpath))
    pure (
        if is_invalid a.ret
        then none
        else if ltb (length (strncpy a.bytes path_len_max)) size
        then some (strncpy a.bytes size)
        else none)

  -- `VSFTPFilesystemGetRealPath`. Every caller's `size` is `PATH_LEN_MAX`, with which the length
  -- that it reports is that of the path.
  unfoldable pub get_real_path : Bytes → Bytes → ℕ → M K (Option Bytes)
  unfolding resolve is_abs_path
  get_real_path cwd [] size = pure none
  get_real_path cwd (c ∷ path) size =
      if size == 0
      then pure none
      else if is_zero (is_abs_path (c ∷ path))
      then resolve (c ∷ path) size
      else if length cwd == 0
      then pure none
      else elim (concat_cwd_and_path cwd (c ∷ path) path_len_max) [
        | none ↦ pure none
        | some abs_path ↦ resolve abs_path size
      ]

  -- The part of `VSFTPFilesystemOpenFile` behind `open`.
  unfoldable pub measure : ℤ → M K Opened
  measure fd = if is_invalid fd then pure (not_opened failure) else (do
    a ← perform (Call.fstat fd)
    pure (record { retval = a.ret; fd = fd; count = if is_zero a.ret then a.size else 0 }))

  -- `VSFTPFilesystemOpenFile`
  unfoldable pub open_file : Bytes → M K Opened
  unfolding measure
  open_file [] = pure (not_opened failure)
  open_file (c ∷ path) = do
    r ← invoke (Call.access (c_str (c ∷ path)))
    if is_zero r
        then invoke (Call.open_file (c_str (c ∷ path))) >>= measure
        else pure (not_opened r)

  -- `VSFTPFilesystemCloseFile`
  unfoldable pub close_file : ℤ → M K ℤ
  close_file fd = invoke (Call.close fd)

  -- The directory stream that the call works on: the cookie, or one newly opened.
  unfoldable pub open_stream : Bytes → Option ℕ → M K (Option ℕ)
  open_stream path (some d) = pure (some d)
  open_stream path none = do
    r ← invoke (Call.opendir (c_str path))
    pure (elim r [ ℤ.pos d ↦ some d | ℤ.negsuc _ ↦ none ])

  -- The line of an entry is handed out if `buf` can hold it.
  unfoldable pub put_line : Bytes → Bytes → ℕ → Option ℕ → ℕ → M K Listed
  put_line line buf size cookie d =
      if ltb (length line) size
      then pure (record { retval = success; buf = line; cookie = some d })
      else perform (Call.closedir d)
        >> pure (record { retval = failure; buf = buf; cookie = cookie })

  -- The part from `readdir` on. At the end of the stream `buf` stays as it was.
  unfoldable pub list_entry : Bytes → Bytes → ℕ → Bool → Option ℕ → ℕ → M K Listed
  unfolding put_line
  list_entry path buf size prepend_dir cookie d = do
    a ← perform (Call.readdir d)
    let line = if prepend_dir then c_str path ++ slash ∷ c_str a.bytes else c_str a.bytes
    if is_invalid a.ret
        then perform (Call.closedir d)
          >> pure (record { retval = success; buf = buf; cookie = none })
        else put_line line buf size cookie d

  -- `VSFTPFilesystemListDirPerLine`; `buf` comes in with what the call before left in it.
  unfoldable pub list_dir_per_line : Bytes → Bytes → ℕ → Bool → Option ℕ → M K Listed
  unfolding open_stream list_entry
  list_dir_per_line path buf size prepend_dir cookie =
      if length path == 0 || size == 0
      then pure (record { retval = failure; buf = buf; cookie = cookie })
      else (do
        stream ← open_stream path cookie
        elim stream [
          | none ↦ pure (record { retval = failure; buf = buf; cookie = cookie })
          | some d ↦ list_entry path buf size prepend_dir cookie d
        ])
