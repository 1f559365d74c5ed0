-- ===== src/Filesystem/Lines.antt =====
-- The buffer of `VSFTPFilesystemListDirPerLine` in src/common/vsftp_filesystem.c is never overfull.
use vs_ftp.Common.{
  ℕ, ◌≤◌, Bool, Bool-cases, inl, inr, Option, none, some, ◌∷◌, ◌++◌, arith, ltb, ◌==◌, ◌||◌,
  is_invalid, failure, length, if◌then◌else◌,
}
use vs_ftp.Libc.{Bytes, c_str}
use vs_ftp.Os.{Call, Os}
use vs_ftp.Machine.{Machine, pure, perform}
use vs_ftp.Filesystem.{slash, Listed, put_line, list_entry, open_stream, list_dir_per_line}

module _ {K : Type 0} ⦃os : Os K⦄ (buf : Bytes) (size : ℕ) (fits : length buf ≤ size) where
  put_line-fits :
      (line : Bytes) (o : Option ℕ) (d : ℕ) (s : Machine K)
      → length (put_line line buf size o d s).0.buf ≤ size
  unfolding put_line
  put_line-fits line o d s = elim (Bool-cases (ltb (length line) size)) [
    | inl e ↦ rw e (ground (arith, e))
    | inr e ↦ rw e fits
  ]

  list_entry-fits :
      (path : Bytes) (b : Bool) (o : Option ℕ) (d : ℕ) (s : Machine K)
      → length (list_entry path buf size b o d s).0.buf ≤ size
  unfolding list_entry
  list_entry-fits path b o d s =
      let (a, t) = perform (Call.readdir d) s in
      let line = if b then c_str path ++ slash ∷ c_str a.bytes else c_str a.bytes in
      elim (Bool-cases (is_invalid a.ret)) [
        | inl e ↦ rw e fits
        | inr e ↦ rw e (put_line-fits line o d t)
      ]

  stream-fits :
      (path : Bytes) (b : Bool) (o stream : Option ℕ) (s : Machine K)
      → length
          (elim stream as (λ _. Machine K → Listed × Machine K) [
            | none ↦ pure (record { retval = failure; buf = buf; cookie = o })
            | some d ↦ list_entry path buf size b o d
          ]
            s).0.buf
        ≤ size
  stream-fits path b o none s = fits
  stream-fits path b o (some d) s = list_entry-fits path b o d s

  pub list_dir_per_line-fits :
      (path : Bytes) (b : Bool) (o : Option ℕ) (s : Machine K)
      → length (list_dir_per_line path buf size b o s).0.buf ≤ size
  unfolding list_dir_per_line
  list_dir_per_line-fits path b o s =
      let x = open_stream path o s in
      elim (Bool-cases (length path == 0 || size == 0)) [
        | inl e ↦ rw e fits
        | inr e ↦ rw e (stream-fits path b o x.0 x.1)
      ]
