-- ===== src/Filesystem/Keeps.antt =====
-- src/common/vsftp_filesystem.c keeps what its system calls keep.
use vs_ftp.Common.{
  arith, ℕ, ℤ, is_zero, is_invalid, Bool, Option, none, some, [], ◌∷◌, ltb, refl, length,
}
use vs_ftp.Libc.{Bytes, c_str}
use vs_ftp.Os.{Call, Os}
use vs_ftp.Machine.{Machine, pure, ◌>>=◌, perform, invoke}
use vs_ftp.Machine.Keeps.{Keeps, Frame, if-Keeps}
use vs_ftp.Filesystem.{
  is_dir, is_file, resolve, get_real_path, measure, open_file, close_file, put_line, list_entry,
  list_dir_per_line,
}

module _ {K : Type 0} ⦃os : Os K⦄ {P : Machine K → Type 0} (frame : Frame P) where
  pub is_dir-Keeps : (dir : Bytes) → Keeps P (is_dir dir)
  unfolding is_dir
  is_dir-Keeps [] s h = h
  is_dir-Keeps (c ∷ dir) s h = frame.call _ refl s h

  pub is_file-Keeps : (file : Bytes) → Keeps P (is_file file)
  unfolding is_file
  is_file-Keeps [] s h = h
  is_file-Keeps (c ∷ file) s h = frame.call _ refl s h

  pub resolve-Keeps : (lpath : Bytes) (size : ℕ) → Keeps P (resolve lpath size)
  unfolding resolve
  resolve-Keeps lpath size s h = frame.call _ refl s h

  pub get_real_path-Keeps : (cwd path : Bytes) (size : ℕ) → Keeps P (get_real_path cwd path size)
  unfolding get_real_path
  get_real_path-Keeps cwd [] size s h = h
  get_real_path-Keeps cwd (c ∷ path) size s h = grind (arith, frame.call)

  measure-Keeps : (fd : ℤ) → Keeps P (measure fd)
  unfolding measure
  measure-Keeps fd = if-Keeps P (is_invalid fd) _ _ (λ s h. h) (λ s h. frame.call _ refl s h)

  pub open_file-Keeps : (path : Bytes) → Keeps P (open_file path)
  unfolding open_file
  open_file-Keeps [] s h = h
  open_file-Keeps (c ∷ path) s h =
      if-Keeps P (is_zero (invoke (Call.access (c_str (c ∷ path))) s).0)
        (invoke (Call.open_file (c_str (c ∷ path))) >>= measure) (pure _)
        (λ t k. measure-Keeps _ _ (frame.call _ refl t k)) (λ t k. k) _ (frame.call _ refl s h)

  pub close_file-Keeps : (fd : ℤ) → Keeps P (close_file fd)
  unfolding close_file
  close_file-Keeps fd s h = frame.call _ refl s h

  put_line-Keeps :
      (line buf : Bytes) (size : ℕ) (o : Option ℕ) (d : ℕ) → Keeps P (put_line line buf size o d)
  unfolding put_line
  put_line-Keeps line buf size o d =
      if-Keeps P (ltb (length line) size) _ _ (λ s h. h) (λ s h. frame.call _ refl s h)

  pub list_entry-Keeps :
      (path buf : Bytes) (size : ℕ) (b : Bool) (o : Option ℕ) (d : ℕ)
      → Keeps P (list_entry path buf size b o d)
  unfolding list_entry
  list_entry-Keeps path buf size b o d s h =
      if-Keeps P (is_invalid (perform (Call.readdir d) s).0.ret) _ _ (λ t k. frame.call _ refl t k)
        (put_line-Keeps _ buf size o d) _ (frame.call _ refl s h)

  -- A listing opens its directory, which the property has to allow; the rest is kept.
  pub list_dir_per_line-Keeps :
      (path buf : Bytes) (size : ℕ) (b : Bool) (o : Option ℕ) (s : Machine K)
      → P (perform (Call.opendir (c_str path)) s).1
      → P s
      → P (list_dir_per_line path buf size b o s).1
  unfolding list_dir_per_line
  list_dir_per_line-Keeps path buf size b none s allowed h =
      grind (arith, list_entry-Keeps path buf size b none)
  list_dir_per_line-Keeps path buf size b (some d) s allowed h =
      ground (arith, list_entry-Keeps path buf size b (some d) d s)
