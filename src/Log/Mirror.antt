-- ===== src/Log/Mirror.antt =====
-- What reaches the log file of src/linux/io.c.
pub mod Outputs
use vs_ftp.Common.{
  ◌+◌, ◌^◌, ℕ, ◌≡◌, refl, subst, sym, ap, ◌∙◌, Bool-cases, inl, inr, true, Option, none, some, List,
  [], ◌∷◌, ◌++◌, arith, ltb, ◌==◌, if◌then◌else◌, length, ◌⊎◌,
}
use vs_ftp.Libc.{Bytes}
use vs_ftp.Libc.Format.{Arg, expand}
use vs_ftp.Log.{
  Tm, add_year, overflowed_int, printed, opened, written, flushed, overflow, bad_format, Logger,
  emit, LogCall, time_stamp, log_path, line_head, array_size, store, print_line, open_log,
  write_line, write_log, ftp_log, log_all,
}
pub use Outputs.*

store-Puts : (f : ℕ) (text : Bytes) (l : Logger) → Puts f [] [] l (store text l)
unfolding store
store-Puts f text l = elim (Bool-cases (ltb (length text) array_size)) [
  | inl e ↦ rw e (Puts-nothing f l)
  | inr e ↦ rw e (Puts-emit f (overflow array_size) l)
]

add_year-Puts : (f : ℕ) (now : Tm) (l : Logger) → Puts f [] [] l (add_year now l)
unfolding add_year
add_year-Puts f now l = elim (Bool-cases (ltb (now.tm_year + 1900) (2 ^ 31))) [
  | inl e ↦ rw e (Puts-nothing f l)
  | inr e ↦ rw e (Puts-emit f overflowed_int l)
]

-- What a format and its arguments put out.
abbrev text_of : Option Bytes → Bytes
text_of none = []
text_of (some t) = t ++ []

same_file : (f : ℕ) (b : Bytes) → in_file f (written f b ∷ []) ≡ b ++ []
same_file f b = let same : (f == f) ≡ true = ground arith in rw same refl

-- `print_line` on what the format gave.
abbrev printing : Bytes → Logger → Option Bytes → Logger
printing format l expanded = elim expanded [
  | none ↦ emit (bad_format format) l
  | some text ↦ emit (printed text) l
]

printing-Puts :
    (f : ℕ) (format : Bytes) (l : Logger) (o : Option Bytes)
    → Puts f (text_of o) [] l (printing format l o) × ((printing format l o).log_fp ≡ l.log_fp)
printing-Puts f format l none = (Puts-emit f (bad_format format) l, refl)
printing-Puts f format l (some t) = (Puts-emit f (printed t) l, refl)

-- `write_line` on what the format gave.
abbrev writing : ℕ → Bytes → Logger → Option Bytes → Logger
writing f format l expanded = elim expanded [
  | none ↦ emit (bad_format format) l
  | some text ↦ emit (written f text) l
]

writing-Puts :
    (f : ℕ) (format : Bytes) (l : Logger) (o : Option Bytes)
    → Puts f [] (text_of o) l (writing f format l o) × ((writing f format l o).log_fp ≡ l.log_fp)
writing-Puts f format l none = (Puts-emit f (bad_format format) l, refl)
writing-Puts f format l (some t) = (rw (← same_file f t) (Puts-emit f (written f t) l), refl)

add_year-log_fp : (now : Tm) (l : Logger) → (add_year now l).log_fp ≡ l.log_fp
unfolding add_year
add_year-log_fp now l = elim (Bool-cases (ltb (now.tm_year + 1900) (2 ^ 31))) [
  | inl e ↦ rw e refl
  | inr e ↦ rw e refl
]

store-log_fp : (text : Bytes) (l : Logger) → (store text l).log_fp ≡ l.log_fp
unfolding store
store-log_fp text l = elim (Bool-cases (ltb (length text) array_size)) [
  | inl e ↦ rw e refl
  | inr e ↦ rw e refl
]

-- The stream is `f`, or the call opens it.
abbrev Goes : ℕ → Option ℕ → Logger → Type 0
Goes f fopen l = (l.log_fp ≡ some f) ⊎ ((l.log_fp ≡ none) × (fopen ≡ some f))

Goes-same :
    (f : ℕ) (fopen : Option ℕ) (l m : Logger)
    → m.log_fp ≡ l.log_fp
    → Goes f fopen l
    → Goes f fopen m
Goes-same f fopen l m e (inl h) = inl (e ∙ h)
Goes-same f fopen l m e (inr h) = inr (e ∙ h.0, h.1)

-- `open_log` on what `logFp` is.
abbrev opening : Bytes → Option ℕ → Logger → Option ℕ → Logger
opening stamp fopen l fp = elim fp [
  | some f ↦ l
  | none ↦ record (emit (opened (log_path stamp)) (store (log_path stamp) l)) { log_fp = fopen }
]

open_log-Puts :
    (f : ℕ) (stamp : Bytes) (fopen : Option ℕ) (l : Logger)
    → Goes f fopen l
    → Puts f [] [] l (open_log stamp fopen l) × ((open_log stamp fopen l).log_fp ≡ some f)
unfolding open_log
open_log-Puts f stamp fopen l (inl h) =
    subst
      (λ fp.
        Puts f [] [] l (opening stamp fopen l fp) × ((opening stamp fopen l fp).log_fp ≡ some f))
      (sym h) (Puts-nothing f l, h)
open_log-Puts f stamp fopen l (inr h) =
    let m = store (log_path stamp) l in
    subst
      (λ fp.
        Puts f [] [] l (opening stamp fopen l fp) × ((opening stamp fopen l fp).log_fp ≡ some f))
      (sym h.0)
      (
        Puts-last f [] [] l m (emit (opened (log_path stamp)) m) (store-Puts f (log_path stamp) l)
            (Puts-emit f (opened (log_path stamp)) m),
        h.1,
      )

write_log-Puts :
    (f : ℕ) (head format : Bytes) (args : List Arg) (l : Logger)
    → Puts f []
        ((head ++ []) ++ text_of (expand format args))
        l
        (write_log (some f) head format args l)
      × ((write_log (some f) head format args l).log_fp ≡ l.log_fp)
unfolding write_log write_line
write_log-Puts f head format args l =
    let m = emit (written f head) l in
    let n = writing f format m (expand format args) in
    let first : Puts f [] (head ++ []) l m =
      rw (← same_file f head) (Puts-emit f (written f head) l) in
    let w = writing-Puts f format m (expand format args) in
    (
      Puts-last f [] ((head ++ []) ++ text_of (expand format args)) l n (emit (flushed f) n)
          (Puts-then f [] (head ++ []) [] (text_of (expand format args)) l m n first w.0)
          (Puts-emit f (flushed f) n),
      w.1,
    )

-- A call puts the same on the terminal and into the file.
ftp_log-Puts :
    (f : ℕ) (c : LogCall) (l : Logger)
    → Goes f c.fopen l
    → let x =
        (line_head (time_stamp c.now) c.file c.line ++ []) ++ text_of (expand c.format c.args) in
      Puts f x x l (ftp_log c l) × ((ftp_log c l).log_fp ≡ some f)
unfolding ftp_log print_line
ftp_log-Puts f c l goes =
    let stamp = time_stamp c.now in
    let head = line_head stamp c.file c.line in
    let text = text_of (expand c.format c.args) in
    let y = add_year c.now l in
    let a = store stamp y in
    let b = emit (printed head) a in
    let d = printing c.format b (expand c.format c.args) in
    let e = open_log stamp c.fopen d in
    let p = printing-Puts f c.format b (expand c.format c.args) in
    let o =
      open_log-Puts f stamp c.fopen d
        (Goes-same f c.fopen l d (p.1 ∙ store-log_fp stamp y ∙ add_year-log_fp c.now l) goes) in
    let w = write_log-Puts f head c.format c.args e in
    let on_a = Puts-last f [] [] l y a (add_year-Puts f c.now l) (store-Puts f stamp y) in
    let on_b = Puts-then f [] [] (head ++ []) [] l a b on_a (Puts-emit f (printed head) a) in
    let on_d = Puts-then f (head ++ []) [] text [] l b d on_b p.0 in
    let on_e = Puts-last f ((head ++ []) ++ text) [] l d e on_d o.0 in
    subst
      (λ fp.
        Puts f ((head ++ []) ++ text) ((head ++ []) ++ text) l (write_log fp head c.format c.args e)
        × ((write_log fp head c.format c.args e).log_fp ≡ some f))
      (sym o.1)
      (
        Puts-file f ((head ++ []) ++ text) [] ((head ++ []) ++ text) l e
            (write_log (some f) head c.format c.args e) on_e w.0,
        w.1 ∙ o.1,
      )

-- The calls of a program, one by one, put the same on the terminal and into the file.
log_all-same :
    (f : ℕ) (calls : List LogCall) (l : Logger)
    → l.log_fp ≡ some f
    → on_terminal l.out ≡ in_file f l.out
    → on_terminal (log_all calls l).out ≡ in_file f (log_all calls l).out
log_all-same f [] l there same = same
log_all-same f (c ∷ calls) l there same =
    let r = ftp_log-Puts f c l (inl there) in
    let put =
      (line_head (time_stamp c.now) c.file c.line ++ []) ++ text_of (expand c.format c.args) in
    log_all-same f calls (ftp_log c l) r.1 (r.0.0 ∙ ap (λ (x : Bytes). x ++ put) same ∙ sym r.0.1)

-- The log file gets what the terminal gets: if the first call opens the file, then after it and any
-- further calls, whatever they are given, the bytes written to the file are those printed.
pub log_all-mirrors :
    (f : ℕ) (c : LogCall) (calls : List LogCall)
    → c.fopen ≡ some f
    → let l = log_all (c ∷ calls) (record { log_fp = none; out = [] }) in
      on_terminal l.out ≡ in_file f l.out
log_all-mirrors f c calls first =
    let r = ftp_log-Puts f c (record { log_fp = none; out = [] }) (inr (refl, first)) in
    log_all-same f calls (ftp_log c (record { log_fp = none; out = [] })) r.1 (r.0.0 ∙ sym r.0.1)
