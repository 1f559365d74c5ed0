-- ===== src/Log/Mirror/Outputs.antt =====
-- What the calls of `FTPLog` in src/linux/io.c have put on the terminal and into a file.
use vs_ftp.Common.{
  ℕ, ◌≡◌, refl, sym, ap, ◌∙◌, Bool-cases, inl, inr, List, [], ◌∷◌, ◌++◌, append_assoc, append-nil,
  ◌==◌, if◌then◌else◌,
}
use vs_ftp.Libc.{Bytes}
use vs_ftp.Log.{
  Output, printed, opened, written, flushed, overflow, bad_format, overflowed_int, no_stream,
  Logger, emit,
}

-- The bytes on the terminal, and those in a file.
abbrev pub on_terminal : List Output → Bytes
on_terminal [] = []
on_terminal (printed b ∷ o) = b ++ on_terminal o
on_terminal (_ ∷ o) = on_terminal o

abbrev pub in_file : ℕ → List Output → Bytes
in_file f [] = []
in_file f (written g b ∷ o) = if f == g then b ++ in_file f o else in_file f o
in_file f (_ ∷ o) = in_file f o

pub on_terminal-append : (o p : List Output) → on_terminal (o ++ p) ≡ on_terminal o ++ on_terminal p
on_terminal-append [] p = refl
on_terminal-append (printed b ∷ o) p =
    ap (λ r. b ++ r) (on_terminal-append o p) ∙ sym (append_assoc b (on_terminal o) (on_terminal p))
on_terminal-append (opened b ∷ o) p = on_terminal-append o p
on_terminal-append (written g b ∷ o) p = on_terminal-append o p
on_terminal-append (flushed g ∷ o) p = on_terminal-append o p
on_terminal-append (overflow n ∷ o) p = on_terminal-append o p
on_terminal-append (bad_format b ∷ o) p = on_terminal-append o p
on_terminal-append (overflowed_int ∷ o) p = on_terminal-append o p
on_terminal-append (no_stream ∷ o) p = on_terminal-append o p

pub in_file-append : (f : ℕ) (o p : List Output) → in_file f (o ++ p) ≡ in_file f o ++ in_file f p
in_file-append f [] p = refl
in_file-append f (printed b ∷ o) p = in_file-append f o p
in_file-append f (opened b ∷ o) p = in_file-append f o p
in_file-append f (written g b ∷ o) p = elim (Bool-cases (f == g)) [
  | inl e ↦
      rw e
        (ap (λ r. b ++ r) (in_file-append f o p) ∙ sym (append_assoc b (in_file f o) (in_file f p)))
  | inr e ↦ rw e (in_file-append f o p)
]
in_file-append f (flushed g ∷ o) p = in_file-append f o p
in_file-append f (overflow n ∷ o) p = in_file-append f o p
in_file-append f (bad_format b ∷ o) p = in_file-append f o p
in_file-append f (overflowed_int ∷ o) p = in_file-append f o p
in_file-append f (no_stream ∷ o) p = in_file-append f o p

-- `t` is put on the terminal and `w` into the file.
abbrev pub Puts : ℕ → Bytes → Bytes → Logger → Logger → Type 0
Puts f t w l m =
    (on_terminal m.out ≡ on_terminal l.out ++ t) × (in_file f m.out ≡ in_file f l.out ++ w)

pub Puts-emit :
    (f : ℕ) (o : Output) (l : Logger)
    → Puts f (on_terminal (o ∷ [])) (in_file f (o ∷ [])) l (emit o l)
Puts-emit f o l = (on_terminal-append l.out (o ∷ []), in_file-append f l.out (o ∷ []))

pub Puts-nothing : (f : ℕ) (l : Logger) → Puts f [] [] l l
Puts-nothing f l = (sym (append-nil (on_terminal l.out)), sym (append-nil (in_file f l.out)))

pub Puts-then :
    (f : ℕ) (t w t' w' : Bytes) (k l m : Logger)
    → Puts f t w k l
    → Puts f t' w' l m
    → Puts f (t ++ t') (w ++ w') k m
Puts-then f t w t' w' k l m p q = (
  q.0 ∙ ap (λ (r : Bytes). r ++ t') p.0 ∙ append_assoc (on_terminal k.out) t t',
  q.1 ∙ ap (λ (r : Bytes). r ++ w') p.1 ∙ append_assoc (in_file f k.out) w w',
)

-- What puts nothing more on the terminal, or nothing more at all.
pub Puts-file :
    (f : ℕ) (t w w' : Bytes) (k l m : Logger)
    → Puts f t w k l
    → Puts f [] w' l m
    → Puts f t (w ++ w') k m
Puts-file f t w w' k l m p q =
    let r = Puts-then f t w [] w' k l m p q in
    (r.0 ∙ ap (λ (x : Bytes). on_terminal k.out ++ x) (append-nil t), r.1)

pub Puts-last :
    (f : ℕ) (t w : Bytes) (k l m : Logger) → Puts f t w k l → Puts f [] [] l m → Puts f t w k m
Puts-last f t w k l m p q =
    let r = Puts-file f t w [] k l m p q in
    (r.0, r.1 ∙ ap (λ (x : Bytes). in_file f k.out ++ x) (append-nil w))
