-- ===== src/Commands/Table.antt =====
-- Which entry of the table `VSFTPCommandsParse` in src/common/vsftp_commands.c finds.
use mathlib.Core.List.{Memᴰ}
use mathlib.Core.Option.{some-injective}
use vs_ftp.Common.{
  ◌≡◌, refl, sym, subst, ◌↔◌, Bool-cases, inl, inr, true, some, List, [], ◌∷◌, ◌++◌, arith, length,
  All,
}
use vs_ftp.Libc.{Bytes, strncmp_eq}
use vs_ftp.Filesystem.Resolved.{NoNul}
use vs_ftp.Commands.{Entry, commands, find}

-- The text goes on from the name.
abbrev pub StartsWith : Bytes → Bytes → Type 0
StartsWith name buffer = (rest : Bytes) × (buffer ≡ name ++ rest)

strncmp_eq-StartsWith :
    (name buffer : Bytes)
    → NoNul name
    → strncmp_eq buffer name (length name) ≡ true
    → StartsWith name buffer
unfolding strncmp_eq
strncmp_eq-StartsWith [] buffer n h = (buffer, refl)
strncmp_eq-StartsWith (c ∷ name) [] n h = absurd (ground (arith, n, h))
strncmp_eq-StartsWith (c ∷ name) (d ∷ buffer) n h =
    let same : d ≡ c = ground (arith, h) in
    let more : strncmp_eq buffer name (length name) ≡ true = ground (arith, n.0, h) in
    let (rest, p) = strncmp_eq-StartsWith name buffer n.1 more in (rest, rw (same, p) refl)

strncmp_eq-append :
    (name rest : Bytes) → NoNul name → strncmp_eq (name ++ rest) name (length name) ≡ true
unfolding strncmp_eq
strncmp_eq-append [] rest n = refl
strncmp_eq-append (c ∷ name) rest n = ground (arith, strncmp_eq-append name rest n.1)

-- The loop over any table whose names have no NUL finds an entry with which the text starts.
find-StartsWith :
    (es : List Entry) (buffer : Bytes) (e : Entry)
    → All (λ (x : Entry). NoNul x.name) es
    → find es buffer ≡ some e
    → Memᴰ e es × StartsWith e.name buffer
unfolding find
find-StartsWith [] buffer e n h = cc
find-StartsWith (x ∷ es) buffer e n h =
    elim (Bool-cases (strncmp_eq buffer x.name (length x.name))) [
      | inl f ↦
          subst (λ (y : Entry). Memᴰ y (x ∷ es) × StartsWith y.name buffer)
            (some-injective x e (rw f at h))
            (Memᴰ.head refl, strncmp_eq-StartsWith x.name buffer n.0 f)
      | inr f ↦ let m = find-StartsWith es buffer e n.1 (rw f at h) in (Memᴰ.tail m.0, m.1)
    ]

commands-NoNul : All (λ (x : Entry). NoNul x.name) commands
commands-NoNul = ground arith

All-Memᴰ : {A : Type 0} (P : A → Type 0) {x : A} (xs : List A) → All P xs → Memᴰ x xs → P x
All-Memᴰ P [] h m = elim m [ ]
All-Memᴰ P (y ∷ ys) h (Memᴰ.head p) = subst P (sym p) h.0
All-Memᴰ P (y ∷ ys) h (Memᴰ.tail m) = All-Memᴰ P ys h.1 m

abbrev FoundByName : Entry → Type 0
FoundByName e = (rest : Bytes) → find commands (e.name ++ rest) ≡ some e

-- No name of the table begins with another, so each entry is found by its own.
commands-find : All FoundByName commands
unfolding find strncmp_eq
commands-find = (
  λ rest. refl,
  (
    λ rest. refl,
    (
      λ rest. refl,
      (
        λ rest. refl,
        (
          λ rest. refl,
          (
            λ rest. refl,
            (λ rest. refl, (λ rest. refl, (λ rest. refl, (λ rest. refl, (λ rest. refl, tt))))),
          ),
        ),
      ),
    ),
  ),
)

-- The command of a request is the entry of the table with whose name the request begins, in the
-- upper case of the table; no request has two.
pub find_iff :
    (e : Entry) (buffer : Bytes)
    → (find commands buffer ≡ some e) ↔ (Memᴰ e commands × StartsWith e.name buffer)
find_iff e buffer = (
  find-StartsWith commands buffer e commands-NoNul,
  λ h. rw h.1.1 (All-Memᴰ FoundByName commands commands-find h.0 h.1.0),
)
