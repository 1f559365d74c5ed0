-- ===== src/Libc.antt =====
-- What the C library does for the code: C strings, `strncmp`, `strncpy`, and the conversions of
-- `snprintf` and `vsnprintf` that the code's formats use. No code of the repository is modelled.
--
-- A string is the list of the bytes in front of its terminator, so the terminator is implied.
pub mod Decimal
pub mod Format
use Prim.Native.Char.{code}
use vs_ftp.Common.{
  ℕ, zero, suc, String, List, [], ◌∷◌, Bool, true, false, ◌==◌, if◌then◌else◌, take,
}

abbrev pub Bytes : Type 0
Bytes = List ℕ

-- The bytes of an ASCII literal.
abbrev pub codes : String → Bytes
codes String.[] = []
codes (String.◌∷◌ c s) = code c ∷ codes s

abbrev pub crlf : Bytes
crlf = 13 ∷ 10 ∷ []

-- What a `char *` to these bytes is as a C string: the bytes in front of the first NUL.
unfoldable pub c_str : Bytes → Bytes
c_str [] = []
c_str (c ∷ s) = if c == 0 then [] else c ∷ c_str s

-- `strncmp(s, t, n) == 0`; a list that has ended reads as its terminator.
unfoldable pub strncmp_eq : Bytes → Bytes → ℕ → Bool
strncmp_eq s t zero = true
strncmp_eq [] [] (suc n) = true
strncmp_eq [] (d ∷ t) (suc n) = d == 0
strncmp_eq (c ∷ s) [] (suc n) = c == 0
strncmp_eq (c ∷ s) (d ∷ t) (suc n) =
    if c == d then (if c == 0 then true else strncmp_eq s t n) else false

-- The bytes that `strncpy(dst, s, n)` puts in front of its padding. They are a terminated string
-- only if they are fewer than `n`.
unfoldable pub strncpy : Bytes → ℕ → Bytes
unfolding c_str
strncpy s n = take n (c_str s)
