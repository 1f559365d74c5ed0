-- ===== src/Libc/Format.antt =====
-- `snprintf` and `vsnprintf`: the text that a format and its arguments give.
use mathlib.Core.Option
use vs_ftp.Common.{
  ℤ, pos, negsuc, ℕ, suc, ◌+◌, ◌≤◌, Bool-cases, inl, inr, subst, length, length-append, ◌≡◌, refl,
  ◌≢◌, Bool, true, false, ◌%◌, ◌^◌, ◌&&◌, Option, none, some, List, [], ◌∷◌, ◌++◌, arith, ◌==◌,
  if◌then◌else◌, All,
}
use vs_ftp.Libc.{Bytes, c_str}
use vs_ftp.Libc.Decimal.{decimal, length-decimal}

-- The length modifier of a conversion: none, `l`, `ll`, `z`.
pub data Width : Type 0 where
  plain long long_long size_t : Width

-- An argument: a `char *`, an `int`, or an unsigned number of the type that the modifier stands for.
pub data Arg : Type 0 where
  str : Bytes → Arg
  int : ℤ → Arg
  num : Width → ℕ → Arg

-- The unsigned type of 64 bits, or of 32 without a modifier.
abbrev pub bits : Width → ℕ
bits plain = 32
bits _ = 64

-- Whether a conversion with the first modifier takes an argument of the second's type. On Linux
-- `size_t` is `unsigned long`.
abbrev pub takes : Width → Width → Bool
takes plain plain = true
takes long long = true
takes long size_t = true
takes size_t size_t = true
takes size_t long = true
takes long_long long_long = true
takes _ _ = false

-- The modifier with one more letter.
abbrev pub lengthened : Width → ℕ → Option Width
lengthened plain c = if c == b'l' then some long else if c == b'z' then some size_t else none
lengthened long c = if c == b'l' then some long_long else none
lengthened _ c = none

abbrev pub is_modifier : Width → ℕ → Bool
is_modifier w c = elim (lengthened w c) [ none ↦ false | some v ↦ true ]

-- What `%d` makes of an `int`.
unfoldable pub signed : ℤ → Bytes
signed (pos n) = decimal n
signed (negsuc n) = b'-' ∷ decimal (n + 1)

-- The text of the conversion `c` with a modifier, and the arguments behind the one that it takes. An
-- unsigned number is the one that the bits of its type hold.
unfoldable pub convert : Width → ℕ → List Arg → Option (Bytes × List Arg)
unfolding signed
convert w c [] = none
convert w c (str s ∷ args) = if takes w plain && c == b's' then some (c_str s, args) else none
convert w c (int z ∷ args) = if takes w plain && c == b'd' then some (signed z, args) else none
convert w c (num v n ∷ args) =
    if takes w v && c == b'u' then some (decimal (n % 2 ^ bits v), args) else none

-- `none` where a conversion has no argument of its kind and width, which C leaves undefined, or has
-- a flag, a field width, a modifier or a letter that no format of the code has. The first argument
-- is the modifier that has been read behind a `%`, if one has been read.
unfoldable pub expand_from : Option Width → Bytes → List Arg → Option Bytes
unfolding convert
expand_from none [] args = some []
expand_from (some w) [] args = none
expand_from none (c ∷ format) args =
    let conversion = expand_from (some plain) format args in
    let copied = Option.map (λ s. c ∷ s) (expand_from none format args) in
    if c == b'%' then conversion else copied
expand_from (some w) (c ∷ format) args =
    let percent = Option.map (λ s. c ∷ s) (expand_from none format args) in
    let modifier = expand_from (lengthened w c) format args in
    let converted : Option Bytes = elim (convert w c args) [
      | none ↦ none
      | some (out, rest) ↦ Option.map (λ s. out ++ s) (expand_from none format rest)
    ] in
    if c == b'%' then percent else if is_modifier w c then modifier else converted

unfoldable pub expand : Bytes → List Arg → Option Bytes
unfolding expand_from
expand = expand_from none

abbrev pub IsPlain : Bytes → Type 0
IsPlain = All (λ c. c ≢ b'%')

-- A format with no `%` is copied, whatever its arguments.
pub expand-IsPlain : (s : Bytes) (args : List Arg) → IsPlain s → expand s args ≡ some s
unfolding expand
expand-IsPlain [] args h = refl
expand-IsPlain (c ∷ s) args h = ground (arith, expand-IsPlain s args h.1)

-- The room that an argument takes at most.
abbrev pub room : List Arg → ℕ
room [] = 0
room (str s ∷ args) = length s + room args
room (num w n ∷ args) = 20 + room args
room (int z ∷ args) = 21 + room args

length-c_str : (s : Bytes) → length (c_str s) ≤ length s
unfolding c_str
length-c_str [] = omega arith
length-c_str (c ∷ s) = ground (arith, length-c_str s)

convert-length :
    (w : Width) (c : ℕ) (args : List Arg) (out : Bytes) (rest : List Arg)
    → convert w c args ≡ some (out, rest)
    → length out + room rest ≤ room args
unfolding convert
convert-length w c [] out rest e = cc
convert-length w c (str s ∷ args) out rest e = ground (arith, length-c_str s)
convert-length w c (int (pos n) ∷ args) out rest e = ground (arith, length-decimal n)
convert-length w c (int (negsuc n) ∷ args) out rest e = ground (arith, length-decimal (n + 1))
convert-length w c (num v n ∷ args) out rest e = ground (arith, length-decimal (n % 2 ^ bits v))

-- A text, if there is one, of at most so many bytes.
abbrev Short : ℕ → Option Bytes → Type 0
Short n none = Unit
Short n (some out) = length out ≤ n

Short-weaken : {m n : ℕ} (o : Option Bytes) → m ≤ n → Short m o → Short n o
Short-weaken none h k = tt
Short-weaken (some out) h k = omega arith

Short-cons :
    (n : ℕ) (c : ℕ) (o : Option Bytes) → Short n o → Short (suc n) (Option.map (λ s. c ∷ s) o)
Short-cons n c none k = tt
Short-cons n c (some out) k = omega arith

Short-append :
    (n : ℕ) (b : Bytes) (o : Option Bytes)
    → Short n o
    → Short (length b + n) (Option.map (λ s. b ++ s) o)
Short-append n b none k = tt
Short-append n b (some out) k = omega (arith, length-append b out)

-- A conversion, and the text behind it.
converted-Short :
    (format : Bytes) (m : ℕ) (x : Option (Bytes × List Arg))
    → ((out : Bytes) (rest : List Arg) → x ≡ some (out, rest) → length out + room rest ≤ m)
    → ((rest : List Arg) → Short (length format + room rest) (expand_from none format rest))
    → Short (length format + m) (elim x [
      | none ↦ none
      | some y ↦ Option.map {B = Bytes} (λ s. y.0 ++ s) (expand_from none format y.1)
    ])
converted-Short format m none bound behind = tt
converted-Short format m (some (out, rest)) bound behind =
    Short-weaken _ (omega (arith, bound out rest refl))
      (Short-append _ out (expand_from none format rest) (behind rest))

expand_from-Short :
    (b : Option Width) (format : Bytes) (args : List Arg)
    → Short (length format + room args) (expand_from b format args)
unfolding expand_from
expand_from-Short none [] args = omega arith
expand_from-Short (some w) [] args = tt
expand_from-Short none (c ∷ format) args =
    let conversion =
      Short-weaken (expand_from (some plain) format args) (omega arith)
        (expand_from-Short (some plain) format args) in
    let copied =
      Short-cons _ c (expand_from none format args) (expand_from-Short none format args) in
    elim (Bool-cases (c == b'%')) [
      | inl e ↦ rw e conversion
      | inr e ↦ rw e (Short-weaken _ (omega arith) copied)
    ]
expand_from-Short (some w) (c ∷ format) args =
    let percent =
      Short-cons _ c (expand_from none format args) (expand_from-Short none format args) in
    let modifier =
      Short-weaken (expand_from (lengthened w c) format args) (omega arith)
        (expand_from-Short (lengthened w c) format args) in
    elim (Bool-cases (c == b'%')) [
      | inl e ↦ rw e (Short-weaken _ (omega arith) percent)
      | inr e ↦ elim (Bool-cases (is_modifier w c)) [
        | inl f ↦ rw e (rw f modifier)
        | inr f ↦ rw e (
            rw f (
              Short-weaken _ (omega arith) (
                converted-Short format (room args) (convert w c args) (convert-length w c args)
                  (λ rest. expand_from-Short none format rest))))
      ]
    ]

-- The text is no longer than the format and its arguments.
pub expand-length :
    (format : Bytes) (args : List Arg) (out : Bytes)
    → expand format args ≡ some out
    → length out ≤ length format + room args
unfolding expand
expand-length format args out e =
    subst (Short (length format + room args)) e (expand_from-Short none format args)
