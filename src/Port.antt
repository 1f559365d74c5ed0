-- ===== src/Port.antt =====
-- The port argument in src/linux/main.c: `IsDecimal` and `ParseDecimal`.
pub mod Accepts
pub mod Parses
use vs_ftp.Common.{
  ℕ, zero, suc, ◌+◌, ◌-◌, ◌*◌, ◌%◌, ◌^◌, Bool, true, false, [], ◌∷◌, ltb, leb, ◌==◌, ◌&&◌,
  if◌then◌else◌, length, get_or,
}
use vs_ftp.Libc.{Bytes, codes}

-- `DECIMAL_STRING_LEN_MAX`
abbrev pub decimal_string_len_max : ℕ
decimal_string_len_max = 5

-- `DecimalStringValueMax`
abbrev pub decimal_string_value_max : Bytes
decimal_string_value_max = codes "65365"

-- `IsDecimalChar`
unfoldable pub is_decimal_char : ℕ → Bool
is_decimal_char c = leb b'0' c && leb c b'9'

-- The first loop of `IsDecimal`.
unfoldable pub all_decimal : Bytes → Bool
unfolding is_decimal_char
all_decimal [] = true
all_decimal (c ∷ s) = let rest = all_decimal s in if is_decimal_char c then rest else false

-- The second loop, over the digits of the string and of the bound.
unfoldable pub not_too_large : Bytes → Bytes → Bool
not_too_large [] max = true
not_too_large (c ∷ s) [] = true
not_too_large (c ∷ s) (m ∷ max) =
    let rest = not_too_large s max in if ltb m c then false else if c == m then rest else true

-- The part of `IsDecimal` on a string of decimal characters. It returns -1, which is true, for the
-- empty one.
unfoldable pub fits_port : Bytes → Bool
unfolding not_too_large
fits_port s =
    if length s == 0
    then true
    else if length s == decimal_string_len_max
    then not_too_large s decimal_string_value_max
    else if ltb decimal_string_len_max (length s)
    then false
    else true

-- `IsDecimal`
unfoldable pub is_decimal : Bytes → Bool
unfolding all_decimal fits_port
is_decimal s = if all_decimal s then fits_port s else false

-- The loop of `ParseDecimal` over the first `n` characters, the last of them first, in `uint16_t`.
unfoldable pub parse_loop : Bytes → ℕ → ℕ → ℕ → ℕ
parse_loop s zero val number = number
parse_loop s (suc i) val number =
    let digit = ((get_or s i 0 + 2 ^ 16 - 48) * val) % 2 ^ 16 in
    parse_loop s i ((val * 10) % 2 ^ 16) ((number + digit) % 2 ^ 16)

-- `ParseDecimal`, for a string whose length fits an `int16_t`.
unfoldable pub parse_decimal : Bytes → ℕ
unfolding parse_loop
parse_decimal s = parse_loop s (length s) 1 0
