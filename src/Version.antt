-- ===== src/Version.antt =====
-- src/linux/version.h: the version string.
use vs_ftp.Common.{ℕ, ◌-◌, ◌≤◌, ◌≡◌, ◌∷◌, ◌++◌, arith, length-append, take, take_all}
use vs_ftp.Libc.{Bytes}
use vs_ftp.Libc.Decimal.{decimal, length-decimal_le}

-- `VERSION_MAJOR`
abbrev pub version_major : ℕ
version_major = 0

-- `VERSION_MINOR`
abbrev pub version_minor : ℕ
version_minor = 1

-- `VERSION_PATCH`
abbrev pub version_patch : ℕ
version_patch = 0

-- `VERSION_STRING_LEN`
abbrev pub version_string_len : ℕ
version_string_len = 12

-- What the format `%u.%u.%u` says.
unfoldable pub version_text : ℕ → ℕ → ℕ → Bytes
version_text major minor patch = decimal major ++ b'.' ∷ (decimal minor ++ b'.' ∷ decimal patch)

-- What `snprintf` leaves of it in the array.
unfoldable pub format_version : ℕ → ℕ → ℕ → Bytes
unfolding version_text
format_version major minor patch = take (version_string_len - 1) (version_text major minor patch)

-- `GetVersionString`
unfoldable pub get_version_string : Bytes
unfolding format_version
get_version_string = format_version version_major version_minor version_patch

-- The array holds every version whose parts are at most 255, the limit that the comment on
-- `GetVersionString` gives: nothing is cut off.
pub format_version-fits :
    (major minor patch : ℕ)
    → major ≤ 255
    → minor ≤ 255
    → patch ≤ 255
    → format_version major minor patch ≡ version_text major minor patch
unfolding format_version version_text
format_version-fits major minor patch a b c =
    let x = length-decimal_le 3 major (omega arith) (omega arith) in
    let y = length-decimal_le 3 minor (omega arith) (omega arith) in
    let z = length-decimal_le 3 patch (omega arith) (omega arith) in
    take_all (version_string_len - 1) _ (
      omega (
        arith,
        length-append (decimal major) (b'.' ∷ (decimal minor ++ b'.' ∷ decimal patch)),
        length-append (decimal minor) (b'.' ∷ decimal patch),
      ))
