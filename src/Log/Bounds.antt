-- ===== src/Log/Bounds.antt =====
-- The arrays of src/linux/io.c hold what is put into them.
use vs_ftp.Common.{
  ℕ, ◌+◌, ◌≤◌, ◌<◌, ◌^◌, ◌≡◌, Bool-cases, inl, inr, ◌∷◌, ◌++◌, arith, ltb, length, length-append,
}
use vs_ftp.Libc.{Bytes, codes}
use vs_ftp.Libc.Decimal.{decimal, length-decimal_le}
use vs_ftp.Log.{Tm, Logger, add_year, two_digits, time_stamp, log_path, store}

-- The members of `struct tm` are in their documented ranges, and the year is one that an
-- `int` holds.
abbrev pub IsDate : Tm → Type 0
IsDate now =
    (now.tm_year + 1900 < 2 ^ 31)
    × (now.tm_mon ≤ 11)
    × (now.tm_mday ≤ 31)
    × (now.tm_hour ≤ 23)
    × (now.tm_min ≤ 59)
    × (now.tm_sec ≤ 60)

two_digits-length : (n : ℕ) → n < 100 → length (two_digits n) ≤ 2
unfolding two_digits
two_digits-length n h = elim (Bool-cases (ltb n 10)) [
  | inl e ↦ rw e (omega (arith, length-decimal_le 1 n (omega arith) (ground arith)))
  | inr e ↦ rw e (length-decimal_le 2 n (omega arith) (omega arith))
]

time_stamp-length : (now : Tm) → IsDate now → length (time_stamp now) ≤ 25
unfolding time_stamp
time_stamp-length now h =
    let year = length-decimal_le 10 (now.tm_year + 1900) (omega arith) (omega arith) in
    let mon = two_digits-length (now.tm_mon + 1) (omega arith) in
    let mday = two_digits-length now.tm_mday (omega arith) in
    let hour = two_digits-length now.tm_hour (omega arith) in
    let min = two_digits-length now.tm_min (omega arith) in
    let sec = two_digits-length now.tm_sec (omega arith) in
    rw
      (
        length-append
            (decimal (now.tm_year + 1900)
              ++ (b'-' ∷ two_digits (now.tm_mon + 1))
              ++ (b'-' ∷ two_digits now.tm_mday)
              ++ (b'_' ∷ two_digits now.tm_hour)
              ++ (b':' ∷ two_digits now.tm_min))
            (b':' ∷ two_digits now.tm_sec),
        length-append
            (decimal (now.tm_year + 1900)
              ++ (b'-' ∷ two_digits (now.tm_mon + 1))
              ++ (b'-' ∷ two_digits now.tm_mday)
              ++ (b'_' ∷ two_digits now.tm_hour))
            (b':' ∷ two_digits now.tm_min),
        length-append
            (decimal (now.tm_year + 1900)
              ++ (b'-' ∷ two_digits (now.tm_mon + 1))
              ++ (b'-' ∷ two_digits now.tm_mday))
            (b'_' ∷ two_digits now.tm_hour),
        length-append (decimal (now.tm_year + 1900) ++ (b'-' ∷ two_digits (now.tm_mon + 1)))
            (b'-' ∷ two_digits now.tm_mday),
        length-append (decimal (now.tm_year + 1900)) (b'-' ∷ two_digits (now.tm_mon + 1)),
      )
      (omega arith)

log_path-length : (stamp : Bytes) → length (log_path stamp) ≡ length stamp + 9
unfolding log_path
log_path-length stamp = omega (
  arith,
  length-append (codes "/tmp" ++ (b'/' ∷ stamp)) (codes ".log"),
  length-append stamp (codes ".log"),
)

-- The arrays of `FTPLog` are large enough: if the members of `struct tm` are in their documented
-- ranges and the year, which is `tm_year` and 1900, is below 2^31, then the sum for the year does not
-- overflow, and storing the time stamp and the path of the log file changes nothing, so neither
-- `sprintf` writes behind its array.
pub store-time_stamp :
    (now : Tm) (l : Logger)
    → IsDate now
    → (add_year now l ≡ l)
      × (store (time_stamp now) l ≡ l)
      × (store (log_path (time_stamp now)) l ≡ l)
unfolding store add_year
store-time_stamp now l h =
    let stamp = time_stamp-length now h in
    let path = log_path-length (time_stamp now) in
    (ground (arith, h.0), ground (arith, stamp), ground (arith, stamp, path))
