-- ===== src/Main/Defined.antt =====
-- What the whole program does that C leaves undefined.
use vs_ftp.Common.{◌<◌, ◌≡◌, arith, Bool, List, [], ◌∷◌, ℤ, length}
use vs_ftp.Libc.{Bytes}
use vs_ftp.Os.{Call, Os}
use vs_ftp.Machine.{
  request_len_max, Machine, Event, did, undefined, write_out_of_bounds, read_out_of_bounds,
  bad_format, zeroed,
}
use vs_ftp.Main.{main}
use vs_ftp.Main.Watching.{PlainPaths, Watch}
use vs_ftp.Main.Watched.{main-Watch}

-- No `read` of a request fills the array that it is given.
pub record ShortRequests {K : Type 0} (os : Os K) : Type 0 where
  pub short :
      (sock : ℤ) (k : K)
      → length (os.answer (Call.read sock request_len_max) k).0.bytes < request_len_max

-- Nothing undefined was done, except that bytes may have been read behind the end of an array, or
-- behind what was stored in it.
abbrev pub OnlyOverreads : List Event → Type 0
OnlyOverreads [] = Unit
OnlyOverreads (did c a ∷ l) = OnlyOverreads l
OnlyOverreads (undefined (write_out_of_bounds n) ∷ l) = ⊥
OnlyOverreads (undefined (read_out_of_bounds n) ∷ l) = OnlyOverreads l
OnlyOverreads (undefined (bad_format f) ∷ l) = ⊥

module _ {K : Type 0} ⦃os : Os K⦄ (short : ShortRequests os) where
  definedness : Watch os (λ root. OnlyOverreads)
  definedness = record {
    start = λ root. tt;
    call = λ root c a l e h. h;
    opened = λ root p a l below h. h;
    overflow = λ root sock k l over h. absurd (omega (arith, short.short sock k, over));
    overread = λ root n l h. h;
  }

  -- If no path that `realpath` answers has a `%` in it and no `read` of a request fills its array,
  -- `main` started on its zeroed globals and an empty log stores no terminator of a request and no
  -- line end of a reply or of a line of a listing behind its array, and prints and replies with no
  -- format whose conversions do not fit the kinds and widths of its arguments, whatever the arguments,
  -- the requests and the other answers of the system are.
  pub main-OnlyOverreads :
      PlainPaths os
      → (arguments : List Bytes) (quits : List Bool) (s : Machine K) → s.server_data ≡ zeroed
      → s.log ≡ []
      → OnlyOverreads (main arguments quits s).1.log
  main-OnlyOverreads paths = main-Watch definedness paths
