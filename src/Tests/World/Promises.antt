-- ===== src/Tests/World/Promises.antt =====
-- What the small environment keeps to: plain paths, and the promises of `read` and `write`.
use vs_ftp.Common.{
  ℕ, ◌≤◌, ◌≡◌, ℤ, pos, negsuc, false, inl, inr, Bool-cases, List, [], ◌∷◌, arith, ◌==◌, length,
  length-take,
}
use vs_ftp.Libc.{Bytes}
use vs_ftp.Libc.Format.{IsPlain}
use vs_ftp.Os.{Call}
use vs_ftp.Main.Watching.{PlainPaths}
use vs_ftp.Server.Transfer.Rounds.{Honest}
use vs_ftp.Tests.World.{World, world, world_answer, has_byte, real_path, file_fd, read_request}

no_byte : (s : Bytes) → has_byte b'%' s ≡ false → IsPlain s
no_byte [] h = tt
no_byte (c ∷ s) h = ground (arith, no_byte s)

pub real_path-IsPlain : (p : Bytes) → IsPlain (real_path p).bytes
real_path-IsPlain p = elim (Bool-cases (has_byte b'%' p)) [
  | inl e ↦ rw e tt
  | inr e ↦ rw e (no_byte p e)
]

pub world-PlainPaths : PlainPaths world
world-PlainPaths = record { plain = λ q k. real_path-IsPlain q }

pub read-length :
    (fd : ℤ) (n : ℕ) (w : World) → length (world_answer (Call.read fd n) w).0.bytes ≤ n
read-length (negsuc m) n w = omega arith
read-length (pos m) n w = elim (Bool-cases (m == file_fd)) [
  | inl e ↦ rw e (omega (arith, length-take n w.content))
  | inr e ↦ rw e (request w.requests)
]
  where
    request : (rs : List Bytes) → length (read_request rs n w).0.bytes ≤ n
    request [] = omega arith
    request (r ∷ rs) = omega (arith, length-take n r)

pub world-Honest : Honest world
world-Honest = record { reads = read-length; writes = λ fd b k. omega arith }
