-- ===== src/Main/Watching.antt =====
-- What a property of the log has to keep, to hold of whole runs of `main` in src/linux/main.c.
use vs_ftp.Common.{
  ℤ, ◌≤◌, length, ◌∙◌, ℕ, zero, suc, ◌≡◌, refl, inl, inr, sym, true, false, List, [], ◌∷◌, arith,
  has_prefix, take,
}
use mathlib.Core.Option.{some-injective}
use vs_ftp.Libc.{Bytes, c_str, strncpy}
use vs_ftp.Libc.Format.{IsPlain, num, size_t, expand-IsPlain}
use vs_ftp.Os.{Answer, Call, Os}
use vs_ftp.Machine.{
  request_len_max, write_out_of_bounds, read_out_of_bounds, Machine, Event, did, undefined,
}
use vs_ftp.Machine.Keeps.{lists}
use vs_ftp.Filesystem.{path_len_max}
use vs_ftp.Filesystem.Resolved.{NoNul, IsPath}
use vs_ftp.Server.Paths.Prefix.{not_above_iff_prefix}
use vs_ftp.Server.Invariant.{WellFormed}
use vs_ftp.Commands.Keeps.{IsListed}

-- No path that `realpath` answers has a `%` in it, which `VSFTPServerGetCwd` would read as a format.
pub record PlainPaths {K : Type 0} (os : Os K) : Type 0 where
  pub plain : (q : Bytes) (k : K) → IsPlain (os.answer (Call.realpath q) k).0.bytes

c_str-IsPlain : (s : Bytes) → IsPlain s → IsPlain (c_str s)
unfolding c_str
c_str-IsPlain [] h = tt
c_str-IsPlain (c ∷ s) h = ground (arith, c_str-IsPlain s h.1)

take-IsPlain : (n : ℕ) (s : Bytes) → IsPlain s → IsPlain (take n s)
take-IsPlain zero s h = tt
take-IsPlain (suc n) [] h = tt
take-IsPlain (suc n) (c ∷ s) h = (h.0, take-IsPlain n s h.1)

pub strncpy-IsPlain : (s : Bytes) (n : ℕ) → IsPlain s → IsPlain (strncpy s n)
unfolding strncpy
strncpy-IsPlain s n h = take-IsPlain n (c_str s) (c_str-IsPlain s h)

has_prefix-c_str :
    (root p : Bytes) → NoNul root → has_prefix root p ≡ true → has_prefix root (c_str p) ≡ true
unfolding c_str
has_prefix-c_str [] p n h = refl
has_prefix-c_str (c ∷ root) [] n h = h
has_prefix-c_str (c ∷ root) (d ∷ p) n h = ground (arith, has_prefix-c_str root p n.1)

module _ {K : Type 0} ⦃os : Os K⦄ (paths : PlainPaths os) where
  pub IsPath-IsPlain : {p : Bytes} → IsPath os p → IsPlain p
  IsPath-IsPlain is =
      let (q, k, e) = is.answer in rw e (strncpy-IsPlain _ path_len_max (paths.plain q k))

-- A property of the root path and the log that the operations of the code keep: system calls,
-- listings of directories below the root path, requests that are longer than their array, and bytes
-- read behind the end of an array.
pub record Watch {K : Type 0} (os : Os K) (L : Bytes → List Event → Type 0) : Type 0 where
  pub start : (root : Bytes) → L root []
  pub call :
      (root : Bytes) (c : Call) (a : Answer) (l : List Event)
      → lists c ≡ false
      → L root l
      → L root (did c a ∷ l)
  pub opened :
      (root p : Bytes) (a : Answer) (l : List Event)
      → has_prefix root p ≡ true
      → L root l
      → L root (did (Call.opendir p) a ∷ l)
  pub overflow :
      (root : Bytes) (sock : ℤ) (k : K) (l : List Event)
      → request_len_max ≤ length (os.answer (Call.read sock request_len_max) k).0.bytes
      → L root l
      → L root (undefined (write_out_of_bounds request_len_max) ∷ l)
  pub overread :
      (root : Bytes) (n : ℕ) (l : List Event)
      → L root l
      → L root (undefined (read_out_of_bounds n) ∷ l)

-- What is kept: the invariant, a root path without NUL, a working directory without `%`, and the
-- property of the log.
pub record Watched {K : Type 0} (L : Bytes → List Event → Type 0) (s : Machine K) : Type 0 where
  pub valid : WellFormed s.server_data
  pub root : NoNul s.server_data.root_path
  pub plain : IsPlain s.server_data.cwd
  pub seen : L s.server_data.root_path s.log

module _ {K : Type 0} {L : Bytes → List Event → Type 0} where
  -- A listing of the working directory or of a checked path stays below the root path.
  pub listed_below :
      (path : Bytes) (s : Machine K)
      → Watched L s
      → IsListed path s.server_data
      → has_prefix s.server_data.root_path (c_str path) ≡ true
  listed_below path s h (inl (set, printed)) =
      let copied =
        expand-IsPlain s.server_data.cwd (num size_t s.server_data.cwd_len ∷ []) h.plain in
      let same = some-injective s.server_data.cwd path (sym copied ∙ printed) in
      has_prefix-c_str s.server_data.root_path path h.root (rw (← same) (h.valid.confined set))
  listed_below path s h (inr accepted) =
      has_prefix-c_str s.server_data.root_path path h.root
        ((not_above_iff_prefix s.server_data path h.valid.root_len).0 accepted).1
