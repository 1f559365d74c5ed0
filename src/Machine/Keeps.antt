-- ===== src/Machine/Keeps.antt =====
-- Properties of the state that a function keeps, and the rules for composing such functions.
use vs_ftp.Common.{
  ◌≤◌, length, none, [], ◌∷◌, refl, ℤ, is_zero, Bool, true, false, ◌≡◌, if◌then◌else◌, inl, inr,
  Bool-cases,
}
use vs_ftp.Os.{Call, Os}
use vs_ftp.Libc.Format.{num, expand, size_t}
use vs_ftp.Machine.{
  request_len_max, Server, Machine, M, Fault, write_out_of_bounds, read_out_of_bounds, bad_format,
  ◌>>=◌, ◌⨾◌, fault, perform, invoke,
}

abbrev pub Keeps : {K A : Type 0} → (Machine K → Type 0) → M K A → Type 0
Keeps {K} P m = (s : Machine K) → P s → P (m s).1

-- Whether a call opens a directory for listing.
abbrev pub lists : Call → Bool
lists (Call.opendir p) = true
lists _ = false

-- When the code runs into an operation that C leaves undefined: a request fills the array that it is
-- read into, or the working directory is not a format for its length.
abbrev pub Reason : {K : Type 0} ⦃os : Os K⦄ → Fault → Machine K → Type 0
Reason {K} ⦃os⦄ (write_out_of_bounds n) s =
    (n ≡ request_len_max)
    × (sock : ℤ) × (k : K) × (request_len_max
        ≤ length (os.answer (Call.read sock request_len_max) k).0.bytes)
Reason (read_out_of_bounds n) s = Unit
Reason (bad_format f) s =
    (f ≡ s.server_data.cwd)
    × (expand s.server_data.cwd (num size_t s.server_data.cwd_len ∷ []) ≡ none)

-- A property that no system call changes but, perhaps, the opening of a directory.
pub record Frame {K : Type 0} ⦃os : Os K⦄ (P : Machine K → Type 0) : Type 0 where
  pub call : (c : Call) → lists c ≡ false → Keeps P (perform c)
  pub undefined : (f : Fault) (s : Machine K) → P s → Reason f s → P (fault f s).1

module _ {K : Type 0} where
  -- `m ⨾ k` ends as `m` does if that fails, and else as `k` does.
  pub ⨾-cases :
      (X : ℤ × Machine K → Type 0) (m k : M K ℤ) (s : Machine K)
      → (is_zero (m s).0 ≡ false → X (m s))
      → X (k (m s).1)
      → X ((m ⨾ k) s)
  ⨾-cases X m k s failed rest = go (is_zero (m s).0) refl
    where
      go : (b : Bool) → is_zero (m s).0 ≡ b → X (if b then k (m s).1 else m s)
      go true e = rest
      go false e = failed e

module _ {K : Type 0} (P : Machine K → Type 0) where
  pub if-Keeps :
      {A : Type 0} (b : Bool) (m k : M K A) → Keeps P m → Keeps P k → Keeps P (if b then m else k)
  if-Keeps true m k hm hk = hm
  if-Keeps false m k hm hk = hk

  pub >>=-Keeps :
      {A B : Type 0} (m : M K A) (f : A → M K B)
      → Keeps P m
      → ((a : A) → Keeps P (f a))
      → Keeps P (m >>= f)
  >>=-Keeps m f hm hf s h = hf (m s).0 (m s).1 (hm s h)

  pub ⨾-Keeps : (m k : M K ℤ) → Keeps P m → Keeps P k → Keeps P (m ⨾ k)
  ⨾-Keeps m k hm hk s h = elim (Bool-cases (is_zero (m s).0)) [
    | inl e ↦ subst_if true e
    | inr e ↦ subst_if false e
  ]
    where
      subst_if : (b : Bool) → is_zero (m s).0 ≡ b → P (if is_zero (m s).0 then k (m s).1 else m s).1
      subst_if true e = rw e (hk (m s).1 (hm s h))
      subst_if false e = rw e (hm s h)

module _ {K : Type 0} ⦃os : Os K⦄ {P : Machine K → Type 0} (frame : Frame P) where
  pub invoke-Keeps : (c : Call) → lists c ≡ false → Keeps P (invoke c)
  invoke-Keeps c e s h = frame.call c e s h

-- What holds of the server's data is kept with any such property.
pub Frame-and :
    {K : Type 0} ⦃os : Os K⦄ {P : Machine K → Type 0}
    → Frame P
    → (Q : Server → Type 0) → Frame (λ s. P s × Q s.server_data)
unfolding perform
Frame-and frame Q = record {
  call = λ c e s h. (frame.call c e s h.0, h.1);
  undefined = λ f s h r. (frame.undefined f s h.0 r, h.1);
}
