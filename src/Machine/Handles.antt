-- ===== src/Machine/Handles.antt =====
-- The files and directory streams that a log says were opened, and those that were closed.
use vs_ftp.Common.{ℕ, ℤ, pos, negsuc, is_invalid, List, [], ◌∷◌, ◌++◌, if◌then◌else◌, ◌≡◌}
use vs_ftp.Libc.{Bytes}
use vs_ftp.Os.{Call, Os}
use vs_ftp.Machine.{Event, Fault, did, Machine, fault, perform}
use vs_ftp.Machine.Keeps.{Keeps}

-- A file descriptor that is not -1, or a `DIR *` that is not `NULL`.
pub data Handle : Type 0 where
  file : ℤ → Handle
  stream : ℕ → Handle

abbrev pub file_handle : ℤ → List Handle
file_handle fd = if is_invalid fd then [] else file fd ∷ []

-- The stream that an answer of `opendir` is.
abbrev pub stream_handle : ℤ → List Handle
stream_handle (pos d) = stream d ∷ []
stream_handle (negsuc n) = []

abbrev opening : Event → List Handle
opening (did (Call.open_file path) a) = file_handle a.ret
opening (did (Call.opendir path) a) = stream_handle a.ret
opening _ = []

abbrev closing : Event → List Handle
closing (did (Call.close fd) a) = file_handle fd
closing (did (Call.closedir d) a) = stream d ∷ []
closing _ = []

-- What was opened, and what was closed, the last first.
unfoldable pub opened : List Event → List Handle
opened [] = []
opened (e ∷ log) = opening e ++ opened log

unfoldable pub closed : List Event → List Handle
closed [] = []
closed (e ∷ log) = closing e ++ closed log

-- What was opened and closed so far is `os` and `cs`.
abbrev pub Used : {K : Type 0} → List Handle → List Handle → Machine K → Type 0
Used os cs s = (opened s.log ≡ os) × (closed s.log ≡ cs)

-- A property that reading and writing keep, and what C leaves undefined too.
pub record Traffic {K : Type 0} ⦃os : Os K⦄ (P : Machine K → Type 0) : Type 0 where
  pub reads : (fd : ℤ) (n : ℕ) → Keeps P (perform (Call.read fd n))
  pub writes : (fd : ℤ) (b : Bytes) → Keeps P (perform (Call.write fd b))
  pub faults : (f : Fault) → Keeps P (fault f)

pub Used-Traffic : {K : Type 0} ⦃os : Os K⦄ (o c : List Handle) → Traffic {K = K} (Used o c)
unfolding perform opened closed
Used-Traffic o c = record { reads = λ fd n s h. h; writes = λ fd b s h. h; faults = λ f s h. h }
