-- ===== src/Machine.antt =====
-- The state that the code runs on, and the monad of its functions: the globals of server.c
-- (`vsftpServerData_s`), `errno`, the environment, and a log of what was done. The log is not in
-- the code: it records each system call with its answer, newest first, and each operation that C
-- leaves undefined. What a function does after such an operation has no meaning.
pub mod Keeps
pub mod Handles
use vs_ftp.Common.{
  ℕ, ℤ, pos, is_zero, Bool, false, List, [], ◌∷◌, if◌then◌else◌, ◌*◌, ◌+◌, ◌/◌, ◌%◌,
}
use vs_ftp.Libc.{Bytes}
use vs_ftp.Os.{Call, Answer, Os}

-- `REQUEST_LEN_MAX`
abbrev pub request_len_max : ℕ
request_len_max = 288

-- `struct sockaddr_in`, as far as the code sets it: always `AF_INET` and `INADDR_ANY`.
pub record SockAddr : Type 0 where
  pub sin_port : ℕ

-- `vsftpServerData_s`. The peer's address in `client` is written and never read, and is left out.
pub record Server : Type 0 where
  pub port : ℕ
  pub root_path : Bytes
  pub ip_addr : Bytes
  pub ip_addr_len : ℕ
  pub root_path_len : ℕ
  pub cwd : Bytes
  pub cwd_len : ℕ
  pub server_sock : ℤ
  pub client_sock : ℤ
  pub transfer_sock : ℤ
  pub transfer_client_sock : ℤ
  pub server : SockAddr
  pub transfer : SockAddr
  pub transfer_mode_binary : Bool
  pub is_connected : Bool
  pub is_server_socket_created : Bool

-- `static vsftpServerData_s serverData;`: every member starts as zero.
abbrev pub zeroed : Server
zeroed = record {
  port = 0;
  root_path = [];
  ip_addr = [];
  ip_addr_len = 0;
  root_path_len = 0;
  cwd = [];
  cwd_len = 0;
  server_sock = pos 0;
  client_sock = pos 0;
  transfer_sock = pos 0;
  transfer_client_sock = pos 0;
  server = record { sin_port = 0 };
  transfer = record { sin_port = 0 };
  transfer_mode_binary = false;
  is_connected = false;
  is_server_socket_created = false;
}

-- What C leaves undefined and the code can do.
pub data Fault : Type 0 where
  -- a byte written behind the end of an array of the given size
  write_out_of_bounds : ℕ → Fault
  -- bytes read behind the end of an array of the given size, or behind what was stored in it
  read_out_of_bounds : ℕ → Fault
  -- a format whose conversions do not fit its arguments
  bad_format : Bytes → Fault

pub data Event : Type 0 where
  did : Call → Answer → Event
  undefined : Fault → Event

pub record Machine (K : Type 0) : Type 0 where
  pub server_data : Server
  pub errno : ℕ
  pub kernel : K
  pub log : List Event

abbrev pub M : Type 0 → Type 0 → Type 0
M K A = Machine K → A × Machine K

module _ {K : Type 0} where
  abbrev pub pure : {A : Type 0} → A → M K A
  pure a s = (a, s)

  infixl 5 ◌>>=◌ ◌>>◌
  abbrev pub ◌>>=◌ : {A B : Type 0} → M K A → (A → M K B) → M K B
  ◌>>=◌ m f s = f (m s).0 (m s).1

  abbrev pub ◌>>◌ : {A B : Type 0} → M K A → M K B → M K B
  ◌>>◌ m k s = k (m s).1

  -- `retval = m; if (retval == 0) { retval = k; }`
  infixr 6 ◌⨾◌
  abbrev pub ◌⨾◌ : M K ℤ → M K ℤ → M K ℤ
  ◌⨾◌ m k s = if is_zero (m s).0 then k (m s).1 else m s

  abbrev pub gets : {A : Type 0} → (Server → A) → M K A
  gets f s = (f s.server_data, s)

  abbrev pub modify : (Server → Server) → M K (Unit {0})
  modify f s = (tt, record s { server_data = f s.server_data })

  abbrev pub get_errno : M K ℕ
  get_errno s = (s.errno, s)

  abbrev pub fault : Fault → M K (Unit {0})
  fault f s = (tt, record s { log = undefined f ∷ s.log })

module _ {K : Type 0} ⦃os : Os K⦄ where
  unfoldable pub perform : Call → M K Answer
  perform c s =
      let (a, k) = os.answer c s.kernel in
      (
        a,
        record { server_data = s.server_data; errno = a.errno; kernel = k; log = did c a ∷ s.log },
      )

  -- A call of which only the value returned is used.
  abbrev pub invoke : Call → M K ℤ
  invoke c s = let r = perform c s in (r.0.ret, r.1)

-- `htons` on a machine that stores the low byte first.
unfoldable pub htons : ℕ → ℕ
htons p = (p % 256) * 256 + (p / 256) % 256
