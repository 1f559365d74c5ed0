-- ===== src/Commands/Keeps/Frames.antt =====
-- The properties that the handlers of src/common/vsftp_commands.c keep.
use vs_ftp.Common.{◌<◌, success, ◌≡◌, ◌⊎◌, Bool, some, [], ◌∷◌}
use vs_ftp.Libc.{Bytes, c_str}
use vs_ftp.Libc.Format.{num, expand, size_t}
use vs_ftp.Os.{Call, Os}
use vs_ftp.Machine.{Server, Machine, perform}
use vs_ftp.Machine.Keeps.{Keeps}
use vs_ftp.Server.Sockets.{client_disconnect}
use vs_ftp.Server.Paths.{abs_path_is_not_above_root_path}
use vs_ftp.Server.Transfer.{set_transfer_mode}
use vs_ftp.Server.Keeps.{TransferFrame}
use vs_ftp.Server.Invariant.{CwdFrame}

-- The directories that a listing opens: the working directory as it is printed, and those that have
-- passed the comparison with the root path.
abbrev pub IsListed : Bytes → Server → Type 0
IsListed path d =
    ((0 < d.cwd_len) × (expand d.cwd (num size_t d.cwd_len ∷ []) ≡ some path))
    ⊎ (abs_path_is_not_above_root_path d path ≡ success)

-- A property that the handlers keep but for the one that disconnects, and but for the listings of
-- other directories.
pub record HandlerFrame {K : Type 0} ⦃os : Os K⦄ (P : Machine K → Type 0) : Type 0 where
  pub transfers : TransferFrame P
  pub cwd : CwdFrame P
  pub mode : (binary : Bool) → Keeps P (set_transfer_mode binary)
  pub listed :
      (path : Bytes) (s : Machine K)
      → P s
      → IsListed path s.server_data
      → P (perform (Call.opendir (c_str path)) s).1

-- A property that disconnecting the client keeps too.
pub record CommandFrame {K : Type 0} ⦃os : Os K⦄ (P : Machine K → Type 0) : Type 0 where
  pub handlers : HandlerFrame P
  pub open handlers use *
  pub disconnect : Keeps P client_disconnect
