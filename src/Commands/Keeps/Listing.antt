-- ===== src/Commands/Keeps/Listing.antt =====
-- `CommandHandlerNlst` in src/common/vsftp_commands.c keeps what its calls keep, while the directory
-- that it opens may be listed.
use mathlib.Core.Option.{some-injective}
use vs_ftp.Common.{
  ◌≤◌, Bool-cases, subst, ◌==◌, ◌||◌, ℕ, zero, suc, ◌+◌, ◌≡◌, refl, inl, inr, Bool, true, false,
  Option, none, some, [], ◌∷◌, arith, length, ltb,
}
use vs_ftp.Libc.{Bytes, c_str, codes}
use vs_ftp.Libc.Format.{expand}
use vs_ftp.Os.{Call, Os}
use vs_ftp.Filesystem.Lines.{list_dir_per_line-fits}
use vs_ftp.Server.Paths.Views.{behind_root-length}
use vs_ftp.Machine.{Server, fault, read_out_of_bounds, pure, Machine, ◌>>=◌, ◌⨾◌, perform}
use vs_ftp.Machine.Keeps.{Keeps, Frame, ⨾-Keeps, if-Keeps}
use vs_ftp.Filesystem.{path_len_max, list_dir_per_line, is_dir}
use vs_ftp.Filesystem.Keeps as FilesystemKeeps
use vs_ftp.Server.Sockets.{accept_transfer_client_connection}
use vs_ftp.Server.Reply.{send_reply}
use vs_ftp.Server.Paths.{
  real_path_to_server_path, reads_behind, abs_path_is_not_above_root_path, get_cwd,
  server_path_to_real_path,
}
use vs_ftp.Server.Keeps as ServerKeeps
use vs_ftp.Server.Keeps.{TransferFrame, TransferFrame-and}
use vs_ftp.Commands.Handlers.{
  nlst_all, nlst_server_line, checked_dir, nlst_dir, nlst_path, nlst_line, nlst_loop, nlst_send,
  nlst_found, command_nlst,
}
use vs_ftp.Commands.Keeps.Frames.{HandlerFrame, IsListed}
use vs_ftp.Commands.Keeps.Handlers.{frame, replied, reply, closed}

module _ {K : Type 0} ⦃os : Os K⦄ {P : Machine K → Type 0} (frame : Frame P) where
  -- A line that the array for paths of the server can hold.
  abbrev Holds : Option Bytes → Type 0
  Holds none = Unit
  Holds (some line) = length line ≤ path_len_max

  nlst_server_line-Keeps : (o : Option Bytes) → Holds o → Keeps P (nlst_server_line o)
  unfolding nlst_server_line
  nlst_server_line-Keeps none fits s h = h
  nlst_server_line-Keeps (some line) fits s h =
      ServerKeeps.send_reply_own_buf_transfer-Keeps frame line path_len_max fits s h

  real_path_to_server_path-Holds :
      (d : Server) (path : Bytes) → Holds (real_path_to_server_path d path path_len_max)
  unfolding real_path_to_server_path
  real_path_to_server_path-Holds d path = behind_root-length d.root_path path 0 path_len_max

  nlst_line-Keeps : (b : Bool) (buf : Bytes) → length buf ≤ path_len_max → Keeps P (nlst_line b buf)
  unfolding nlst_line
  nlst_line-Keeps false buf fits s h =
      ServerKeeps.send_reply_own_buf_transfer-Keeps frame buf path_len_max fits s h
  nlst_line-Keeps true buf fits s h =
      let bad = length buf == 0 || reads_behind s.server_data.root_path buf 0 path_len_max in
      nlst_server_line-Keeps _ (real_path_to_server_path-Holds _ buf) _ (
        if-Keeps P bad (fault (read_out_of_bounds path_len_max)) (pure tt)
          (λ t k. frame.undefined (read_out_of_bounds path_len_max) t k tt) (λ t k. k) s h)

  pub nlst_loop-Keeps :
      (f : ℕ) (path : Bytes) (b : Bool) (buf : Bytes) (d : Option ℕ)
      → ((s : Machine K) → P s → P (perform (Call.opendir (c_str path)) s).1)
      → length buf ≤ path_len_max
      → Keeps P (nlst_loop f path b buf d)
  unfolding nlst_loop
  nlst_loop-Keeps zero path b buf d allowed fits s h = h
  nlst_loop-Keeps (suc f) path b buf d allowed fits s h =
      let stays = list_dir_per_line-fits buf path_len_max fits path b d s in
      let l = list_dir_per_line path buf path_len_max b d s in
      let t = nlst_line b l.0.buf l.1 in
      ground (
        arith,
        FilesystemKeeps.list_dir_per_line-Keeps frame path buf path_len_max b d s (allowed s h) h,
        nlst_line-Keeps b l.0.buf stays l.1,
        nlst_loop-Keeps f path b l.0.buf l.0.cookie allowed stays t.1,
      )

  checked_dir-Keeps : (o : Option Bytes) → Keeps P (checked_dir o)
  unfolding checked_dir
  checked_dir-Keeps none s h = h
  checked_dir-Keeps (some path) s h = FilesystemKeeps.is_dir-Keeps frame path s h

  nlst_dir-Keeps : (args : Bytes) (o : Option Bytes) → Keeps P (nlst_dir args o)
  unfolding nlst_dir
  nlst_dir-Keeps args none s h = h
  nlst_dir-Keeps args (some dir) s h =
      let t = server_path_to_real_path args s in
      ground (
        arith,
        checked_dir-Keeps t.0 t.1,
        ServerKeeps.server_path_to_real_path-Keeps frame args s h,
      )

  pub nlst_path-Keeps : (args : Bytes) → Keeps P (nlst_path args)
  unfolding nlst_path
  nlst_path-Keeps args s h =
      nlst_dir-Keeps args _ _ (ServerKeeps.get_cwd-Keeps frame path_len_max s h)

module _ {K : Type 0} ⦃os : Os K⦄ {P : Machine K → Type 0} (own : HandlerFrame P) where
  -- While a directory is listed, that it may be listed stays known.
  module _ (path : Bytes) where
    abbrev Listing : Machine K → Type 0
    Listing s = P s × IsListed path s.server_data

    listing : TransferFrame Listing
    unfolding abs_path_is_not_above_root_path
    listing = TransferFrame-and own.transfers (IsListed path) (λ d a h. h) (λ d x h. h) (λ d x h. h)

    opens_directory :
        (s : Machine K) → Listing s → Listing (perform (Call.opendir (c_str path)) s).1
    unfolding perform
    opens_directory s h = (own.listed path s h.0 h.1, h.1)

    nlst_all-Keeps : (b : Bool) → Keeps Listing (nlst_all path b)
    unfolding nlst_all
    nlst_all-Keeps b s h =
        nlst_loop-Keeps listing.frame (os.entries (c_str path) s.kernel + 2) path b [] none
          opens_directory (omega arith) s h

    nlst_send-Keeps : (b : Bool) → Keeps Listing (nlst_send path b)
    unfolding nlst_send expand
    nlst_send-Keeps b s h =
        let started = codes "150 Here comes the directory listing." in
        ⨾-Keeps Listing accept_transfer_client_connection (send_reply started [] ⨾ nlst_all path b)
          (ServerKeeps.accept_transfer_client_connection-Keeps listing)
          (⨾-Keeps Listing (send_reply started []) (nlst_all path b)
            (replied listing.frame started [] (_, refl)) (nlst_all-Keeps b))
          s h

  -- The directory that is found may be listed.
  pub checked_dir-IsListed :
      (o : Option Bytes) (s : Machine K) {p : Bytes}
      → (checked_dir o s).0 ≡ some p
      → IsListed p (checked_dir o s).1.server_data
  unfolding checked_dir is_dir perform
  checked_dir-IsListed none s e = cc
  checked_dir-IsListed (some []) s e = cc
  checked_dir-IsListed (some (c ∷ path)) s e = inr (ground arith)

  pub nlst_dir-IsListed :
      (args : Bytes) (o : Option Bytes) (s : Machine K) {p : Bytes}
      → ((dir : Bytes) → o ≡ some dir → IsListed dir s.server_data)
      → (nlst_dir args o s).0 ≡ some p
      → IsListed p (nlst_dir args o s).1.server_data
  unfolding nlst_dir
  nlst_dir-IsListed args none s printed e = cc
  nlst_dir-IsListed args (some dir) s {p} printed e =
      let t = server_path_to_real_path args s in
      elim (Bool-cases (length args == 0)) [
        | inl own_dir ↦ rw own_dir (cwd_listed dir (rw own_dir at e) (printed dir refl))
        | inr other ↦ rw other (checked_dir-IsListed t.0 t.1 (rw other at e))
      ]
    where
      cwd_listed :
          (dir : Bytes) → some dir ≡ some p → IsListed dir s.server_data → IsListed p s.server_data
      cwd_listed dir e l = subst (λ q. IsListed q s.server_data) (some-injective dir p e) l

  pub get_cwd-IsListed :
      (s : Machine K) (dir : Bytes)
      → (get_cwd path_len_max s).0 ≡ some dir
      → IsListed dir (get_cwd path_len_max s).1.server_data
  unfolding get_cwd
  get_cwd-IsListed s dir e = inl (ground arith, ground arith)

  pub nlst_found-Keeps :
      (args : Bytes) (o : Option Bytes) (s : Machine K)
      → P s
      → ((p : Bytes) → o ≡ some p → IsListed p s.server_data)
      → P (nlst_found args o s).1
  unfolding nlst_found
  nlst_found-Keeps args none s h listed = h
  nlst_found-Keeps args (some path) s h listed =
      (nlst_send-Keeps path (ltb 0 (length args)) s (h, listed path refl)).0

  pub nlst_result-Keeps : (args : Bytes) → Keeps P (nlst_path args >>= nlst_found args)
  unfolding nlst_path
  nlst_result-Keeps args s h =
      let c = get_cwd path_len_max s in
      let t = nlst_dir args c.0 c.1 in
      nlst_found-Keeps args t.0 t.1 (nlst_path-Keeps (frame own) args s h)
        (λ p e. nlst_dir-IsListed args c.0 c.1 (get_cwd-IsListed s) e)

  pub command_nlst-Keeps : (args : Bytes) → Keeps P (command_nlst args)
  unfolding command_nlst expand
  command_nlst-Keeps args s h =
      let t = closed own (nlst_path args >>= nlst_found args) (nlst_result-Keeps args) s h in
      if-Keeps P _ (send_reply (codes "226 Directory send OK.") [])
        (send_reply (codes "550 Permission Denied.") []) (reply own _ [] (_, refl))
        (reply own _ [] (_, refl)) _ t
