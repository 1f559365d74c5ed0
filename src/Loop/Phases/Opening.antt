-- ===== src/Loop/Phases/Opening.antt =====
-- The steps of `VSFTPServerHandler` in src/common/vsftp_server.c before a client is connected.
use vs_ftp.Common.{
  ◌≡◌, refl, ap, ◌∙◌, ℤ, pos, negsuc, zero, suc, is_nonneg, success, failure, Bool, Bool-cases, inl,
  inr, true, false, [],
}
use vs_ftp.Libc.{codes}
use vs_ftp.Libc.Format.{expand}
use vs_ftp.Os.{Call, Os}
use vs_ftp.Machine.{Server, SockAddr, Machine, M, pure, ◌>>◌, ◌⨾◌, perform, htons, modify}
use vs_ftp.Machine.Keeps.{⨾-cases}
use vs_ftp.Server.Sockets.{stop, create_passive_socket}
use vs_ftp.Server.Sockets.Closing.{stop-data, create_passive_socket-data}
use vs_ftp.Server.Reply.{send_reply}
use vs_ftp.Server.Paths.{set_cwd}
use vs_ftp.Server.Keeps as ServerKeeps
use vs_ftp.Server.Invariant.{CwdFrame, set_cwd-Keeps}
use vs_ftp.Loop.{
  would_block, stop_unless_blocked, mark_created, open_server_socket, start, welcome,
  wait_for_incoming_connection,
}
use vs_ftp.Loop.Phases.Steps.{
  Phase, down, listening, phase, Step, opened, unopened, welcomed, turned_away, nobody,
  accept_failed, Flags, LeadsFrom,
}

module _ {K : Type 0} ⦃os : Os K⦄ where
  pub cwd_held : (a b : Bool) → CwdFrame (Flags {K = K} a b)
  unfolding perform
  cwd_held a b = record {
    frame = record { call = λ c e s h. h; undefined = λ f s h r. h };
    stored = λ path s h is ok. h;
  }

  pub mark_created-Step :
      (r : ℤ) (s : Machine K) → Flags false false s → LeadsFrom down (mark_created r s)
  unfolding mark_created
  mark_created-Step (pos zero) s h = rw h.1 opened
  mark_created-Step (pos (suc n)) s h = rw h.0 (unopened (pos (suc n)) refl)
  mark_created-Step (negsuc n) s h = rw h.0 (unopened (negsuc n) refl)

  -- The end of `VSFTPServerStart`: the server socket is there exactly if all went well.
  pub open_server_socket-Step :
      (s : Machine K) → Flags false false s → LeadsFrom down (open_server_socket s)
  unfolding open_server_socket
  open_server_socket-Step s h =
      let addr : SockAddr = record { sin_port = htons s.server_data.port } in
      let t = (modify (λ d. record d { transfer_mode_binary = true; server = addr }) s).1 in
      let c = create_passive_socket addr t in
      let same = create_passive_socket-data addr t in
      mark_created-Step c.0.retval _ (
        ap (λ (d : Server). d.is_server_socket_created) same ∙ h.0,
        ap (λ (d : Server). d.is_connected) same ∙ h.1,
      )

  pub start-Step : (s : Machine K) → Flags false false s → LeadsFrom down (start s)
  unfolding start
  start-Step s h =
      let t =
        (modify
          (λ d. record d { transfer_sock = failure; server_sock = failure; client_sock = failure })
          s).1 in
      let root = s.server_data.root_path in
      let u = set_cwd-Keeps (cwd_held false false) root t h in
      ⨾-cases (LeadsFrom down) (set_cwd root) open_server_socket t
        (λ failed. rw u.0 (unopened _ failed)) (open_server_socket-Step (set_cwd root t).1 u)

  pub stop-down : (s : Machine K) → phase (stop s).1.server_data ≡ down
  stop-down s = rw ((stop-data s).1) refl

  pub welcome-Step : (s : Machine K) → Flags true false s → LeadsFrom listening (welcome s)
  unfolding welcome expand
  welcome-Step s h =
      let root = s.server_data.root_path in
      let greeting = send_reply (codes "220 Service ready for new user.") [] in
      let connect : M K ℤ = modify (λ d. record d { is_connected = true }) >> pure success in
      let u = set_cwd-Keeps (cwd_held true false) root s h in
      let v =
        ServerKeeps.send_reply-Keeps (cwd_held true false).frame
          (codes "220 Service ready for new user.") [] (_, refl) (set_cwd root s).1 u in
      ⨾-cases (LeadsFrom listening) (set_cwd root) (greeting ⨾ connect) s
        (λ failed. rw (u.0, u.1) (turned_away _ failed))
        (⨾-cases (LeadsFrom listening) greeting connect (set_cwd root s).1
          (λ failed. rw (v.0, v.1) (turned_away _ failed)) (rw v.0 welcomed))

  pub blocked-Step :
      (p : Phase) (r : ℤ) (s : Machine K)
      → phase s.server_data ≡ p
      → Step p r p
      → Step p r down
      → Step p r (phase (stop_unless_blocked s).1.server_data)
  unfolding stop_unless_blocked
  blocked-Step p r s at stays falls = elim (Bool-cases (would_block s.errno)) [
    | inl e ↦ rw e (rw at stays)
    | inr e ↦ rw e (rw (stop-down s) falls)
  ]

  pub wait-Step :
      (s : Machine K) → Flags true false s → LeadsFrom listening (wait_for_incoming_connection s)
  unfolding wait_for_incoming_connection perform
  wait-Step s h =
      let a = perform (Call.accept s.server_data.server_sock) s in
      let t = (modify (λ d. record d { client_sock = a.0.ret }) a.1).1 in
      elim (Bool-cases (is_nonneg a.0.ret)) [
        | inl arrived ↦ rw arrived (welcome-Step t h)
        | inr failed ↦
            rw failed (blocked-Step listening success t (rw (h.0, h.1) refl) nobody accept_failed)
      ]
