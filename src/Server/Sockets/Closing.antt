-- ===== src/Server/Sockets/Closing.antt =====
-- What closing leaves in the server's data, in src/common/vsftp_server.c.
use vs_ftp.Common.{List, ℤ, failure, success, ◌≡◌, refl, ap, false, arith}
use vs_ftp.Os.{Call, Os}
use vs_ftp.Machine.{Event, invoke, Server, Machine, perform, SockAddr}
use vs_ftp.Machine.Keeps.{Keeps, Frame, lists}
use vs_ftp.Server.Sockets.{
  shut, close_client_socket, close_transfer_socket, close_transfer_client_socket,
  close_server_socket, stop, client_disconnect, create_passive_socket,
}
use vs_ftp.Server.Keeps as ServerKeeps

-- All sockets of the client closed, nobody connected, and nothing else changed.
abbrev pub disconnected : Server → Server
disconnected d = record d {
  transfer_client_sock = failure;
  transfer_sock = failure;
  client_sock = failure;
  is_connected = false;
}

-- The same, and the server socket closed too.
abbrev pub stopped : Server → Server
stopped d = record (disconnected d) { server_sock = failure; is_server_socket_created = false }

module _ {K : Type 0} ⦃os : Os K⦄ where
  -- System calls leave the server's data alone.
  pub data_frame : (d : Server) → Frame (λ (s : Machine K). s.server_data ≡ d)
  unfolding perform
  data_frame d = record { call = λ c e s h. h; undefined = λ f s h r. h }

  pub shut-data : (sock : ℤ) (s : Machine K) → (shut sock s).1.server_data ≡ s.server_data
  shut-data sock s = ServerKeeps.shut-Keeps (data_frame s.server_data).call sock s refl

  pub create_passive_socket-data :
      (a : SockAddr) (s : Machine K) → (create_passive_socket a s).1.server_data ≡ s.server_data
  create_passive_socket-data a s =
      ServerKeeps.create_passive_socket-Keeps (data_frame s.server_data) a s refl

  pub close_client_socket-data :
      (s : Machine K)
      → (close_client_socket s).1.server_data ≡ record s.server_data { client_sock = failure }
  unfolding close_client_socket
  close_client_socket-data s =
      ap (λ (d : Server). record d { client_sock = failure })
        (shut-data s.server_data.client_sock s)

  pub close_transfer_socket-data :
      (s : Machine K)
      → (close_transfer_socket s).1.server_data ≡ record s.server_data { transfer_sock = failure }
  unfolding close_transfer_socket
  close_transfer_socket-data s =
      ap (λ (d : Server). record d { transfer_sock = failure })
        (shut-data s.server_data.transfer_sock s)

  pub close_transfer_client_socket-data :
      (s : Machine K)
      → (close_transfer_client_socket s).1.server_data
        ≡ record s.server_data { transfer_client_sock = failure }
  unfolding close_transfer_client_socket
  close_transfer_client_socket-data s =
      ap (λ (d : Server). record d { transfer_client_sock = failure })
        (shut-data s.server_data.transfer_client_sock s)

  pub close_server_socket-data :
      (s : Machine K)
      → (close_server_socket s).1.server_data ≡ record s.server_data { server_sock = failure }
  unfolding close_server_socket perform
  close_server_socket-data s = ground arith

  -- `VSFTPServerClientDisconnect` succeeds, whatever its system calls answer. It leaves all sockets
  -- of the client marked as closed and nobody connected, and changes no other member.
  pub client_disconnect-data :
      (s : Machine K)
      → ((client_disconnect s).0 ≡ success)
        × ((client_disconnect s).1.server_data ≡ disconnected s.server_data)
  unfolding client_disconnect
  client_disconnect-data s =
      let t = (close_transfer_client_socket s).1 in
      let u = (close_transfer_socket t).1 in
      (
        refl,
        rw (
          close_client_socket-data u,
          close_transfer_socket-data t,
          close_transfer_client_socket-data s,
        ),
      )

  -- `VSFTPServerStop` succeeds, whatever its system calls answer. It leaves every socket marked as
  -- closed, nobody connected and no server socket created, and changes no other member.
  pub stop-data :
      (s : Machine K) → ((stop s).0 ≡ success) × ((stop s).1.server_data ≡ stopped s.server_data)
  unfolding stop
  stop-data s =
      let t = (close_transfer_client_socket s).1 in
      let u = (close_transfer_socket t).1 in
      let v = (close_client_socket u).1 in
      (
        refl,
        rw (
          close_server_socket-data v,
          close_client_socket-data u,
          close_transfer_socket-data t,
          close_transfer_client_socket-data s,
        ),
      )

-- What holds of the log alone is kept by disconnecting and stopping.
module _ {K : Type 0} ⦃os : Os K⦄ (Q : List Event → Type 0)
    (call : (c : Call) → lists c ≡ false → Keeps (λ (s : Machine K). Q s.log) (perform c)) where
  close_transfer_client_socket-log :
      (s : Machine K) → Q s.log → Q (close_transfer_client_socket s).1.log
  unfolding close_transfer_client_socket
  close_transfer_client_socket-log s h =
      ServerKeeps.shut-Keeps call s.server_data.transfer_client_sock s h

  close_transfer_socket-log : (s : Machine K) → Q s.log → Q (close_transfer_socket s).1.log
  unfolding close_transfer_socket
  close_transfer_socket-log s h = ServerKeeps.shut-Keeps call s.server_data.transfer_sock s h

  close_client_socket-log : (s : Machine K) → Q s.log → Q (close_client_socket s).1.log
  unfolding close_client_socket
  close_client_socket-log s h = ServerKeeps.shut-Keeps call s.server_data.client_sock s h

  close_server_socket-log : (s : Machine K) → Q s.log → Q (close_server_socket s).1.log
  unfolding close_server_socket
  close_server_socket-log s h =
      let sock = s.server_data.server_sock in
      let first : Q (invoke (Call.shutdown sock) s).1.log = call _ refl s h in
      let second : Q (invoke (Call.close sock) (invoke (Call.shutdown sock) s).1).1.log =
        call _ refl _ first in
      ground arith

  pub client_disconnect-log : (s : Machine K) → Q s.log → Q (client_disconnect s).1.log
  unfolding client_disconnect
  client_disconnect-log s h =
      close_client_socket-log _ (close_transfer_socket-log _ (close_transfer_client_socket-log s h))

  pub stop-log : (s : Machine K) → Q s.log → Q (stop s).1.log
  unfolding stop
  stop-log s h = close_server_socket-log _ (
      close_client_socket-log _
        (close_transfer_socket-log _ (close_transfer_client_socket-log s h)))
