-- ===== src/Commands/Passive.antt =====
-- What `CommandHandlerPasv` in src/common/vsftp_commands.c does where nothing goes wrong.
use vs_ftp.Common.{
  pos, ℕ, ◌<◌, ◌≡◌, refl, ◌∙◌, subst, ap, ℤ, is_invalid, success, failure, true, false, List, [],
  ◌∷◌, ◌++◌, arith, length, some,
}
use vs_ftp.Libc.{Bytes, c_str, codes, crlf, strncpy}
use vs_ftp.Libc.Decimal.{decimal}
use vs_ftp.Libc.Format.{str, expand, int}
use vs_ftp.Os.{Call, Answer, Os}
use vs_ftp.Machine.{Server, SockAddr, Machine, did, Event, perform, htons}
use vs_ftp.Filesystem.Resolved.{NoNul, c_str_self, strncpy_self}
use vs_ftp.Server.Sockets.{
  create_passive_socket, prepare_socket, create_transfer_socket, close_transfer_client_socket,
  close_transfer_socket,
}
use vs_ftp.Server.Sockets.Closing.{close_transfer_socket-data, close_transfer_client_socket-data}
use vs_ftp.Server.Transfer.{inet_addrstrlen, get_server_ip4}
use vs_ftp.Commands.Handlers.{pasv_port_number, to_commas, pasv_address, pasv_reply, command_pasv}
use vs_ftp.Server.Transfer.WholeFile.{IsQuiet}
use vs_ftp.Commands.Connected.{
  Connects, Same, perform-Same, send_reply-tells, closed-Connects, Told,
}

-- An environment where a new socket is `listener` and can be made to listen.
pub record Listens {K : Type 0} (os : Os K) (listener : ℤ) : Type 0 where
  pub creates : (k : K) → (os.answer Call.socket k).0.ret ≡ listener
  pub created : is_invalid listener ≡ false
  pub unblocks : (k : K) → (os.answer (Call.fcntl_setfl listener) k).0.ret ≡ success
  pub reuses : (k : K) → (os.answer (Call.set_reuse_port listener) k).0.ret ≡ success
  pub binds : (port : ℕ) (k : K) → (os.answer (Call.bind listener port) k).0.ret ≡ success
  pub listens : (k : K) → (os.answer (Call.listen listener) k).0.ret ≡ success

-- The data with a new socket for transfers, that listens on the port of PASV.
abbrev pub passive : ℤ → Server → Server
passive listener d = record d {
  transfer_client_sock = failure;
  transfer_sock = listener;
  transfer = record { sin_port = htons pasv_port_number };
}

to_commas-NoNul : (b : Bytes) → NoNul b → NoNul (to_commas b)
unfolding to_commas
to_commas-NoNul [] h = tt
to_commas-NoNul (c ∷ b) h = ground (arith, to_commas-NoNul b)

length-to_commas : (b : Bytes) → length (to_commas b) ≡ length b
unfolding to_commas
length-to_commas [] = refl
length-to_commas (c ∷ b) = omega (arith, length-to_commas b)

module _ {K V : Type 0} ⦃os : Os K⦄ {sock client listener : ℤ} {view : K → V}
    (connects : Connects os sock client view) (free : Listens os listener) where
  then-Same :
      (s t : Machine K) (c : Call) → Same view s t → IsQuiet sock c → Same view s (perform c t).1
  then-Same s t c h q = let a = perform-Same connects c t q in (a.0 ∙ h.0, a.1 ∙ h.1)

  create_passive_socket-Listens :
      (a : SockAddr) (s : Machine K)
      → let (c, t) = create_passive_socket a s in
        (c ≡ record { retval = success; sock = listener }) × Same view s t
  unfolding create_passive_socket prepare_socket perform
  create_passive_socket-Listens a s =
      let s1 = (perform Call.socket s).1 in
      let s2 = (perform (Call.fcntl_getfl listener) s1).1 in
      let s3 = (perform (Call.fcntl_setfl listener) s2).1 in
      let s4 = (perform (Call.set_reuse_port listener) s3).1 in
      let s5 = (perform (Call.bind listener a.sin_port) s4).1 in
      let h1 = then-Same s s Call.socket (refl, refl) tt in
      let h2 = then-Same s s1 (Call.fcntl_getfl listener) h1 tt in
      let h3 = then-Same s s2 (Call.fcntl_setfl listener) h2 tt in
      let h4 = then-Same s s3 (Call.set_reuse_port listener) h3 tt in
      let h5 = then-Same s s4 (Call.bind listener a.sin_port) h4 tt in
      let h6 = then-Same s s5 (Call.listen listener) h5 tt in
      rw (free.creates s.kernel) (
        rw free.created (
          rw (free.unblocks s2.kernel) (
            rw (free.reuses s3.kernel)
              (rw (free.binds a.sin_port s4.kernel) (rw (free.listens s5.kernel) (refl, h6))))))

  create_transfer_socket-Listens :
      (s : Machine K)
      → s.server_data.transfer_sock ≡ failure
      → let (r, t) = create_transfer_socket pasv_port_number s in
        (r ≡ success)
        × (view t.kernel ≡ view s.kernel)
        × (t.server_data ≡ record s.server_data {
          transfer_sock = listener;
          transfer = record { sin_port = htons pasv_port_number };
        })
  unfolding create_transfer_socket
  create_transfer_socket-Listens s none_open =
      let addr : SockAddr = record { sin_port = htons pasv_port_number } in
      let t = record s { server_data = record s.server_data { transfer = addr } } in
      let c = create_passive_socket-Listens addr t in
      let closed : is_invalid s.server_data.transfer_sock ≡ true = rw none_open refl in
      rw closed
        (rw c.0 (refl, c.1.0, ap (λ (d : Server). record d { transfer_sock = listener }) c.1.1))

  -- The reply with the address and the port.
  pasv_reply-Told :
      (address : Bytes) (s : Machine K)
      → s.server_data.client_sock ≡ client
      → NoNul address
      → length address < inet_addrstrlen
      → Told connects
          (codes "227 Entering Passive Mode (" ++ to_commas address ++ codes ",156,64).")
          s
          (pasv_reply (some address) s)
  unfolding pasv_reply expand decimal
  pasv_reply-Told address s there no_nul fits =
      let shown = to_commas address in
      let told =
        send_reply-tells connects (codes "227 Entering Passive Mode (%s,%d,%d).")
          (str shown ∷ int (pos 156) ∷ int (pos 64) ∷ [])
          (codes "227 Entering Passive Mode (" ++ c_str shown ++ codes ",156,64).") s there refl
          (omega (arith, length-to_commas address)) in
      subst
        (λ (b : Bytes).
          Told connects (codes "227 Entering Passive Mode (" ++ b ++ codes ",156,64).") s
            (pasv_reply (some address) s))
        (c_str_self shown (to_commas-NoNul address no_nul)) told

  pub command_pasv-listens :
      (args : Bytes) (s : Machine K)
      → s.server_data.client_sock ≡ client
      → NoNul s.server_data.ip_addr
      → length s.server_data.ip_addr < inet_addrstrlen
      → let (r, t) = command_pasv args s in
        (r ≡ success)
        × (view t.kernel ≡ view s.kernel)
        × (t.server_data ≡ passive listener s.server_data)
        × (a : Answer) × (before : List Event) × (t.log
            ≡ did
                (Call.write client (
                  (codes "227 Entering Passive Mode ("
                    ++ to_commas s.server_data.ip_addr
                    ++ codes ",156,64).")
                  ++ crlf))
                a
              ∷ before)
  unfolding command_pasv pasv_address get_server_ip4
  command_pasv-listens args s there no_nul fits =
      let t1 = (close_transfer_client_socket s).1 in
      let t2 = (close_transfer_socket t1).1 in
      let t3 = (create_transfer_socket pasv_port_number t2).1 in
      let d1 = close_transfer_client_socket-data s in
      let d2 = close_transfer_socket-data t1 in
      let closes = closed-Connects connects s in
      let c = create_transfer_socket-Listens t2 (ap (λ (d : Server). d.transfer_sock) d2) in
      let d3 : t3.server_data ≡ passive listener s.server_data =
        c.2
        ∙ ap
            (λ (d : Server). record d {
              transfer_sock = listener;
              transfer = record { sin_port = htons pasv_port_number };
            })
            (d2 ∙ ap (λ (d : Server). record d { transfer_sock = failure }) d1) in
      let address : strncpy t3.server_data.ip_addr inet_addrstrlen ≡ s.server_data.ip_addr =
        ap (λ (d : Server). strncpy d.ip_addr inet_addrstrlen) d3
        ∙ strncpy_self s.server_data.ip_addr inet_addrstrlen no_nul (omega arith) in
      let told =
        pasv_reply-Told s.server_data.ip_addr t3 (ap (λ (d : Server). d.client_sock) d3 ∙ there)
          no_nul fits in
      rw c.0 (
        rw address
          (told.0.0, told.0.1.0 ∙ c.1 ∙ closes.0, told.0.1.1 ∙ d3, told.1.0, t3.log, told.1.1))
