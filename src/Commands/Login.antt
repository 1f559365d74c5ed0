-- ===== src/Commands/Login.antt =====
-- Whom `CommandHandlerUser` in src/common/vsftp_commands.c lets in.
use vs_ftp.Common.{
  ◌≡◌, ◌≢◌, ◌⊎◌, inl, inr, refl, ap, sym, ◌∙◌, Bool, true, false, Bool-cases, [], ◌∷◌, ◌++◌, arith,
  length, ◌==◌, ◌&&◌,
}
use vs_ftp.Libc.{Bytes, codes, crlf, strncmp_eq}
use vs_ftp.Libc.Format.{expand}
use vs_ftp.Os.{Call, Os}
use vs_ftp.Machine.{Machine, perform}
use vs_ftp.Filesystem.Resolved.{NoNul}
use vs_ftp.Server.Sockets.{client_disconnect}
use vs_ftp.Server.Sockets.Closing.{disconnected, client_disconnect-data}
use vs_ftp.Server.Reply.{send_reply}
use vs_ftp.Server.Reply.Writes.{send_reply-perform}
use vs_ftp.Commands.Handlers.{command_user}

-- Texts of one length, the first without NUL, that `strncmp` finds equal are equal.
strncmp_eq-equal :
    (name args : Bytes)
    → NoNul name
    → length args ≡ length name
    → strncmp_eq name args (length name) ≡ true
    → args ≡ name
unfolding strncmp_eq
strncmp_eq-equal [] [] n same h = refl
strncmp_eq-equal [] (d ∷ args) n same h = absurd (omega arith)
strncmp_eq-equal (c ∷ name) [] n same h = absurd (omega arith)
strncmp_eq-equal (c ∷ name) (d ∷ args) n same h =
    let first : c ≡ d = ground (arith, h) in
    let more : strncmp_eq name args (length name) ≡ true = ground (arith, n.0, h) in
    let rest = strncmp_eq-equal name args n.1 (omega arith) more in rw (first, rest) refl

abbrev pub anonymous : Bytes
anonymous = codes "anonymous"

abbrev admitted : Bytes → Bool
admitted args = length args == 9 && strncmp_eq anonymous args 9

anonymous-admitted : admitted anonymous ≡ true
unfolding strncmp_eq
anonymous-admitted = refl

admitted-anonymous : (args : Bytes) → admitted args ≡ true → args ≡ anonymous
admitted-anonymous args h =
    strncmp_eq-equal anonymous args (ground arith) (ground (arith, h)) (ground (arith, h))

module _ {K : Type 0} ⦃os : Os K⦄ where
  -- The machine after one line to the client.
  abbrev pub told : Bytes → Machine K → Machine K
  told text s = (perform (Call.write s.server_data.client_sock (text ++ crlf)) s).1

  -- USER logs in exactly the user `anonymous`: with that argument the one thing that it does is to
  -- tell the client 230; with any other it tells the client 530 and then disconnects it, which marks
  -- all sockets of the client as closed and nobody as connected, whatever the system calls answer.
  pub command_user-decides :
      (args : Bytes) (s : Machine K)
      → let t = (command_user args s).1 in
        ((args ≡ anonymous) × (t ≡ told (codes "230 User logged in, proceed.") s))
        ⊎ ((args ≢ anonymous)
            × (t ≡ (client_disconnect (told (codes "530 Login incorrect.") s)).1)
            × (t.server_data ≡ disconnected s.server_data))
  unfolding command_user expand perform
  command_user-decides args s =
      let sock = s.server_data.client_sock in
      let welcomed = codes "230 User logged in, proceed." in
      let refused = codes "530 Login incorrect." in
      let yes = send_reply-perform sock welcomed [] welcomed s refl refl (omega arith) in
      let no = send_reply-perform sock refused [] refused s refl refl (omega arith) in
      let u = (send_reply refused [] s).1 in
      elim (Bool-cases (admitted args)) [
        | inl e ↦ rw e (inl (admitted-anonymous args e, yes))
        | inr e ↦ rw e (
            inr (
              λ is. true_not_false (sym anonymous-admitted ∙ ap admitted (sym is) ∙ e),
              ap (λ (m : Machine K). (client_disconnect m).1) no,
              (client_disconnect-data u).1 ∙ ap (λ (m : Machine K). disconnected m.server_data) no,
            ))
      ]
    where
      true_not_false : true ≡ false → ⊥
      true_not_false e = cc
