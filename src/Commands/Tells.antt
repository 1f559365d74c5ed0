-- ===== src/Commands/Tells.antt =====
-- What PWD in src/common/vsftp_commands.c tells the client.
use vs_ftp.Common.{
  sym, subst, ◌<◌, ◌≡◌, refl, ap, ◌∙◌, some, [], ◌∷◌, ◌++◌, arith, length, length-append,
}
use vs_ftp.Libc.{Bytes, c_str, codes, crlf}
use vs_ftp.Libc.Format.{IsPlain, str, expand}
use vs_ftp.Os.{Call, Os}
use vs_ftp.Machine.{Machine, perform}
use vs_ftp.Filesystem.{path_len_max, slash}
use vs_ftp.Filesystem.Resolved.{NoNul, c_str_self, strncpy_self}
use vs_ftp.Server.Paths.{real_path_to_server_path}
use vs_ftp.Server.Paths.Views.{real_path_to_server_path-behind}
use vs_ftp.Server.Paths.RoundTrip.{NoNul-behind}
use vs_ftp.Server.Paths.Relative.{get_cwd-IsPlain}
use vs_ftp.Server.Reply.{send_reply}
use vs_ftp.Server.Reply.Writes.{send_reply-perform}
use vs_ftp.Commands.Handlers.{pwd_path, pwd_reply, command_pwd}

module _ {K : Type 0} ⦃os : Os K⦄ where
  pwd_reply-perform :
      (shown : Bytes) (s : Machine K)
      → NoNul shown
      → length shown < path_len_max
      → (pwd_reply (some shown) s).1
        ≡ (perform
            (Call.write s.server_data.client_sock (codes "257 \"" ++ shown ++ codes "\"" ++ crlf))
            s).1
  unfolding pwd_reply expand
  pwd_reply-perform shown s no_nul fits =
      let told =
        send_reply-perform s.server_data.client_sock (codes "257 \"%s\"") (str shown ∷ [])
          (codes "257 \"" ++ (c_str shown ++ codes "\"")) s refl refl (omega arith) in
      subst
        (λ (b : Bytes).
          (send_reply (codes "257 \"%s\"") (str shown ∷ []) s).1
          ≡ (perform
              (Call.write s.server_data.client_sock (codes "257 \"" ++ b ++ codes "\"" ++ crlf))
              s).1)
        (c_str_self shown no_nul) told

  -- PWD tells the client its working directory, and does nothing else: where the working directory
  -- goes on behind the root path with a slash, has its length, fits its buffer, and has neither a NUL
  -- nor a `%`, the client is sent what stands behind the root path.
  pub command_pwd-tells :
      (args sub : Bytes) (s : Machine K)
      → s.server_data.cwd ≡ s.server_data.root_path ++ slash ∷ sub
      → s.server_data.cwd_len ≡ length s.server_data.cwd
      → length s.server_data.cwd < path_len_max
      → NoNul s.server_data.cwd
      → IsPlain s.server_data.cwd
      → (command_pwd args s).1
        ≡ (perform
            (Call.write s.server_data.client_sock
              (codes "257 \"" ++ (slash ∷ sub) ++ codes "\"" ++ crlf))
            s).1
  unfolding command_pwd pwd_path
  command_pwd-tells args sub s at size fits no_nul plain =
      let root = s.server_data.root_path in
      let cwd = s.server_data.cwd in
      let sum = length-append root (slash ∷ sub) in
      let set : 0 < length cwd = omega (arith, ap length at, sum) in
      let behind : NoNul (slash ∷ sub) = NoNul-behind root (slash ∷ sub) (subst NoNul at no_nul) in
      let shows : real_path_to_server_path s.server_data cwd (length cwd) ≡ some (slash ∷ sub) =
        subst
          (λ (b : Bytes). real_path_to_server_path s.server_data b (length b) ≡ some (slash ∷ sub))
          (sym at)
          ((real_path_to_server_path-behind s.server_data slash sub (length (root ++ slash ∷ sub))
              (omega arith) (omega (arith, sum)))
            ∙ ap some (
                strncpy_self (slash ∷ sub) path_len_max behind
                  (omega (arith, ap length at, sum)))) in
      rw (get_cwd-IsPlain s set fits size plain)
        (rw shows (pwd_reply-perform (slash ∷ sub) s behind (omega (arith, ap length at, sum))))
