-- ===== src/Commands/Size.antt =====
-- What SIZE in src/common/vsftp_commands.c tells the client.
use vs_ftp.Common.{
  not_zero, append-nil, ap, ◌≡◌, ◌≢◌, ◌⊎◌, inl, inr, refl, ℕ, ◌%◌, ◌^◌, success, is_zero,
  is_zero-success, Bool, Bool-cases, true, false, not, Option, none, some, [], ◌∷◌, ◌++◌, arith,
  length, ◌==◌, All, if◌then◌else◌,
}
use vs_ftp.Libc.{Bytes, c_str, codes}
use vs_ftp.Libc.Decimal.{decimal, IsDigit, value, value-decimal, decimal-IsDigit}
use vs_ftp.Libc.Format.{num, long_long, expand}
use vs_ftp.Os.{Call, Os}
use vs_ftp.Machine.{Machine, perform}
use vs_ftp.Server.Paths.{server_path_to_real_path}
use vs_ftp.Server.Reply.{send_reply}
use vs_ftp.Server.Reply.Writes.{send_reply-perform}
use vs_ftp.Commands.Login.{told}
use vs_ftp.Commands.Handlers.{located, locate, local_error, size_reply, command_size}

-- The reply with the decimal digits of a number.
abbrev pub Announced : ℕ → Bytes → Type 0
Announced n text =
    (digits : Bytes) × (text ≡ codes "213 " ++ digits) × All IsDigit digits × (value digits ≡ n)

abbrev pub not_found : Bytes
not_found = codes "550 File not found."

module _ {K : Type 0} ⦃os : Os K⦄ where
  plain_told :
      (b : Bool) (s : Machine K)
      → (send_reply (if b then not_found else local_error) [] s).1
        ≡ told (if b then not_found else local_error) s
  unfolding expand
  plain_told true s = send_reply-perform _ not_found [] not_found s refl refl (omega arith)
  plain_told false s = send_reply-perform _ local_error [] local_error s refl refl (omega arith)

  negated :
      (b : Bool) (s : Machine K)
      → (send_reply (if not b then not_found else local_error) [] s).1
        ≡ told (if b then local_error else not_found) s
  negated true s = plain_told false s
  negated false s = plain_told true s

  -- A file that is not found is an error of the file, unless there was no argument.
  located-error :
      (o : Option Bytes) (s : Machine K)
      → is_zero (located o s).0.retval ≡ false
      → (located o s).0.is_file_error ≡ true
  unfolding located
  located-error none s e = refl
  located-error (some path) s e = rw e refl

  locate-error :
      (args : Bytes) (s : Machine K)
      → is_zero (locate args s).0.retval ≡ false
      → (locate args s).0.is_file_error ≡ not (length args == 0)
  unfolding locate
  locate-error [] s e = refl
  locate-error (c ∷ args) s e =
      let (o, t) = server_path_to_real_path (c ∷ args) s in
      let given : (length (c ∷ args) == 0) ≡ false = ground arith in
      rw given (located-error o t (rw given at e))

  size_reply-announces :
      (path : Bytes) (s : Machine K)
      → let (a, u) = perform (Call.stat (c_str path)) s in
        a.ret ≡ success
        → (text : Bytes) × Announced (a.size % 2 ^ 64) text × ((size_reply path s).1 ≡ told text u)
  unfolding size_reply expand
  size_reply-announces path s ok =
      let (a, u) = perform (Call.stat (c_str path)) s in
      let n = a.size % 2 ^ 64 in
      let sent =
        send_reply-perform u.server_data.client_sock (codes "213 %llu") (num long_long a.size ∷ [])
          (codes "213 " ++ (decimal n ++ [])) u refl refl (omega arith) in
      (
        codes "213 " ++ (decimal n ++ []),
        (
          decimal n,
          ap (λ b. codes "213 " ++ b) (append-nil (decimal n)),
          decimal-IsDigit n,
          value-decimal n (omega arith),
        ),
        rw ok sent,
      )

  size_reply-fails :
      (path : Bytes) (s : Machine K)
      → let (a, u) = perform (Call.stat (c_str path)) s in
        is_zero a.ret ≡ false → (size_reply path s).1 ≡ told local_error u
  unfolding size_reply
  size_reply-fails path s e =
      let u = (perform (Call.stat (c_str path)) s).1 in rw e (plain_told false u)

  -- SIZE ends in one of three ways, each with one line to the client, and does nothing else but to
  -- look for the file and to look at it: the argument is found as a file and `stat` succeeds, and the
  -- line is 213 and decimal digits whose value is the size that `stat` gave, in 64 bits; or `stat`
  -- fails, and the line is 451; or the argument is not found as a file, and the line is 550, or 451 if
  -- there is no argument.
  pub command_size-announces :
      (args : Bytes) (s : Machine K)
      → let (file, t) = locate args s in
        let (a, u) = perform (Call.stat (c_str file.real_path)) t in
        let x = (command_size args s).1 in
        ((file.retval ≡ success)
          × (a.ret ≡ success)
          × (text : Bytes) × Announced (a.size % 2 ^ 64) text
          × (x ≡ told text u))
        ⊎ ((file.retval ≡ success) × (a.ret ≢ success) × (x ≡ told local_error u))
        ⊎ ((file.retval ≢ success)
            × (x ≡ told (if length args == 0 then local_error else not_found) t))
  unfolding command_size
  command_size-announces args s =
      let (file, t) = locate args s in
      let a = (perform (Call.stat (c_str file.real_path)) t).0 in
      elim (Bool-cases (is_zero file.retval)) [
        | inl e ↦ elim (Bool-cases (is_zero a.ret)) [
          | inl f ↦
              let ok = is_zero-success a.ret f in
              let (text, says, does) = size_reply-announces file.real_path t ok in
              inl (is_zero-success file.retval e, ok, text, says, rw e does)
          | inr f ↦ inr (
              inl (
                is_zero-success file.retval e,
                not_zero a.ret f,
                rw e (size_reply-fails file.real_path t f),
              ))
        ]
        | inr e ↦ inr (inr (not_zero file.retval e, rw e (lost args s e)))
      ]
    where
      lost :
          (args : Bytes) (s : Machine K)
          → is_zero (locate args s).0.retval ≡ false
          → let (file, t) = locate args s in
            (send_reply (if file.is_file_error then not_found else local_error) [] t).1
            ≡ told (if length args == 0 then local_error else not_found) t
      lost args s e =
          let t = (locate args s).1 in rw (locate-error args s e) (negated (length args == 0) t)
