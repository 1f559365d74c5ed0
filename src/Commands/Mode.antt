-- ===== src/Commands/Mode.antt =====
-- What `CommandHandlerType` in src/common/vsftp_commands.c makes of its argument.
use vs_ftp.Common.{
  ℕ, ◌≡◌, ◌⊎◌, inl, inr, refl, ap, sym, ◌∙◌, Bool, true, false, Bool-cases, [], ◌∷◌, arith,
  is_invalid, success, length, ◌==◌, ◌&&◌, ◌||◌, get_or,
}
use vs_ftp.Libc.{Bytes, codes}
use vs_ftp.Libc.Format.{expand}
use vs_ftp.Os.{Call, Os}
use vs_ftp.Machine.{Machine, ◌⨾◌}
use vs_ftp.Server.Reply.{send_reply}
use vs_ftp.Server.Reply.Writes.{send_reply-perform, send_reply-success}
use vs_ftp.Server.Transfer.{set_transfer_mode}
use vs_ftp.Commands.Handlers.{command_type}
use vs_ftp.Commands.Login.{told}

-- An argument of one letter, in either case.
abbrev is_letter : ℕ → ℕ → Bytes → Bool
is_letter big small args = length args == 1 && (get_or args 0 0 == big || get_or args 0 0 == small)

abbrev pub IsLetter : ℕ → ℕ → Bytes → Type 0
IsLetter big small args = (args ≡ big ∷ []) ⊎ (args ≡ small ∷ [])

one-IsLetter : (big small c : ℕ) → (c == big || c == small) ≡ true → IsLetter big small (c ∷ [])
one-IsLetter big small c h = elim (Bool-cases (c == big)) [
  | inl e ↦ inl (ap (λ x. x ∷ []) (ground (arith, e)))
  | inr e ↦ inr (ap (λ x. x ∷ []) (ground (arith, e, h)))
]

is_letter-IsLetter :
    (big small : ℕ) (args : Bytes) → is_letter big small args ≡ true → IsLetter big small args
is_letter-IsLetter big small [] h = absurd (ground (arith, h))
is_letter-IsLetter big small (c ∷ []) h = one-IsLetter big small c (ground (arith, h))
is_letter-IsLetter big small (c ∷ d ∷ rest) h = absurd (ground (arith, h))

IsLetter-is_letter :
    (big small : ℕ) (args : Bytes) → IsLetter big small args → is_letter big small args ≡ true
IsLetter-is_letter big small args (inl e) = rw e (ground arith)
IsLetter-is_letter big small args (inr e) = rw e (ground arith)

true_not_false : true ≡ false → ⊥
true_not_false e = cc

both : {A B : Type 0} {x : A × B} {a : A} {b : B} → x.0 ≡ a → x.1 ≡ b → x ≡ (a, b)
both e f = λ i. (e i, f i)

module _ {K : Type 0} ⦃os : Os K⦄ where
  -- The machine in this mode of transfer.
  abbrev pub in_mode : Bool → Machine K → Machine K
  in_mode binary s = record s {
    server_data = record s.server_data { transfer_mode_binary = binary };
  }

  switched :
      (text : Bytes) (b : Bool) (s : Machine K)
      → (send_reply text [] s).0 ≡ success
      → (send_reply text [] s).1 ≡ told text s
      → (send_reply text [] ⨾ set_transfer_mode b) s ≡ (success, in_mode b (told text s))
  unfolding set_transfer_mode
  switched text b s ok does = rw ok (ap (λ (t : Machine K). (success, in_mode b t)) does)

  -- TYPE switches the mode exactly for the letters I and A: where the client takes the reply, with
  -- the argument I, in either case, the one thing that it does is to tell the client 200 and to go to
  -- binary mode, with A to tell 200 and to go to ASCII mode, and with any other argument it tells the
  -- client 504 and the mode stays what it was.
  pub command_type-decides :
      (args : Bytes) (s : Machine K)
      → ((b : Bytes)
          → is_invalid (os.answer (Call.write s.server_data.client_sock b) s.kernel).0.ret ≡ false)
      → let x = command_type args s in
        (IsLetter b'I' b'i' args
          × (x ≡ (success, in_mode true (told (codes "200 Switching to Binary mode.") s))))
        ⊎ (IsLetter b'A' b'a' args
            × (x ≡ (success, in_mode false (told (codes "200 Switching to ASCII mode.") s))))
        ⊎ ((¬ (IsLetter b'I' b'i' args ⊎ IsLetter b'A' b'a' args))
            × (x ≡ (success, told (codes "504 Command not implemented for that parameter.") s)))
  unfolding command_type expand
  command_type-decides args s takes =
      let sock = s.server_data.client_sock in
      let binary = codes "200 Switching to Binary mode." in
      let ascii = codes "200 Switching to ASCII mode." in
      let refused = codes "504 Command not implemented for that parameter." in
      let yes =
        switched binary true s
          (send_reply-success sock binary [] binary s refl refl (omega arith) (takes _)).0
          (send_reply-perform sock binary [] binary s refl refl (omega arith)) in
      let also =
        switched ascii false s
          (send_reply-success sock ascii [] ascii s refl refl (omega arith) (takes _)).0
          (send_reply-perform sock ascii [] ascii s refl refl (omega arith)) in
      let ok = (send_reply-success sock refused [] refused s refl refl (omega arith) (takes _)).0 in
      let no = send_reply-perform sock refused [] refused s refl refl (omega arith) in
      elim (Bool-cases (is_letter b'I' b'i' args)) [
        | inl e ↦ rw e (inl (is_letter-IsLetter b'I' b'i' args e, yes))
        | inr e ↦ elim (Bool-cases (is_letter b'A' b'a' args)) [
          | inl f ↦ rw e (rw f (inr (inl (is_letter-IsLetter b'A' b'a' args f, also))))
          | inr f ↦ rw e (rw f (inr (inr (neither e f, both ok no))))
        ]
      ]
    where
      neither :
          is_letter b'I' b'i' args ≡ false
          → is_letter b'A' b'a' args ≡ false
          → ¬ (IsLetter b'I' b'i' args ⊎ IsLetter b'A' b'a' args)
      neither e f (inl h) = true_not_false (sym (IsLetter-is_letter b'I' b'i' args h) ∙ e)
      neither e f (inr h) = true_not_false (sym (IsLetter-is_letter b'A' b'a' args h) ∙ f)
