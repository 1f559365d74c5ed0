-- ===== src/Server/Transfer/Closes.antt =====
-- What `VSFTPServerSendfileTransfer` in src/common/vsftp_server.c does with descriptors.
use vs_ftp.Common.{
  ℕ, zero, suc, ℤ, is_zero, is_invalid, Bool-cases, inl, inr, List, [], ◌∷◌, ◌++◌, refl, ◌∙◌, ap,
  arith, if◌then◌else◌,
}
use vs_ftp.Libc.{Bytes, c_str}
use vs_ftp.Os.{Call, Os}
use vs_ftp.Machine.{Machine, perform, invoke}
use vs_ftp.Machine.Keeps.{Keeps}
use vs_ftp.Machine.Handles.{Handle, file, file_handle, opened, closed, Used, Traffic, Used-Traffic}
use vs_ftp.Filesystem.{Opened, measure, open_file, close_file}
use vs_ftp.Server.Transfer.{send_round, send_loop, send_file_transfer}

module _ {K : Type 0} ⦃os : Os K⦄ {P : Machine K → Type 0} (traffic : Traffic P) where
  send_round-Traffic : (fd : ℤ) (count : ℕ) → Keeps P (send_round fd count)
  unfolding send_round
  send_round-Traffic fd count s h = grind (arith, traffic.reads, traffic.writes)

  send_loop-Traffic : (f : ℕ) (fd : ℤ) (count : ℕ) → Keeps P (send_loop f fd count)
  unfolding send_loop
  send_loop-Traffic zero fd count s h = h
  send_loop-Traffic (suc f) fd zero s h = h
  send_loop-Traffic (suc f) fd (suc count) s h =
      grind (arith, send_round-Traffic fd (suc count) s h, send_loop-Traffic f)

module _ {K : Type 0} ⦃os : Os K⦄ where
  -- A file has been opened, and is the one handed out.
  abbrev Holds : Machine K → Opened × Machine K → Type 0
  Holds s (o, t) = Used (file_handle o.fd ++ opened s.log) (closed s.log) t

  measure-Holds :
      (fd : ℤ) (s : Machine K) (o c : List Handle)
      → Used (file_handle fd ++ o) c s
      → let (f, t) = measure fd s in Used (file_handle f.fd ++ o) c t
  unfolding measure perform opened closed
  measure-Holds fd s o c h = elim (Bool-cases (is_invalid fd)) [
    | inl e ↦ rw e (h.0 ∙ ap (λ b. (if b then [] else file fd ∷ []) ++ o) e, h.1)
    | inr e ↦ rw e h
  ]

  open_file-Holds : (path : Bytes) (s : Machine K) → Holds s (open_file path s)
  unfolding open_file perform opened closed
  open_file-Holds [] s = (refl, refl)
  open_file-Holds (c ∷ path) s =
      let (r, t) = invoke (Call.access (c_str (c ∷ path))) s in
      let (fd, u) = invoke (Call.open_file (c_str (c ∷ path))) t in
      elim (Bool-cases (is_zero r)) [
        | inl e ↦ rw e (measure-Holds fd u (opened s.log) (closed s.log) (refl, refl))
        | inr e ↦ rw e (refl, refl)
      ]

  -- Whatever the system calls answer, a transfer closes each file descriptor that it opens exactly
  -- once, and closes nothing else.
  pub send_file_transfer-closes :
      (path : Bytes) (s : Machine K)
      → let t = (send_file_transfer path s).1 in
        (hs : List Handle) × Used (hs ++ opened s.log) (hs ++ closed s.log) t
  unfolding send_file_transfer close_file perform opened closed
  send_file_transfer-closes path s =
      let (o, t) = open_file path s in
      let h = open_file-Holds path s in
      let sent = send_loop-Traffic (Used-Traffic _ _) o.count o.fd o.count t h in
      elim (Bool-cases (is_zero o.retval)) [
        | inl e ↦ rw e (file_handle o.fd, (sent.0, ap (λ cs. file_handle o.fd ++ cs) sent.1))
        | inr e ↦ rw e (file_handle o.fd, (h.0, ap (λ cs. file_handle o.fd ++ cs) h.1))
      ]
