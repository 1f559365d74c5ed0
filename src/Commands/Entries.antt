-- ===== src/Commands/Entries.antt =====
-- What the loop of `CommandHandlerNlst` in src/common/vsftp_commands.c sends of a directory.
use vs_ftp.Common.{
  map, Bool, ℕ, zero, suc, ◌+◌, ◌<◌, ◌≡◌, refl, sym, subst, ap, ◌∙◌, ℤ, success, is_zero, Option,
  none, some, List, [], ◌∷◌, ◌++◌, append_assoc, arith, All, length, if◌then◌else◌,
}
use vs_ftp.Libc.{Bytes, c_str, crlf}
use vs_ftp.Os.{Os}
use vs_ftp.Machine.{Machine}
use vs_ftp.Filesystem.{path_len_max, Listed, list_dir_per_line}
use vs_ftp.Commands.Handlers.{nlst_line, nlst_loop, nlst_all}
use vs_ftp.Commands.Streams.{
  Streams, Printable, buffered, IsReady, line-sent, entry-listed, end-listed, first-listed,
}

-- These lines, and then once more the last line, or `last` if there is none.
unfoldable pub lines_then_last : Bytes → List Bytes → List Bytes
lines_then_last last [] = (last ++ crlf) ∷ []
lines_then_last last (line ∷ lines) = (line ++ crlf) ∷ lines_then_last line lines

-- What a loop has done that went well: it succeeded, and these lines were sent.
abbrev pub Sent : {K : Type 0} → (K → List Bytes) → List Bytes → Machine K → ℤ × Machine K → Type 0
Sent received lines s (r, t) = (r ≡ success) × (received t.kernel ≡ received s.kernel ++ lines)

module _ {K : Type 0} ⦃os : Os K⦄ {d : ℕ} {sock : ℤ} {names received : K → List Bytes}
    (streams : Streams os d sock names received) (prepend_dir : Bool) (path root : Bytes)
    (shown : Bytes → Bytes) where
  -- How a round goes on after its line, and after its call of `VSFTPFilesystemListDirPerLine`.
  abbrev after_line : ℕ → Bytes → Option ℕ → ℤ × Machine K → ℤ × Machine K
  after_line f buf cookie (r, u) =
      let more = nlst_loop f path prepend_dir buf cookie u in
      if is_zero r then elim cookie [ none ↦ (r, u) | some _ ↦ more ] else (r, u)

  abbrev after_call : ℕ → Listed × Machine K → ℤ × Machine K
  after_call f (l, t) =
      if is_zero l.retval
      then after_line f l.buf l.cookie (nlst_line prepend_dir l.buf t)
      else (l.retval, t)

  round_done :
      (X : ℤ × Machine K → Type 0) (f : ℕ) (buf : Bytes) (cookie : Option ℕ) (l : Listed)
      (t : Machine K)
      → l ≡ record { retval = success; buf = buf; cookie = cookie }
      → (nlst_line prepend_dir buf t).0 ≡ success
      → X (after_line f buf cookie (success, (nlst_line prepend_dir buf t).1))
      → X (after_call f (l, t))
  round_done X f buf cookie l t listed sent h =
      subst (λ q. X (after_call f (q, t))) (sym listed)
        (subst (λ r. X (after_line f buf cookie (r, (nlst_line prepend_dir buf t).1))) (sym sent) h)

  -- A line that was sent, and the lines behind it.
  line-joined :
      (line : Bytes) (lines : List Bytes) (s u : Machine K)
      → received u.kernel ≡ received s.kernel ++ (line ++ crlf) ∷ []
      → received u.kernel ++ lines_then_last line lines
        ≡ received s.kernel ++ (line ++ crlf) ∷ lines_then_last line lines
  line-joined line lines s u sent =
      ap (λ (x : List Bytes). x ++ lines_then_last line lines) sent
      ∙ append_assoc (received s.kernel) ((line ++ crlf) ∷ []) (lines_then_last line lines)

  abbrev Prints : Bytes → Type 0
  Prints n = Printable os prepend_dir path root n (shown n)

  -- The loop on an open stream, behind the entry `m`.
  loop-sends :
      (f : ℕ) (m : Bytes) (ns : List Bytes) (s : Machine K)
      → IsReady sock root s.server_data
      → 0 < length path
      → names s.kernel ≡ ns
      → Prints m
      → All Prints ns
      → length ns < f
      → Sent received
          (lines_then_last (shown m) (map shown ns))
          s
          (nlst_loop f path prepend_dir (buffered prepend_dir path m) (some d) s)
  unfolding nlst_loop lines_then_last
  loop-sends zero m ns s ready set left prints all enough = absurd (omega arith)
  loop-sends (suc f) m [] s ready set left prints all enough =
      let buf = buffered prepend_dir path m in
      let l = end-listed streams prepend_dir path root buf s set left in
      let t = (list_dir_per_line path buf path_len_max prepend_dir (some d) s).1 in
      let w =
        line-sent streams prepend_dir path root m (shown m) t
          (subst (IsReady sock root) (sym l.2) ready) prints in
      round_done (Sent received (lines_then_last (shown m) []) s) f buf none _ t l.0 w.0
        (refl, w.2 ∙ ap (λ (x : List Bytes). x ++ (shown m ++ crlf) ∷ []) l.1)
  loop-sends (suc f) m (n ∷ ns) s ready set left prints all enough =
      let old = buffered prepend_dir path m in
      let buf = buffered prepend_dir path n in
      let l = entry-listed streams prepend_dir path root old n (shown n) ns s set left all.0 in
      let t = (list_dir_per_line path old path_len_max prepend_dir (some d) s).1 in
      let w =
        line-sent streams prepend_dir path root n (shown n) t
          (subst (IsReady sock root) (sym l.3) ready) all.0 in
      let u = (nlst_line prepend_dir buf t).1 in
      let rest =
        loop-sends f n ns u (subst (IsReady sock root) (sym (w.3 ∙ l.3)) ready) set (w.1 ∙ l.1)
          all.0 all.1 (omega arith) in
      let sent : received u.kernel ≡ received s.kernel ++ (shown n ++ crlf) ∷ [] =
        w.2 ∙ ap (λ (x : List Bytes). x ++ (shown n ++ crlf) ∷ []) l.2 in
      round_done (Sent received (lines_then_last (shown m) (map shown (n ∷ ns))) s) f buf (some d) _
        t l.0 w.0 (rest.0, rest.1 ∙ line-joined (shown n) (map shown ns) s u sent)

  -- In an environment where a directory's stream gives its entries in order, each of which can be
  -- sent as a line, and a peer takes all that is written to it, the listing of a directory that has
  -- entries and whose path is not empty succeeds and sends a line for each entry in order, and then
  -- the line of the last entry once more. The rounds that it gets are enough.
  pub nlst_all-sends :
      (n : Bytes) (ns : List Bytes) (s : Machine K)
      → IsReady sock root s.server_data
      → 0 < length path
      → names s.kernel ≡ n ∷ ns
      → All Prints (n ∷ ns)
      → Sent received
          ((shown n ++ crlf) ∷ lines_then_last (shown n) (map shown ns))
          s
          (nlst_all path prepend_dir s)
  unfolding nlst_all nlst_loop
  nlst_all-sends n ns s ready set left prints =
      let rounds : os.entries (c_str path) s.kernel + 2 ≡ suc (suc (suc (length ns))) =
        omega (arith, streams.counted (c_str path) s.kernel, ap length left) in
      let buf = buffered prepend_dir path n in
      let l = first-listed streams prepend_dir path root n (shown n) ns s set left prints.0 in
      let t = (list_dir_per_line path [] path_len_max prepend_dir none s).1 in
      let w =
        line-sent streams prepend_dir path root n (shown n) t
          (subst (IsReady sock root) (sym l.3) ready) prints.0 in
      let u = (nlst_line prepend_dir buf t).1 in
      let f = suc (suc (length ns)) in
      let rest =
        loop-sends f n ns u (subst (IsReady sock root) (sym (w.3 ∙ l.3)) ready) set (w.1 ∙ l.1)
          prints.0 prints.1 (omega arith) in
      let sent : received u.kernel ≡ received s.kernel ++ (shown n ++ crlf) ∷ [] =
        w.2 ∙ ap (λ (x : List Bytes). x ++ (shown n ++ crlf) ∷ []) l.2 in
      let lines = (shown n ++ crlf) ∷ lines_then_last (shown n) (map shown ns) in
      rw rounds (
        round_done (Sent received lines s) f buf (some d) _ t l.0 w.0
          (rest.0, rest.1 ∙ line-joined (shown n) (map shown ns) s u sent))
