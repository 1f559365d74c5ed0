-- ===== src/Commands/Closes.antt =====
-- What the loop of `CommandHandlerNlst` in src/common/vsftp_commands.c does with directory streams.
use vs_ftp.Common.{
  subst, sym, is_zero-success, failure, ℕ, zero, suc, ◌+◌, ℤ, pos, negsuc, success, is_zero,
  is_invalid, Bool, false, Bool-cases, inl, inr, ◌⊎◌, Option, none, some, List, [], ◌∷◌, ◌++◌, ◌≡◌,
  refl, ap, arith, if◌then◌else◌, ltb, length, ◌==◌,
}
use vs_ftp.Libc.{Bytes, c_str}
use vs_ftp.Os.{Call, Os}
use vs_ftp.Machine.{Machine, pure, perform, invoke}
use vs_ftp.Machine.Handles.{Handle, stream, stream_handle, opened, closed, Used, Used-Traffic}
use vs_ftp.Filesystem.{
  slash, Listed, path_len_max, put_line, list_entry, open_stream, list_dir_per_line,
}
use vs_ftp.Commands.Traffic.{nlst_line-Traffic}
use vs_ftp.Commands.Handlers.{nlst_line, nlst_loop, nlst_all}

module _ {K : Type 0} ⦃os : Os K⦄ where
  -- How a call for a line leaves the stream `d`: still open, and to go on with, or closed.
  abbrev Left : ℕ → List Handle → List Handle → Listed × Machine K → Type 0
  Left d o c (l, t) =
      ((l ≡ record l { retval = success; cookie = some d }) × Used o c t)
      ⊎ (((l.retval ≡ success) → (l.cookie ≡ none)) × Used o (stream d ∷ c) t)

  put_line-Left :
      (line buf : Bytes) (size : ℕ) (cookie : Option ℕ) (d : ℕ) (o c : List Handle) (s : Machine K)
      → Used o c s
      → Left d o c (put_line line buf size cookie d s)
  unfolding put_line perform opened closed
  put_line-Left line buf size cookie d o c s h = elim (Bool-cases (ltb (length line) size)) [
    | inl e ↦ rw e (inl (refl, h))
    | inr e ↦ rw e (inr ((λ f. absurd (ground (arith, f))), (h.0, ap (λ cs. stream d ∷ cs) h.1)))
  ]

  list_entry-Left :
      (path buf : Bytes) (size : ℕ) (b : Bool) (cookie : Option ℕ) (d : ℕ) (o c : List Handle)
      (s : Machine K)
      → Used o c s
      → Left d o c (list_entry path buf size b cookie d s)
  unfolding list_entry perform opened closed
  list_entry-Left path buf size b cookie d o c s h =
      let (a, t) = perform (Call.readdir d) s in
      let line = if b then c_str path ++ slash ∷ c_str a.bytes else c_str a.bytes in
      elim (Bool-cases (is_invalid a.ret)) [
        | inl e ↦ rw e (inr ((λ f. refl), (h.0, ap (λ cs. stream d ∷ cs) h.1)))
        | inr e ↦ rw e (put_line-Left line buf size cookie d o c t h)
      ]

  -- How the loop leaves the stream `d`, which was open: closed, or open after a failure.
  abbrev Ends : ℕ → List Handle → List Handle → ℤ × Machine K → Type 0
  Ends d o c (r, t) = Used o (stream d ∷ c) t ⊎ ((is_zero r ≡ false) × Used o c t)

  -- A round of the loop behind the call for the line.
  abbrev rest : ℕ → Bytes → Bool → Listed × Machine K → ℤ × Machine K
  rest f path b (l, s) =
      let (r, t) = nlst_line b l.buf s in
      let more = nlst_loop f path b l.buf l.cookie t in
      if is_zero l.retval
      then if is_zero r then elim l.cookie [ none ↦ (r, t) | some _ ↦ more ] else (r, t)
      else (l.retval, s)

  -- A line that was there, where the rounds that follow end well.
  open-Ends :
      (f : ℕ) (path buf : Bytes) (b : Bool) (d : ℕ) (o c : List Handle) (s : Machine K)
      → Used o c s
      → ((t : Machine K) → Used o c t → Ends d o c (nlst_loop f path b buf (some d) t))
      → Ends d o c (rest f path b (record { retval = success; buf = buf; cookie = some d }, s))
  open-Ends f path buf b d o c s h later =
      let (r, t) = nlst_line b buf s in
      let sent = nlst_line-Traffic (Used-Traffic o c) b buf s h in
      elim (Bool-cases (is_zero r)) [ inl e ↦ rw e (later t sent) | inr e ↦ rw e (inr (e, sent)) ]

  -- The stream was closed, after its last entry or for a line that is too long.
  closed-Ends :
      (f : ℕ) (path : Bytes) (b : Bool) (d : ℕ) (o c : List Handle) (l : Listed) (s : Machine K)
      → ((l.retval ≡ success) → (l.cookie ≡ none))
      → Used o (stream d ∷ c) s
      → Ends d o c (rest f path b (l, s))
  closed-Ends f path b d o c l s last h =
      let (r, t) = nlst_line b l.buf s in
      let sent = nlst_line-Traffic (Used-Traffic o (stream d ∷ c)) b l.buf s h in
      elim (Bool-cases (is_zero l.retval)) [
        | inl e ↦ rw e (
            rw (last (is_zero-success l.retval e))
              (elim (Bool-cases (is_zero r)) [ inl f ↦ rw f (inl sent) | inr f ↦ rw f (inl sent) ]))
        | inr e ↦ rw e (inl h)
      ]

  rest-Ends :
      (f : ℕ) (path : Bytes) (b : Bool) (d : ℕ) (o c : List Handle) (x : Listed × Machine K)
      → Left d o c x
      → ((buf : Bytes) (t : Machine K)
          → Used o c t
          → Ends d o c (nlst_loop f path b buf (some d) t))
      → Ends d o c (rest f path b x)
  rest-Ends f path b d o c (l, s) (inr left) later = closed-Ends f path b d o c l s left.0 left.1
  rest-Ends f path b d o c (l, s) (inl left) later =
      subst (λ x. Ends d o c (rest f path b (x, s))) (sym left.0)
        (open-Ends f path l.buf b d o c s left.1 (later l.buf))

  -- With a stream, and a path, the call is for its next entry.
  next_entry :
      (path buf : Bytes) (b : Bool) (d : ℕ) (s : Machine K)
      → (length path == 0) ≡ false
      → list_dir_per_line path buf path_len_max b (some d) s
        ≡ list_entry path buf path_len_max b (some d) d s
  unfolding list_dir_per_line open_stream
  next_entry path buf b d s some_path = rw some_path refl

  loop-Ends :
      (f : ℕ) (path buf : Bytes) (b : Bool) (d : ℕ) (o c : List Handle) (s : Machine K)
      → (length path == 0) ≡ false
      → Used o c s
      → Ends d o c (nlst_loop f path b buf (some d) s)
  unfolding nlst_loop
  loop-Ends zero path buf b d o c s some_path h = inr (refl, h)
  loop-Ends (suc f) path buf b d o c s some_path h =
      let left = list_entry-Left path buf path_len_max b (some d) d o c s h in
      subst (λ x. Ends d o c (rest f path b x)) (sym (next_entry path buf b d s some_path))
        (rest-Ends f path b d o c (list_entry path buf path_len_max b (some d) d s) left
          (λ buf' t. loop-Ends f path buf' b d o c t some_path))

  -- How the whole loop uses streams: it closes each that it opens, and no other, once, or it fails and
  -- closes none.
  abbrev Closes : Machine K → ℤ × Machine K → Type 0
  Closes s (r, t) =
      (hs : List Handle) × (opened t.log ≡ hs ++ opened s.log)
      × ((closed t.log ≡ hs ++ closed s.log)
          ⊎ ((is_zero r ≡ false) × (closed t.log ≡ closed s.log)))

  closes :
      (d : ℕ) (s : Machine K) (x : ℤ × Machine K)
      → Ends d (stream d ∷ opened s.log) (closed s.log) x
      → Closes s x
  closes d s x (inl h) = (stream d ∷ [], h.0, inl h.1)
  closes d s x (inr h) = (stream d ∷ [], h.1.0, inr (h.0, h.1.1))

  -- The first call, once `opendir` has answered.
  abbrev entry_of : ℤ → Bytes → Bool → Machine K → Listed × Machine K
  entry_of (pos d) path b t = list_entry path [] path_len_max b none d t
  entry_of (negsuc n) path b t = (record { retval = failure; buf = []; cookie = none }, t)

  stream_entry :
      (r : ℤ) (path : Bytes) (b : Bool) (t : Machine K)
      → elim (elim r as (λ _. Option ℕ) [ pos d ↦ some d | negsuc _ ↦ none ])
            as (λ _. Machine K → Listed × Machine K) [
              | none ↦ pure (record { retval = failure; buf = []; cookie = none })
              | some d ↦ list_entry path [] path_len_max b none d
            ]
          t
        ≡ entry_of r path b t
  stream_entry (pos d) path b t = refl
  stream_entry (negsuc n) path b t = refl

  first_entry :
      (path : Bytes) (b : Bool) (s : Machine K)
      → (length path == 0) ≡ false
      → let (r, t) = invoke (Call.opendir (c_str path)) s in
        list_dir_per_line path [] path_len_max b none s ≡ entry_of r path b t
  unfolding list_dir_per_line open_stream
  first_entry path b s some_path =
      let (r, t) = invoke (Call.opendir (c_str path)) s in rw some_path (stream_entry r path b t)

  entry_of-Closes :
      (f : ℕ) (path : Bytes) (b : Bool) (r : ℤ) (s t : Machine K)
      → (length path == 0) ≡ false
      → Used (stream_handle r ++ opened s.log) (closed s.log) t
      → Closes s (rest f path b (entry_of r path b t))
  entry_of-Closes f path b (pos d) s t some_path h =
      let o = stream d ∷ opened s.log in
      let x = list_entry path [] path_len_max b none d t in
      closes d s (rest f path b x) (
        rest-Ends f path b d o (closed s.log) x
          (list_entry-Left path [] path_len_max b none d o (closed s.log) t h)
          (λ buf u. loop-Ends f path buf b d o (closed s.log) u some_path))
  entry_of-Closes f path b (negsuc n) s t some_path h = ([], h.0, inl h.1)

  loop-Closes :
      (f : ℕ) (path : Bytes) (b : Bool) (s : Machine K) → Closes s (nlst_loop f path b [] none s)
  unfolding nlst_loop list_dir_per_line perform opened closed
  loop-Closes zero path b s = ([], refl, inl refl)
  loop-Closes (suc f) path b s =
      let (r, t) = invoke (Call.opendir (c_str path)) s in
      elim (Bool-cases (length path == 0)) [
        | inl e ↦ rw e ([], refl, inl refl)
        | inr e ↦
            subst (λ x. Closes s (rest f path b x)) (sym (first_entry path b s e))
              (entry_of-Closes f path b r s t e (refl, refl))
      ]

  -- Whatever the system calls answer, the loop of a listing closes each directory stream that it
  -- opens exactly once, or it fails and leaves open what it opened; it closes nothing else.
  pub nlst_all-closes :
      (path : Bytes) (b : Bool) (s : Machine K)
      → let (r, t) = nlst_all path b s in
        (hs : List Handle) × (opened t.log ≡ hs ++ opened s.log)
        × ((closed t.log ≡ hs ++ closed s.log)
            ⊎ ((is_zero r ≡ false) × (closed t.log ≡ closed s.log)))
  unfolding nlst_all
  nlst_all-closes path b s = loop-Closes (os.entries (c_str path) s.kernel + 2) path b s
