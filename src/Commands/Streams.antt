-- ===== src/Commands/Streams.antt =====
-- What one round of the loop of `CommandHandlerNlst` in src/common/vsftp_commands.c does.
use vs_ftp.Common.{
  ℕ, Bool, Option, ap, if◌then◌else◌, ◌+◌, ◌<◌, ◌≡◌, refl, ◌∙◌, ℤ, pos, success, failure, true,
  false, none, some, List, [], ◌∷◌, ◌++◌, arith, ltb, leb, ◌==◌, ◌||◌, length,
}
use vs_ftp.Libc.{Bytes, c_str, crlf}
use vs_ftp.Os.{Call, Os}
use vs_ftp.Machine.{Server, Machine, M, pure, perform}
use vs_ftp.Filesystem.{
  path_len_max, slash, Listed, list_dir_per_line, list_entry, put_line, open_stream,
}
use vs_ftp.Server.Reply.{append_crlf, send, send_own_buf, send_reply_own_buf_transfer}
use vs_ftp.Server.Reply.Answers.{sent_bytes}
use vs_ftp.Commands.Handlers.{nlst_line}

-- An environment in which `names` are the entries that the directory stream `d` has still to give, or
-- will give once it is open, and `received` the lines that a peer has got on the socket `sock`, which takes all that is written.
pub record Streams {K : Type 0} (os : Os K) (d : ℕ) (sock : ℤ) (names received : K → List Bytes)
    : Type 0 where
  pub entry :
      (n : Bytes) (ns : List Bytes) (k : K)
      → names k ≡ n ∷ ns
      → let (a, l) = os.answer (Call.readdir d) k in
        (a.ret ≡ success) × (a.bytes ≡ n) × (names l ≡ ns) × (received l ≡ received k)
  pub ended :
      (k : K)
      → names k ≡ []
      → let (a, l) = os.answer (Call.readdir d) k in (a.ret ≡ failure) × (received l ≡ received k)
  pub opens :
      (p : Bytes) (k : K)
      → let (a, l) = os.answer (Call.opendir p) k in
        (a.ret ≡ pos d) × (names l ≡ names k) × (received l ≡ received k)
  pub counted : (p : Bytes) (k : K) → os.entries p k ≡ length (names k)
  pub closes : (k : K) → received (os.answer (Call.closedir d) k).1 ≡ received k
  pub writes :
      (b : Bytes) (k : K)
      → let (a, l) = os.answer (Call.write sock b) k in
        (a.ret ≡ pos (length b)) × (names l ≡ names k) × (received l ≡ received k ++ b ∷ [])

-- A line that the buffer of the listing holds together with its line end.
abbrev pub FitsLine : Bytes → Type 0
FitsLine b = (0 < length b) × (length b + 2 < path_len_max)

ltb-true : {m n : ℕ} → m < n → ltb m n ≡ true
ltb-true h = ground arith

-- What the buffer of the listing holds for an entry.
abbrev pub buffered : Bool → Bytes → Bytes → Bytes
buffered prepend_dir path n = if prepend_dir then c_str path ++ slash ∷ c_str n else c_str n

-- The entry `n` of the directory `path` is sent as `line` while the root path is `root`.
pub record Printable {K : Type 0} (os : Os K) (prepend_dir : Bool) (path root n line : Bytes)
    : Type 0 where
  pub holds : length (buffered prepend_dir path n) < path_len_max
  pub short : FitsLine line
  pub sends :
      (s : Machine K)
      → s.server_data.root_path ≡ root
      → nlst_line ⦃os = os⦄ prepend_dir (buffered prepend_dir path n) s
        ≡ send_reply_own_buf_transfer ⦃os = os⦄ line path_len_max s

-- The peer is on the socket, and the root path is this.
abbrev pub IsReady : ℤ → Bytes → Server → Type 0
IsReady sock root d = (d.transfer_client_sock ≡ sock) × (d.root_path ≡ root)

module _ {K : Type 0} ⦃os : Os K⦄ {d : ℕ} {sock : ℤ} {names received : K → List Bytes}
    (streams : Streams os d sock names received) where
  own_buf-sent :
      (b : Bytes) (s : Machine K)
      → s.server_data.transfer_client_sock ≡ sock
      → FitsLine b
      → let (r, t) = send_reply_own_buf_transfer b path_len_max s in
        (r ≡ success)
        × (names t.kernel ≡ names s.kernel)
        × (received t.kernel ≡ received s.kernel ++ (b ++ crlf) ∷ [])
        × (t.server_data ≡ s.server_data)
  unfolding send_reply_own_buf_transfer send_own_buf append_crlf send perform
  own_buf-sent b s there fits =
      let w = streams.writes (b ++ crlf) s.kernel in
      let some_bytes : ((path_len_max == 0) || (length b == 0)) ≡ false = ground arith in
      let holds : leb (length b + 2) path_len_max ≡ true = ground arith in
      let inside : leb (length b) path_len_max ≡ true = ground arith in
      rw there (
        rw some_bytes (
          rw inside
            (rw holds (rw (sent_bytes path_len_max b fits.1) (rw w.0 (refl, w.1, w.2, refl))))))

  module _ (prepend_dir : Bool) (path root : Bytes) where
    pub line-sent :
        (n line : Bytes) (s : Machine K)
        → IsReady sock root s.server_data
        → Printable os prepend_dir path root n line
        → let (r, t) = nlst_line prepend_dir (buffered prepend_dir path n) s in
          (r ≡ success)
          × (names t.kernel ≡ names s.kernel)
          × (received t.kernel ≡ received s.kernel ++ (line ++ crlf) ∷ [])
          × (t.server_data ≡ s.server_data)
    line-sent n line s ready prints =
        rw (prints.sends s ready.1) (own_buf-sent line s ready.0 prints.short)

    -- The call that reads an entry puts it in the buffer.
    pub entry-listed :
        (buf n line : Bytes) (ns : List Bytes) (s : Machine K)
        → 0 < length path
        → names s.kernel ≡ n ∷ ns
        → Printable os prepend_dir path root n line
        → let (l, t) = list_dir_per_line path buf path_len_max prepend_dir (some d) s in
          (l ≡ record { retval = success; buf = buffered prepend_dir path n; cookie = some d })
          × (names t.kernel ≡ ns)
          × (received t.kernel ≡ received s.kernel)
          × (t.server_data ≡ s.server_data)
    unfolding list_dir_per_line list_entry put_line open_stream perform
    entry-listed buf n line ns s set there prints =
        let e = streams.entry n ns s.kernel there in
        let given : ((length path == 0) || (path_len_max == 0)) ≡ false = ground arith in
        let fits : length (buffered prepend_dir path n) < path_len_max = prints.holds in
        let holds : ltb (length (buffered prepend_dir path n)) path_len_max ≡ true =
          ltb-true fits in
        rw given (rw e.0 (rw e.1 (rw holds (refl, e.2, e.3, refl))))

    -- The call that finds the end leaves the buffer, and closes the stream.
    pub end-listed :
        (buf : Bytes) (s : Machine K)
        → 0 < length path
        → names s.kernel ≡ []
        → let (l, t) = list_dir_per_line path buf path_len_max prepend_dir (some d) s in
          (l ≡ record { retval = success; buf = buf; cookie = none })
          × (received t.kernel ≡ received s.kernel)
          × (t.server_data ≡ s.server_data)
    unfolding list_dir_per_line list_entry open_stream perform
    end-listed buf s set there =
        let e = streams.ended s.kernel there in
        let c = streams.closes (os.answer (Call.readdir d) s.kernel).1 in
        let given : ((length path == 0) || (path_len_max == 0)) ≡ false = ground arith in
        rw given (rw e.0 (refl, c ∙ e.1, refl))

    -- What the call does once it has tried to open the stream.
    abbrev with_stream : Option ℕ → M K Listed
    with_stream stream = elim stream [
      | none ↦ pure (record { retval = failure; buf = []; cookie = none })
      | some c ↦ list_entry path [] path_len_max prepend_dir none c
    ]

    stream-opened :
        (s : Machine K)
        → let (o, t) = open_stream path none s in
          (o ≡ some d)
          × (names t.kernel ≡ names s.kernel)
          × (received t.kernel ≡ received s.kernel)
          × (t.server_data ≡ s.server_data)
    unfolding open_stream perform
    stream-opened s =
        let o = streams.opens (c_str path) s.kernel in (ground (arith, o.0), o.1, o.2, refl)

    opened-entry :
        (s : Machine K)
        → 0 < length path
        → list_dir_per_line path [] path_len_max prepend_dir none s
          ≡ list_entry path [] path_len_max prepend_dir none d (open_stream path none s).1
    unfolding list_dir_per_line
    opened-entry s set =
        let given : ((length path == 0) || (path_len_max == 0)) ≡ false = ground arith in
        let t = (open_stream path none s).1 in
        rw given (ap (λ (o : Option ℕ). with_stream o t) (stream-opened s).0)

    -- The first call opens the stream and reads an entry from it.
    pub first-listed :
        (n line : Bytes) (ns : List Bytes) (s : Machine K)
        → 0 < length path
        → names s.kernel ≡ n ∷ ns
        → Printable os prepend_dir path root n line
        → let (l, t) = list_dir_per_line path [] path_len_max prepend_dir none s in
          (l ≡ record { retval = success; buf = buffered prepend_dir path n; cookie = some d })
          × (names t.kernel ≡ ns)
          × (received t.kernel ≡ received s.kernel)
          × (t.server_data ≡ s.server_data)
    unfolding list_entry put_line perform
    first-listed n line ns s set there prints =
        let o = stream-opened s in
        let e = streams.entry n ns (open_stream path none s).1.kernel (o.1 ∙ there) in
        let holds : ltb (length (buffered prepend_dir path n)) path_len_max ≡ true =
          ltb-true prints.holds in
        rw (opened-entry s set) (rw e.0 (rw e.1 (rw holds (refl, e.2, e.3 ∙ o.2, o.3))))
