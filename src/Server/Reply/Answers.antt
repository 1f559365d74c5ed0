-- ===== src/Server/Reply/Answers.antt =====
-- When the functions of src/common/vsftp_server.c that send a reply do write one to the client.
use vs_ftp.Common.{
  ℕ, ◌+◌, ◌-◌, ◌<◌, ◌≡◌, refl, sym, subst, failure, ℤ, Bool, true, false, Option, none, some, List,
  [], ◌∷◌, ◌++◌, append_assoc, arith, leb, ltb, ◌==◌, ◌||◌, ◌&&◌, has_prefix, if◌then◌else◌, length,
  take, take_all, suc, ap,
}
use vs_ftp.Libc.{Bytes, crlf}
use vs_ftp.Libc.Format.{Arg, room, expand, expand-length, IsPlain, expand-IsPlain}
use vs_ftp.Os.{Call, Answer, Os}
use vs_ftp.Machine.{Event, did, Machine, M, perform, fault, bad_format, pure, ◌>>◌}
use vs_ftp.Machine.Keeps.{Frame}
use vs_ftp.Filesystem.{path_len_max}
use vs_ftp.Server.Reply.{
  response_len_max, append_crlf, send, send_line, send_reply, send_own_buf, send_reply_own_buf,
}

take-length-append : (b t : Bytes) (n : ℕ) → take (length b + n) (b ++ t) ≡ b ++ take n t
take-length-append [] t n =
    let none_of_them : length {A = ℕ} [] + n ≡ n = omega arith in rw none_of_them refl
take-length-append (c ∷ b) t n =
    let one_more : length (c ∷ b) + n ≡ suc (length b + n) = omega arith in
    rw one_more (ap (λ r. c ∷ r) (take-length-append b t n))

-- What is sent of a line: the line and its line end.
pub sent_bytes :
    (size : ℕ) (b : Bytes)
    → length b + 2 < size
    → take (length b + 2) (b ++ take (size - length b - 1) crlf ++ 0 ∷ []) ≡ b ++ crlf
sent_bytes size b fits =
    rw (take_all (size - length b - 1) crlf (omega arith))
      (rw (append_assoc b crlf (0 ∷ [])) (take-length-append b (crlf ++ 0 ∷ []) 2))

-- The log goes on from what it was.
abbrev pub Extends : List Event → List Event → Type 0
Extends base l = (e : List Event) × (l ≡ e ++ base)

-- Whether a text begins with one of these codes.
abbrev pub has_code : List Bytes → Bytes → Bool
has_code [] text = false
has_code (code ∷ allowed) text = has_prefix code text || has_code allowed text

-- The log goes on from what it was, and among the new entries is the write on the socket of a line
-- that begins with one of the codes.
pub record Replied (allowed : List Bytes) (sock : ℤ) (base l : List Event) : Type 0 where
  pub text : Bytes
  pub coded : has_code allowed text ≡ true
  pub answer : Answer
  pub before : List Event
  pub after : List Event
  pub splits : l ≡ after ++ did (Call.write sock (text ++ crlf)) answer ∷ before ++ base

pub Extends-cons : (v : Event) (base l : List Event) → Extends base l → Extends base (v ∷ l)
Extends-cons v base l (e, p) = (v ∷ e, ap (λ (m : List Event). v ∷ m) p)

Replied-cons :
    (v : Event) (allowed : List Bytes) (sock : ℤ) (base l : List Event)
    → Replied allowed sock base l
    → Replied allowed sock base (v ∷ l)
Replied-cons v allowed sock base l r = record {
  text = r.text;
  coded = r.coded;
  answer = r.answer;
  before = r.before;
  after = v ∷ r.after;
  splits = ap (λ (m : List Event). v ∷ m) r.splits;
}

-- Whether a text is a reply by itself: it has no `%`, fits, and begins with one of the codes.
abbrev pub plain_text : Bytes → Bool
plain_text [] = true
plain_text (c ∷ text) = if c == b'%' then false else plain_text text

abbrev pub is_reply : List Bytes → Bytes → Bool
is_reply allowed text =
    plain_text text && ltb (length text + 2) response_len_max && has_code allowed text

plain_text-IsPlain : (text : Bytes) → plain_text text ≡ true → IsPlain text
plain_text-IsPlain [] h = tt
plain_text-IsPlain (c ∷ text) h = ground (arith, plain_text-IsPlain text)

module _ {K : Type 0} ⦃os : Os K⦄ where
  -- While a handler prepares its reply.
  abbrev pub Pending : ℤ → List Event → Machine K → Type 0
  Pending sock base s = (s.server_data.client_sock ≡ sock) × Extends base s.log

  pub preparing_frame : (sock : ℤ) (base : List Event) → Frame (Pending sock base)
  unfolding perform
  preparing_frame sock base = record {
    call = λ c e s h. (h.0, Extends-cons _ base s.log h.1);
    undefined = λ f s h r. (h.0, Extends-cons _ base s.log h.1);
  }

  pub answered_frame :
      (allowed : List Bytes) (sock : ℤ) (base : List Event)
      → Frame (λ (s : Machine K). Replied allowed sock base s.log)
  unfolding perform
  answered_frame allowed sock base = record {
    call = λ c e s h. Replied-cons _ allowed sock base s.log h;
    undefined = λ f s h r. Replied-cons _ allowed sock base s.log h;
  }

  send-Replied :
      (allowed : List Bytes) (sock : ℤ) (base : List Event) (text : Bytes) (s : Machine K)
      → Extends base s.log
      → has_code allowed text ≡ true
      → Replied allowed sock base (send sock (text ++ crlf) s).1.log
  unfolding send perform
  send-Replied allowed sock base text s (e, p) coded =
      let a = (os.answer (Call.write sock (text ++ crlf)) s.kernel).0 in
      record {
        text = text;
        coded = coded;
        answer = a;
        before = e;
        after = [];
        splits = ap (λ (m : List Event). did (Call.write sock (text ++ crlf)) a ∷ m) p;
      }

  pub send_line-Replied :
      (allowed : List Bytes) (sock : ℤ) (base : List Event) (text : Bytes) (s : Machine K)
      → Pending sock base s
      → length text + 2 < response_len_max
      → has_code allowed text ≡ true
      → Replied allowed sock base (send_line text s).1.log
  unfolding send_line append_crlf
  send_line-Replied allowed sock base text s h fits coded =
      let small : leb response_len_max (length text) ≡ false = ground arith in
      let inside : leb (length text) response_len_max ≡ true = ground arith in
      let both : leb response_len_max (length text + 2) ≡ false = ground arith in
      subst (λ c. Replied allowed c base (send_line text s).1.log) h.0
        (rw small (
          rw inside
            (rw both (send-Replied allowed s.server_data.client_sock base text s h.1 coded))))

  -- What `VSFTPServerSendReply` does once `vsnprintf` has been tried.
  abbrev pub reply_of : Bytes → Option Bytes → M K ℤ
  reply_of format expanded = elim expanded [
    | none ↦ fault (bad_format format) >> pure failure
    | some text ↦ send_line text
  ]

  -- A format with arguments that are short enough is sent.
  pub send_reply-Replied :
      (allowed : List Bytes) (sock : ℤ) (base : List Event) (format : Bytes) (args : List Arg)
      (text : Bytes) (s : Machine K)
      → Pending sock base s
      → expand format args ≡ some text
      → length format + room args + 2 < response_len_max
      → has_code allowed text ≡ true
      → Replied allowed sock base (send_reply format args s).1.log
  unfolding send_reply
  send_reply-Replied allowed sock base format args text s h e fits coded =
      subst (λ o. Replied allowed sock base (reply_of format o s).1.log) (sym e)
        (send_line-Replied allowed sock base text s h
          (omega (arith, expand-length format args text e)) coded)

  pub plain-Replied :
      (allowed : List Bytes) (sock : ℤ) (base : List Event) (text : Bytes) (s : Machine K)
      → Pending sock base s
      → is_reply allowed text ≡ true
      → Replied allowed sock base (send_reply text [] s).1.log
  plain-Replied allowed sock base text s h ok =
      send_reply-Replied allowed sock base text [] text s h
        (expand-IsPlain text [] (plain_text-IsPlain text (ground (arith, ok)))) (ground (arith, ok))
        (ground (arith, ok))

  -- A buffer with room for its line end is sent.
  pub send_reply_own_buf-Replied :
      (allowed : List Bytes) (sock : ℤ) (base : List Event) (buf : Bytes) (s : Machine K)
      → Pending sock base s
      → 0 < length buf
      → length buf + 2 < path_len_max
      → has_code allowed buf ≡ true
      → Replied allowed sock base (send_reply_own_buf buf path_len_max s).1.log
  unfolding send_reply_own_buf send_own_buf append_crlf
  send_reply_own_buf-Replied allowed sock base buf s h some_bytes fits coded =
      let given : ((path_len_max == 0) || (length buf == 0)) ≡ false = ground arith in
      let holds : leb (length buf + 2) path_len_max ≡ true = ground arith in
      let inside : leb (length buf) path_len_max ≡ true = ground arith in
      subst (λ c. Replied allowed c base (send_reply_own_buf buf path_len_max s).1.log) h.0
        (rw given (
          rw inside (
            rw holds (
              rw (sent_bytes path_len_max buf (omega arith))
                (send-Replied allowed s.server_data.client_sock base buf s h.1 coded)))))
