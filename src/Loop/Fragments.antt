-- ===== src/Loop/Fragments.antt =====
-- A request that `HandleConnection` in src/common/vsftp_server.c gets in two pieces.
use vs_ftp.Common.{
  ◌+◌, ◌-◌, ◌<◌, ◌≡◌, ◌≢◌, ◌⊎◌, refl, sym, ap, subst, ◌∙◌, ℕ, zero, suc, is_invalid, success,
  Bool-cases, inl, inr, true, false, [], ◌∷◌, ◌++◌, arith, ltb, ◌==◌, ◌&&◌, length, length-drop,
  take, drop, if◌then◌else◌,
}
use vs_ftp.Libc.{Bytes, crlf, strncmp_eq}
use vs_ftp.Os.{Call, Os}
use vs_ftp.Machine.{Server, Machine, perform}
use vs_ftp.Server.Sockets.Closing.{stopped}
use vs_ftp.Loop.{request_len_max, handle_request, handler}
use vs_ftp.Loop.Errors.{stopped_unless_blocked, handler-incomplete}
use vs_ftp.Loop.Request.{handler-line}

take-drop : (n : ℕ) (b : Bytes) → take n b ++ drop n b ≡ b
take-drop zero b = refl
take-drop (suc n) [] = refl
take-drop (suc n) (c ∷ b) = ap (λ r. c ∷ r) (take-drop n b)

two_bytes : (c : Bytes) → length c ≡ 2 → strncmp_eq c crlf 2 ≡ true → c ≡ crlf
unfolding strncmp_eq
two_bytes [] h e = absurd (omega arith)
two_bytes (c ∷ []) h e = absurd (omega arith)
two_bytes (c ∷ d ∷ []) h e =
    let first : c ≡ 13 = ground (arith, e) in
    let second : d ≡ 10 = ground (arith, e) in rw (first, second) refl
two_bytes (c ∷ d ∷ x ∷ r) h e = absurd (omega arith)

-- What the code takes for a request ends in a line end.
ends_line :
    (b : Bytes)
    → (ltb 2 (length b) && strncmp_eq (drop (length b - 2) b) crlf 2) ≡ true
    → b ≡ take (length b - 2) b ++ crlf
ends_line b h =
    let long : ltb 2 (length b) ≡ true = ground (arith, h) in
    let same : strncmp_eq (drop (length b - 2) b) crlf 2 ≡ true = ground (arith, h) in
    let two : length (drop (length b - 2) b) ≡ 2 =
      ground (arith, length-drop (length b - 2) b, long) in
    sym (take-drop (length b - 2) b) ∙ ap (λ r. take (length b - 2) b ++ r) (two_bytes _ two same)

-- Without a line end at its end, it is none.
no_line :
    (b : Bytes)
    → ((text : Bytes) → b ≢ text ++ crlf)
    → (ltb 2 (length b) && strncmp_eq (drop (length b - 2) b) crlf 2) ≡ false
no_line b h = elim (Bool-cases (ltb 2 (length b) && strncmp_eq (drop (length b - 2) b) crlf 2)) [
  | inl e ↦ absurd (h (take (length b - 2) b) (ends_line b e))
  | inr e ↦ e
]

-- The data are the same if `errno` is 11, which is both EAGAIN and EWOULDBLOCK, and else the server
-- is stopped.
pub blocked_or_stopped :
    (e : ℕ) (d x : Server)
    → x ≡ stopped_unless_blocked e d
    → ((e ≡ 11) × (x ≡ d)) ⊎ ((e ≢ 11) × (x ≡ stopped d))
blocked_or_stopped e d x h = elim (Bool-cases (e == 11)) [
  | inl b ↦ inl (ground (arith, b), h ∙ ap (λ c. if c then d else stopped d) b)
  | inr b ↦ inr ((λ is. absurd (ground (arith, b, is))), h ∙ ap (λ c. if c then d else stopped d) b)
]

module _ {K : Type 0} ⦃os : Os K⦄ where
  pub handler-fragments :
      (text : Bytes) (s : Machine K)
      → s.server_data.is_server_socket_created ≡ true
      → s.server_data.is_connected ≡ true
      → let client = s.server_data.client_sock in
        let a = (os.answer (Call.read client request_len_max) s.kernel).0 in
        let (r, t) = handler s in
        let (b, u) = perform (Call.read client request_len_max) t in
        is_invalid a.ret ≡ false
        → 0 < length a.bytes
        → ((line : Bytes) → a.bytes ≢ line ++ crlf)
        → 0 < length text
        → length text + 2 < request_len_max
        → is_invalid b.ret ≡ false
        → b.bytes ≡ text ++ crlf
        → (r ≡ success)
          × (((a.errno ≡ 11)
                × (t.server_data ≡ s.server_data)
                × (handler t ≡ handle_request text u))
              ⊎ ((a.errno ≢ 11) × (t.server_data ≡ stopped s.server_data)))
  handler-fragments text s created connected read some_bytes unended some_text fits read' is =
      let client = s.server_data.client_sock in
      let a = (os.answer (Call.read client request_len_max) s.kernel).0 in
      let t = (handler s).1 in
      let h = handler-incomplete s created connected read some_bytes (no_line a.bytes unended) in
      elim (blocked_or_stopped a.errno s.server_data t.server_data h.1) [
        | inl k ↦ (h.0, inl (k.0, k.1, rest k.1))
        | inr k ↦ (h.0, inr k)
      ]
    where
      rest :
          (handler s).1.server_data ≡ s.server_data
          → handler (handler s).1
            ≡ handle_request text
                (perform (Call.read s.server_data.client_sock request_len_max) (handler s).1).1
      rest same =
          let t = (handler s).1 in
          let at = ap (λ (d : Server). d.client_sock) same in
          subst
            (λ x.
              is_invalid (perform (Call.read x request_len_max) t).0.ret ≡ false
              → (perform (Call.read x request_len_max) t).0.bytes ≡ text ++ crlf
              → handler t ≡ handle_request text (perform (Call.read x request_len_max) t).1)
            at
            (handler-line text t (ap (λ (d : Server). d.is_server_socket_created) same ∙ created)
              (ap (λ (d : Server). d.is_connected) same ∙ connected) some_text fits)
            read' is
