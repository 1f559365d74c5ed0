-- ===== src/Commands/Replies/Pieces.antt =====
-- The pieces of the replies of src/common/vsftp_commands.c: their lengths, and the choice of one.
use vs_ftp.Common.{
  ℕ, zero, suc, ◌+◌, ◌≤◌, ◌≡◌, refl, ℤ, Bool, true, false, List, [], ◌∷◌, arith, length, drop,
  length-take, if◌then◌else◌,
}
use vs_ftp.Libc.{Bytes, c_str, strncpy}
use vs_ftp.Os.{Os}
use vs_ftp.Machine.{Event, Machine, M, perform}
use vs_ftp.Filesystem.{path_len_max}
use vs_ftp.Server.Reply.{send_reply}
use vs_ftp.Server.Reply.Answers.{
  Extends-cons, Replied, Pending, preparing_frame, plain-Replied, is_reply,
}
use vs_ftp.Server.Paths.{behind_root}
use vs_ftp.Server.Transfer.{set_transfer_mode}
use vs_ftp.Commands.Handlers.{to_commas}
use vs_ftp.Commands.Keeps.{HandlerFrame}

pub length-strncpy : (s : Bytes) (n : ℕ) → length (strncpy s n) ≤ n
unfolding strncpy
length-strncpy s n = omega (arith, length-take n (c_str s))

pub length-to_commas : (s : Bytes) → length (to_commas s) ≡ length s
unfolding to_commas
length-to_commas [] = refl
length-to_commas (c ∷ s) = omega (arith, length-to_commas s)

pub length-behind_root :
    (root path : Bytes) (i n : ℕ) → length (behind_root root path i n) ≤ path_len_max
unfolding behind_root
length-behind_root root path i zero = omega arith
length-behind_root root path i (suc n) =
    ground
      (arith, length-behind_root root path (i + 1) n, length-strncpy (drop i path) path_len_max)

module _ {K : Type 0} ⦃os : Os K⦄ (sock : ℤ) (base : List Event) where
  pub preparing_handlers : HandlerFrame (Pending {K = K} sock base)
  unfolding set_transfer_mode perform
  preparing_handlers = record {
    transfers = record {
      frame = preparing_frame sock base;
      address = λ a s h. h;
      listening = λ x s h. h;
      accepted = λ x s h. h;
    };
    cwd = record { frame = preparing_frame sock base; stored = λ path s h is ok. h };
    mode = λ b s h. h;
    listed = λ path s h l. (h.0, Extends-cons _ base s.log h.1);
  }

module _ {K : Type 0} ⦃os : Os K⦄ (allowed : List Bytes) (sock : ℤ) (base : List Event) where
  -- One of two texts is the reply.
  pub either-Replied :
      (b : Bool) (text other : Bytes) (s : Machine K)
      → Pending sock base s
      → is_reply allowed text ≡ true
      → is_reply allowed other ≡ true
      → Replied allowed sock base ((if b then send_reply text [] else send_reply other []) s).1.log
  either-Replied true text other s h p q = plain-Replied allowed sock base text s h p
  either-Replied false text other s h p q = plain-Replied allowed sock base other s h q

  pub if-Replied :
      (b : Bool) (m k : M K ℤ) (s : Machine K)
      → Replied allowed sock base (m s).1.log
      → Replied allowed sock base (k s).1.log
      → Replied allowed sock base ((if b then m else k) s).1.log
  if-Replied true m k s hm hk = hm
  if-Replied false m k s hm hk = hk
