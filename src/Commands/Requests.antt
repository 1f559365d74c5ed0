-- ===== src/Commands/Requests.antt =====
-- Which handler `VSFTPCommandsParse` in src/common/vsftp_commands.c calls, and with which argument.
use mathlib.Core.List.{Memᴰ}
use vs_ftp.Common.{
  ℕ, suc, ◌+◌, ◌≡◌, refl, ap, ◌∙◌, subst, true, false, [], ◌∷◌, ◌++◌, append-nil, arith, drop,
  length, length-append, ltb, Option,
}
use vs_ftp.Libc.{Bytes}
use vs_ftp.Os.{Os}
use vs_ftp.Machine.{Machine}
use vs_ftp.Commands.{Entry, commands, argument, dispatch, run_entry, commands_parse}
use vs_ftp.Commands.Table.{find_iff}

drop_past : (s : Bytes) (c : ℕ) (t : Bytes) → drop (suc (length s)) (s ++ c ∷ t) ≡ t
drop_past [] c t = refl
drop_past (x ∷ s) c t = drop_past s c t

drop-append_behind : (s : Bytes) (c : ℕ) (t : Bytes) → drop (length s + 1) (s ++ c ∷ t) ≡ t
drop-append_behind s c t =
    let one : suc (length s) ≡ length s + 1 = omega arith in
    subst (λ n. drop n (s ++ c ∷ t) ≡ t) one (drop_past s c t)

argument-behind : (name : Bytes) (c : ℕ) (args : Bytes) → argument name (name ++ c ∷ args) ≡ args
unfolding argument
argument-behind name c args =
    let longer : ltb (length name) (length (name ++ c ∷ args)) ≡ true =
      ground (arith, length-append name (c ∷ args)) in
    rw longer (drop-append_behind name c args)

argument-none : (name : Bytes) → argument name name ≡ []
unfolding argument
argument-none name =
    let no_longer : ltb (length name) (length name) ≡ false = ground arith in rw no_longer refl

module _ {K : Type 0} ⦃os : Os K⦄ where
  parse-dispatch :
      (e : Entry) (rest args : Bytes) (s : Machine K)
      → Memᴰ e commands
      → argument e.name (e.name ++ rest) ≡ args
      → commands_parse (e.name ++ rest) s ≡ dispatch e.handle args s
  unfolding commands_parse run_entry
  parse-dispatch e rest args s m is =
      ap (λ (o : Option Entry). run_entry (e.name ++ rest) o s)
        ((find_iff e (e.name ++ rest)).1 (m, (rest, refl)))
      ∙ ap (λ (a : Bytes). dispatch e.handle a s) is

  -- A request runs the command that it names: the name of an entry of the table alone runs its
  -- handler without an argument, and the name, one more byte, whichever it is, and any text run it
  -- with that text.
  pub commands_parse-runs :
      (e : Entry) (c : ℕ) (args : Bytes) (s : Machine K)
      → Memᴰ e commands
      → (commands_parse e.name s ≡ dispatch e.handle [] s)
        × (commands_parse (e.name ++ c ∷ args) s ≡ dispatch e.handle args s)
  commands_parse-runs e c args s m =
      let whole = append-nil e.name in
      (
        subst (λ (b : Bytes). commands_parse b s ≡ dispatch e.handle [] s) whole
            (parse-dispatch e [] [] s m (rw whole (argument-none e.name))),
        parse-dispatch e (c ∷ args) args s m (argument-behind e.name c args),
      )
