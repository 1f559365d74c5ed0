-- ===== src/Commands/Shown.antt =====
-- How `CommandHandlerNlst` in src/common/vsftp_commands.c sends an entry of a directory.
use vs_ftp.Common.{
  subst, ◌==◌, ◌≡◌, true, some, sym, append_assoc, length-append, ◌+◌, ◌<◌, refl, ◌∙◌, ap, false,
  ◌∷◌, ◌++◌, arith, length,
}
use vs_ftp.Libc.{Bytes, c_str}
use vs_ftp.Os.{Os}
use vs_ftp.Filesystem.{path_len_max}
use vs_ftp.Commands.Streams.{FitsLine, Printable}
use vs_ftp.Machine.{Machine}
use vs_ftp.Filesystem.{slash}
use vs_ftp.Filesystem.Resolved.{NoNul, c_str_self, c_str-NoNul, strncpy_self}
use vs_ftp.Server.Paths.{reads_behind, real_path_to_server_path}
use vs_ftp.Server.Paths.RoundTrip.{NoNul-behind}
use vs_ftp.Server.Paths.Relative.{NoNul-append}
use vs_ftp.Server.Paths.Views.{reads_behind-append, real_path_to_server_path-behind}
use vs_ftp.Commands.Handlers.{nlst_line, nlst_server_line}

-- Every entry that fits is sent as it is, if there is no argument.
pub plain_entry :
    {K : Type 0} {os : Os K} (path root n : Bytes)
    → FitsLine (c_str n)
    → Printable os false path root n (c_str n)
unfolding nlst_line
plain_entry path root n fits = record {
  holds = omega (arith, fits.1);
  short = fits;
  sends = λ s h. refl;
}

-- With an argument the client sees an entry behind the directory as the client sees that.
abbrev pub entry_path : Bytes → Bytes → Bytes
entry_path sub n = slash ∷ sub ++ slash ∷ c_str n

-- The conversion of a line that stays in front of its terminator.
inside_line :
    {K : Type 0} ⦃os : Os K⦄ (buf : Bytes) (s : Machine K)
    → 0 < length buf
    → reads_behind s.server_data.root_path buf 0 path_len_max ≡ false
    → nlst_line true buf s
      ≡ nlst_server_line (real_path_to_server_path s.server_data buf path_len_max) s
unfolding nlst_line
inside_line buf s some_bytes inside =
    let stored : (length buf == 0) ≡ false = ground arith in rw (stored, inside) refl

pub shown_entry :
    {K : Type 0} {os : Os K} (root sub n : Bytes)
    → NoNul (root ++ slash ∷ sub)
    → length root + length (entry_path sub n) + 2 < path_len_max
    → Printable os true (root ++ slash ∷ sub) root n (entry_path sub n)
unfolding nlst_line nlst_server_line
shown_entry {os} root sub n no_nul fits =
    let path = root ++ slash ∷ sub in
    let line = entry_path sub n in
    let whole : c_str path ++ slash ∷ c_str n ≡ root ++ line =
      ap (λ b. b ++ slash ∷ c_str n) (c_str_self path no_nul)
      ∙ append_assoc root (slash ∷ sub) (slash ∷ c_str n) in
    let size = length-append root line in
    let behind : NoNul line =
      NoNul-append (slash ∷ sub) (slash ∷ c_str n) (NoNul-behind root (slash ∷ sub) no_nul)
        (omega arith, c_str-NoNul n) in
    record {
      holds = omega (arith, ap length whole, size);
      short = (omega arith, omega (arith, size));
      sends = λ s h.
          inside_line ⦃os = os⦄ (c_str path ++ slash ∷ c_str n) s
            (omega (arith, ap length whole, size))
            (subst (λ r. reads_behind r (c_str path ++ slash ∷ c_str n) 0 path_len_max ≡ false)
              (sym h)
              (subst (λ b. reads_behind root b 0 path_len_max ≡ false) (sym whole)
                (reads_behind-append root slash (sub ++ slash ∷ c_str n) path_len_max
                  (omega arith))))
          ∙ ap (λ o. nlst_server_line ⦃os = os⦄ o s)
              (ap (λ b. real_path_to_server_path s.server_data b path_len_max)
                  (whole ∙ ap (λ b. b ++ line) (sym h))
                ∙ (real_path_to_server_path-behind s.server_data slash (sub ++ slash ∷ c_str n)
                    path_len_max (omega arith) (omega (arith, ap length h)))
                ∙ ap some (strncpy_self line path_len_max behind (omega (arith, size))));
    }
