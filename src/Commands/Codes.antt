-- ===== src/Commands/Codes.antt =====
-- The replies of src/common/vsftp_commands.c as a client can rely on them.
use vs_ftp.Common.{Option, none, some, List, [], ◌∷◌}
use vs_ftp.Libc.{Bytes, codes}
use vs_ftp.Commands.{
  Command, user, syst, pasv, nlst, pwd, cwd, retr, size, type, help, quit, Entry, commands, find,
}

-- The codes of the replies that end a command, after RFC 959 and RFC 3659. Not in the lists of those
-- documents are 425 for PASV, 550 for NLST, 551 for RETR and 451 for SIZE.
abbrev pub reply_codes : Command → List Bytes
reply_codes user = codes "230 " ∷ codes "530 " ∷ []
reply_codes syst = codes "215 " ∷ []
reply_codes pasv = codes "227 " ∷ codes "425 " ∷ []
reply_codes nlst = codes "226 " ∷ codes "550 " ∷ []
reply_codes pwd = codes "257 " ∷ codes "550 " ∷ []
reply_codes cwd = codes "250 " ∷ codes "550 " ∷ []
reply_codes retr = codes "226 " ∷ codes "551 " ∷ codes "451 " ∷ []
reply_codes size = codes "213 " ∷ codes "550 " ∷ codes "451 " ∷ []
reply_codes type = codes "200 " ∷ codes "504 " ∷ []
reply_codes help = codes "214-" ∷ []
reply_codes quit = codes "221 " ∷ []

-- The same for what the table has found; another request is refused.
abbrev pub codes_of : Option Entry → List Bytes
codes_of none = codes "502 " ∷ []
codes_of (some e) = reply_codes e.handle

-- The codes that can end the answer to a request.
abbrev pub answer_codes : Bytes → List Bytes
answer_codes buffer = codes_of (find commands buffer)
