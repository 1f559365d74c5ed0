-- ===== src/Tests/Witnesses.antt =====
-- The theorems at concrete inputs.
use vs_ftp.Common.{
  ◌≡◌, refl, ◌≢◌, ◌↔◌, ◌≤◌, pos, success, failure, Bool, true, false, some, List, [], ◌∷◌, ◌++◌,
  arith, All, length, has_prefix,
}
use vs_ftp.Libc.{Bytes, codes, crlf, strncpy}
use vs_ftp.Libc.Decimal.{IsDigit, value, decimal}
use vs_ftp.Machine.{Server, Machine, zeroed}
use vs_ftp.Filesystem.{path_len_max, slash, is_abs_path}
use vs_ftp.Server.Invariant.{WellFormed}
use vs_ftp.Server.Paths.{abs_path_is_not_above_root_path, reads_behind, real_path_to_server_path}
use vs_ftp.Server.Paths.Prefix.{not_above_iff_prefix}
use vs_ftp.Server.Paths.Views.{real_path_to_server_path-below_root}
use vs_ftp.Server.Transfer.{send_loop}
use vs_ftp.Server.Transfer.Rounds.{send_loop-enough}
use vs_ftp.Server.Transfer.Account.{Accounted, send_loop-Accounted}
use vs_ftp.Commands.Handlers.{command_nlst, command_retr, locate}
use vs_ftp.Commands.Transfers.{NoTransfer, transfers-NoTransfer}
use vs_ftp.Commands.Unconfined.{rooted, locate-rooted}
use vs_ftp.Port.{is_decimal, parse_decimal}
use vs_ftp.Port.Accepts.{is_decimal_iff}
use vs_ftp.Port.Parses.{parse_decimal-accepted, parse_decimal-decimal}
use vs_ftp.Main.{main}
use vs_ftp.Main.Invariant.{main-WellFormed}
use vs_ftp.Main.Listing.{ListsBelow, main-ListsBelow}
use vs_ftp.Tests.Folder.{folder}
use vs_ftp.Tests.Wire.{wire}
use vs_ftp.Tests.World.{World, world, booted}
use vs_ftp.Tests.World.Promises.{world-PlainPaths, world-Honest}

abbrev arguments : List Bytes
arguments = codes "127.0.0.1" ∷ codes "2021" ∷ codes "/srv" ∷ []

abbrev session : List Bytes
session = (codes "CWD /pub" ++ crlf) ∷ (codes "PASV" ++ crlf) ∷ (codes "NLST" ++ crlf) ∷ []

abbrev five_rounds : List Bool
five_rounds = false ∷ false ∷ false ∷ false ∷ true ∷ []

-- The server after its start and the first client's arrival.
abbrev connected : Machine World
connected = (main arguments (false ∷ false ∷ []) (booted session)).1

abbrev served : Server
served = record zeroed { root_path = codes "/srv"; root_path_len = 4 }

main-WellFormed_example : WellFormed (main arguments five_rounds (booted session)).1.server_data
main-WellFormed_example = main-WellFormed arguments five_rounds (booted session) refl

main-ListsBelow_example :
    ListsBelow
      (main arguments five_rounds (booted session)).1.server_data.root_path
      (main arguments five_rounds (booted session)).1.log
main-ListsBelow_example =
    main-ListsBelow world-PlainPaths arguments five_rounds (booted session) refl refl

not_above_iff_prefix_example :
    (abs_path_is_not_above_root_path served (codes "/srv/pub") ≡ success)
    ↔ ((codes "/srv/pub" ≢ []) × (has_prefix (codes "/srv") (codes "/srv/pub") ≡ true))
not_above_iff_prefix_example = not_above_iff_prefix served (codes "/srv/pub") refl

real_path_to_server_path-below_root_example :
    (real_path_to_server_path served (codes "/srv") 4 ≡ some (slash ∷ []))
    × (reads_behind (codes "/srv") (codes "/srv") 0 4 ≡ false)
    × (real_path_to_server_path served (codes "/srv/pub") 256
        ≡ some (strncpy (codes "/pub") path_len_max))
    × (reads_behind (codes "/srv") (codes "/srv/pub") 0 256 ≡ false)
real_path_to_server_path-below_root_example =
    real_path_to_server_path-below_root served slash (codes "pub") 4 256 (omega arith) (omega arith)
      (omega arith) (omega arith)

is_decimal_iff_example :
    (is_decimal (codes "2021") ≡ true)
    ↔ (All IsDigit (codes "2021") × (length (codes "2021") ≤ 5) × (value (codes "2021") ≤ 65365))
is_decimal_iff_example = is_decimal_iff (codes "2021")

relative : is_abs_path (codes "../a.txt") ≡ failure
unfolding is_abs_path
relative = refl

accepted : is_decimal (codes "2021") ≡ true
unfolding is_decimal
accepted = refl

parse_decimal-accepted_example : parse_decimal (codes "2021") ≡ value (codes "2021")
parse_decimal-accepted_example = parse_decimal-accepted (codes "2021") accepted

parse_decimal-decimal_example :
    (is_decimal (decimal 2021) ≡ true) × (parse_decimal (decimal 2021) ≡ 2021)
parse_decimal-decimal_example = parse_decimal-decimal 2021 (omega arith)

transfers-NoTransfer_example :
    NoTransfer (command_nlst (codes "/pub") connected).1.server_data
    × NoTransfer (command_retr (codes "/pub") connected).1.server_data
transfers-NoTransfer_example = transfers-NoTransfer (codes "/pub") connected

send_loop-enough_example :
    send_loop 10 (pos 100) 5 (booted []) ≡ send_loop 5 (pos 100) 5 (booted [])
send_loop-enough_example =
    send_loop-enough world-Honest 10 (pos 100) 5 (booted []) (omega arith) (omega arith)

send_loop-Accounted_example : Accounted 5 (booted []) (send_loop 7 (pos 100) 5 (booted []))
send_loop-Accounted_example =
    send_loop-Accounted world-Honest 7 (pos 100) 5 (booted []) (omega arith) (omega arith)

locate-rooted_example : locate (codes "../a.txt") (rooted (codes "/") connected) ≡ (
  (locate (codes "../a.txt") connected).0,
  rooted (codes "/") (locate (codes "../a.txt") connected).1,
)
locate-rooted_example = locate-rooted (codes "../a.txt") (codes "/") connected relative
