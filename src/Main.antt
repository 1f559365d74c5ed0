-- ===== src/Main.antt =====
-- `main` in src/linux/main.c. `quit`, which a signal sets, is a
-- sequence of the values that the test of the loop sees.
pub mod Keeps
pub mod Invariant
pub mod Watching
pub mod Watched
pub mod Listing
pub mod Defined
pub mod Exit
pub mod Unread
pub mod Phases
use vs_ftp.Common.{
  ℤ, failure, is_zero, pos, zero, suc, negsuc, Bool, true, false, Option, none, some, List, [], ◌∷◌,
  if◌then◌else◌,
}
use vs_ftp.Libc.{Bytes, codes}
use vs_ftp.Libc.Format.{Arg, str, int, expand}
use vs_ftp.Os.{Call, Os}
use vs_ftp.Machine.{M, pure, ◌>>=◌, ◌>>◌, fault, bad_format, perform}
use vs_ftp.Version.{get_version_string}
use vs_ftp.Filesystem.{is_dir}
use vs_ftp.Server.Sockets.{stop}
use vs_ftp.Server.Transfer.{is_valid_ip_address}
use vs_ftp.Loop.{initialize, handler}
use vs_ftp.Port.{is_decimal, parse_decimal}

-- `x == 1`
abbrev pub is_one : ℤ → Bool
is_one (pos zero) = false
is_one (pos (suc zero)) = true
is_one (pos (suc (suc n))) = false
is_one (negsuc n) = false

module _ {K : Type 0} ⦃os : Os K⦄ where
  -- `printf`
  unfoldable pub print_out : Bytes → List Arg → M K (Unit {0})
  print_out format args = elim (expand format args) [
    | none ↦ fault (bad_format format)
    | some text ↦ perform (Call.print text) >> pure tt
  ]

  -- `PrintHelp`
  unfoldable pub print_help : M K (Unit {0})
  unfolding print_out
  print_help = do
    print_out (codes "Version %s\n\n") (str get_version_string ∷ [])
    print_out (codes "Usage:\n") []
    print_out (codes "  vs-ftp <server ip> <port> <root path>\n") []

  -- The end of `main` after `quit` was set.
  unfoldable pub stop_server : M K (Option ℤ)
  unfolding print_out
  stop_server = do
    r ← stop
    if is_zero r
        then pure (some r)
        else print_out (codes "Server stop failed with error %d\n\n") (int r ∷ []) >> pure (some r)

  -- The end of `main` after a call of the handler that returned `r`.
  unfoldable pub handler_failed : ℤ → M K (Option ℤ)
  unfolding print_out
  handler_failed r = do
    print_out (codes "Server handler failed with error %d\n\n") (int r ∷ [])
    stop
    pure (some r)

  -- The loop of `main` and what follows it: `none` if the sequence ends before the loop does.
  unfoldable pub serve : List Bool → M K (Option ℤ)
  unfolding stop_server handler_failed
  serve [] s = (none, s)
  serve (quit ∷ later) s =
      let (r, s') = handler s in
      let ended = stop_server s' in
      let failed = handler_failed r s' in
      let more = serve later s' in if is_zero r then if quit then ended else more else failed

  -- `main` from the signal's handler on.
  unfoldable pub run : Bytes → Bytes → Bytes → List Bool → M K (Option ℤ)
  unfolding serve
  run address port root quits = do
    r ← initialize root address (parse_decimal port)
    if is_zero r
        then serve quits
        else print_out (codes "Server initialization failed with error %d\n\n") (int r ∷ [])
          >> pure (some r)

  -- `main` behind the check of the port.
  unfoldable pub rooted_run : Bytes → Bytes → Bytes → List Bool → M K (Option ℤ)
  unfolding run print_help
  rooted_run address port root quits = do
    r ← is_dir root
    if is_zero r
        then run address port root quits
        else print_out (codes "Invalid directory \"%s\"\n\n") (str root ∷ [])
          >> print_help
          >> pure (some failure)

  -- `main` behind the check of the address.
  unfoldable pub checked_run : Bytes → Bytes → Bytes → List Bool → M K (Option ℤ)
  unfolding rooted_run
  checked_run address port root quits =
      if is_decimal port
      then rooted_run address port root quits
      else print_out (codes "Invalid port \"%s\"\n\n") (str port ∷ [])
        >> print_help
        >> pure (some failure)

  -- `main`, with the arguments behind `argv[0]`.
  unfoldable pub main : List Bytes → List Bool → M K (Option ℤ)
  unfolding checked_run
  main (address ∷ port ∷ root ∷ []) quits = do
    valid ← is_valid_ip_address address
    if is_one valid
        then checked_run address port root quits
        else print_out (codes "Invalid IP address \"%s\"\n") (str address ∷ [])
          >> print_out (codes "Note that hostnames are not supported\n\n") []
          >> pure (some failure)
  main arguments quits =
      print_out (codes "Invalid number of arguments\n\n") [] >> print_help >> pure (some failure)
