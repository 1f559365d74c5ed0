-- ===== src/Main/Keeps.antt =====
-- `main` in src/linux/main.c: what holds before the server is configured and what its iterations
-- keep hold together of the whole program.
use vs_ftp.Common.{
  subst, sym, ℤ, is_zero, Bool-cases, inl, inr, ℕ, ◌≡◌, refl, Bool, Option, none, some, List, [],
  ◌∷◌, arith, length,
}
use vs_ftp.Libc.{Bytes, codes, strncpy}
use vs_ftp.Libc.Format.{Arg, str, int, expand}
use vs_ftp.Os.{Call, Os}
use vs_ftp.Machine.{Server, Machine, M, modify, perform, fault, bad_format, pure, ◌>>◌}
use vs_ftp.Machine.Keeps.{Keeps, Frame}
use vs_ftp.Server.Keeps.{Formats}
use vs_ftp.Filesystem.{path_len_max, is_dir, get_real_path}
use vs_ftp.Filesystem.Keeps as FilesystemKeeps
use vs_ftp.Filesystem.Resolved.{IsPath, get_real_path-IsPath}
use vs_ftp.Server.Sockets.{stop}
use vs_ftp.Server.Transfer.{is_valid_ip_address, inet_addrstrlen}
use vs_ftp.Version.{get_version_string}
use vs_ftp.Loop.{initialize, configure_root, handler}
use vs_ftp.Loop.Keeps.{LoopFrame, handler-Keeps}
use vs_ftp.Port.{is_decimal, parse_decimal}
use vs_ftp.Main.{
  print_out, print_help, stop_server, handler_failed, rooted_run, is_one, serve, run, checked_run,
  main,
}

-- The data once the root path has been found.
abbrev pub rooted : Server → Bytes → Server
rooted d path = record d { root_path = path; root_path_len = length path }

-- A property of the states before the first iteration, and one that holds from then on.
pub record MainFrame {K : Type 0} ⦃os : Os K⦄ (Before After : Machine K → Type 0) : Type 0 where
  pub loop : LoopFrame After
  pub frame : Frame Before
  pub address :
      (ip : Bytes) (n port : ℕ)
      → Keeps Before (modify (λ d. record d { ip_addr = ip; ip_addr_len = n; port = port }))
  pub root :
      (path : Bytes) (s : Machine K)
      → Before s
      → IsPath os path
      → Before (record s { server_data = rooted s.server_data path })
  pub begins : (s : Machine K) → Before s → After s

module _ {K : Type 0} ⦃os : Os K⦄ {P : Machine K → Type 0} (frame : Frame P) where
  -- What `print_out` does with what its format made of its arguments.
  abbrev printing : Bytes → Option Bytes → M K (Unit {0})
  printing format o = elim o [
    | none ↦ fault (bad_format format)
    | some text ↦ perform (Call.print text) >> pure tt
  ]

  print_out-Keeps :
      (format : Bytes) (args : List Arg) → Formats format args → Keeps P (print_out format args)
  unfolding print_out
  print_out-Keeps format args (text, e) s h =
      subst (λ o. P (printing format o s).1) (sym e) (frame.call (Call.print text) refl s h)

  print_help-Keeps : Keeps P print_help
  unfolding print_help expand
  print_help-Keeps s h =
      let version = print_out (codes "Version %s\n\n") (str get_version_string ∷ []) in
      let t = (version s).1 in
      let u = (print_out (codes "Usage:\n") [] t).1 in
      print_out-Keeps (codes "  vs-ftp <server ip> <port> <root path>\n") [] (_, refl) u
        (print_out-Keeps (codes "Usage:\n") [] (_, refl) t
          (print_out-Keeps (codes "Version %s\n\n") (str get_version_string ∷ []) (_, refl) s h))

module _ {K : Type 0} ⦃os : Os K⦄ {Before After : Machine K → Type 0}
    (own : MainFrame Before After) where
  after_frame : Frame After
  after_frame = own.loop.commands.transfers.frame

  configure_root-Keeps :
      (o : Option Bytes) (s : Machine K)
      → Before s
      → ((p : Bytes) → o ≡ some p → IsPath os p)
      → Before (configure_root o s).1
  unfolding configure_root
  configure_root-Keeps none s h is = h
  configure_root-Keeps (some path) s h is =
      FilesystemKeeps.is_dir-Keeps own.frame path _ (own.root path s h (is path refl))

  initialize-Keeps : (root ip : Bytes) (port : ℕ) → Keeps Before (initialize root ip port)
  unfolding initialize
  initialize-Keeps root ip port s h =
      let addressed : Machine K = record s {
        server_data = record s.server_data {
          ip_addr = strncpy ip inet_addrstrlen;
          ip_addr_len = length ip;
          port = port;
        };
      } in
      let ready : Before addressed =
        own.address (strncpy ip inet_addrstrlen) (length ip) port s h in
      let t = get_real_path [] root path_len_max addressed in
      let done =
        configure_root-Keeps t.0 t.1
          (FilesystemKeeps.get_real_path-Keeps own.frame [] root path_len_max addressed ready)
          (λ p e. get_real_path-IsPath [] root addressed e) in
      ground (arith, done)

  stop_server-Keeps : Keeps After stop_server
  unfolding stop_server expand
  stop_server-Keeps s h =
      let t = (stop s).1 in
      let ended : After t = own.loop.stopping s h in
      let said =
        print_out-Keeps after_frame (codes "Server stop failed with error %d\n\n")
          (int (stop s).0 ∷ []) (_, refl) t ended in
      elim (Bool-cases (is_zero (stop s).0)) [ inl e ↦ rw e ended | inr e ↦ rw e said ]

  handler_failed-Keeps : (r : ℤ) → Keeps After (handler_failed r)
  unfolding handler_failed expand
  handler_failed-Keeps r s h = own.loop.stopping _ (
      print_out-Keeps after_frame (codes "Server handler failed with error %d\n\n") (int r ∷ [])
        (_, refl) s h)

  serve-Keeps : (quits : List Bool) → Keeps After (serve quits)
  unfolding serve
  serve-Keeps [] s h = h
  serve-Keeps (quit ∷ later) s h =
      let t = (handler s).1 in
      let kept : After t = handler-Keeps own.loop s h in
      let ended : After (stop_server t).1 = stop_server-Keeps t kept in
      let failed : After (handler_failed (handler s).0 t).1 =
        handler_failed-Keeps (handler s).0 t kept in
      let more : After (serve later t).1 = serve-Keeps later t kept in ground arith

  -- A message is the end of the program before it has begun.
  refused :
      (format : Bytes) (args : List Arg)
      → Formats format args
      → (s : Machine K) → Before s
      → After (print_help (print_out format args s).1).1
  refused format args f s h =
      own.begins _ (print_help-Keeps own.frame _ (print_out-Keeps own.frame format args f s h))

  run-Keeps :
      (address port root : Bytes) (quits : List Bool) (s : Machine K)
      → Before s
      → After (run address port root quits s).1
  unfolding run expand
  run-Keeps address port root quits s h =
      let t = initialize root address (parse_decimal port) s in
      let ready : Before t.1 = initialize-Keeps root address (parse_decimal port) s h in
      let served : After (serve quits t.1).1 = serve-Keeps quits t.1 (own.begins t.1 ready) in
      let said = own.begins _ (
        print_out-Keeps own.frame (codes "Server initialization failed with error %d\n\n")
          (int t.0 ∷ []) (_, refl) t.1 ready) in
      elim (Bool-cases (is_zero t.0)) [ inl e ↦ rw e served | inr e ↦ rw e said ]

  rooted_run-Keeps :
      (address port root : Bytes) (quits : List Bool) (s : Machine K)
      → Before s
      → After (rooted_run address port root quits s).1
  unfolding rooted_run expand
  rooted_run-Keeps address port root quits s h =
      let t = is_dir root s in
      let looked : Before t.1 = FilesystemKeeps.is_dir-Keeps own.frame root s h in
      let ran = run-Keeps address port root quits t.1 looked in
      let said =
        refused (codes "Invalid directory \"%s\"\n\n") (str root ∷ []) (_, refl) t.1 looked in
      elim (Bool-cases (is_zero t.0)) [ inl e ↦ rw e ran | inr e ↦ rw e said ]

  checked_run-Keeps :
      (address port root : Bytes) (quits : List Bool) (s : Machine K)
      → Before s
      → After (checked_run address port root quits s).1
  unfolding checked_run expand
  checked_run-Keeps address port root quits s h =
      let ran = rooted_run-Keeps address port root quits s h in
      let said = refused (codes "Invalid port \"%s\"\n\n") (str port ∷ []) (_, refl) s h in
      elim (Bool-cases (is_decimal port)) [ inl e ↦ rw e ran | inr e ↦ rw e said ]

  miscounted :
      (s : Machine K)
      → Before s
      → After (print_help (print_out (codes "Invalid number of arguments\n\n") [] s).1).1
  unfolding expand
  miscounted s h = refused (codes "Invalid number of arguments\n\n") [] (_, refl) s h

  -- Whatever the arguments are, `main` ends in a state with the second property.
  pub main-Keeps :
      (arguments : List Bytes) (quits : List Bool) (s : Machine K)
      → Before s
      → After (main arguments quits s).1
  unfolding main is_valid_ip_address expand
  main-Keeps [] quits s h = miscounted s h
  main-Keeps (a ∷ []) quits s h = miscounted s h
  main-Keeps (a ∷ b ∷ []) quits s h = miscounted s h
  main-Keeps (a ∷ b ∷ c ∷ d ∷ rest) quits s h = miscounted s h
  main-Keeps (address ∷ port ∷ root ∷ []) quits s h =
      let t = is_valid_ip_address address s in
      let asked : Before t.1 = own.frame.call _ refl s h in
      let ran = checked_run-Keeps address port root quits t.1 asked in
      let said = own.begins _ (
        print_out-Keeps own.frame (codes "Note that hostnames are not supported\n\n") [] (_, refl) _
          (print_out-Keeps own.frame (codes "Invalid IP address \"%s\"\n") (str address ∷ [])
            (_, refl) t.1 asked)) in
      elim (Bool-cases (is_one t.0)) [ inl e ↦ rw e ran | inr e ↦ rw e said ]
