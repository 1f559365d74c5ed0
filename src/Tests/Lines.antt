-- ===== src/Tests/Lines.antt =====
-- The theorems about texts, tables and the log, and about single calls, at concrete inputs.
use vs_ftp.Common.{◌≡◌, refl, ◌↔◌, failure, is_zero, false, none, some, [], ◌∷◌, arith}
use mathlib.Core.List.{Memᴰ}
use vs_ftp.Libc.{codes}
use vs_ftp.Libc.Format.{str, int}
use vs_ftp.Machine.{SockAddr, Machine}
use vs_ftp.Log.{Tm, Logger, LogCall, add_year, log_all, store, time_stamp, log_path}
use vs_ftp.Log.Mirror.{on_terminal, in_file, log_all-mirrors}
use vs_ftp.Log.Bounds.{IsDate, store-time_stamp}
use vs_ftp.Commands.{commands, find, entry, pwd}
use vs_ftp.Commands.Table.{StartsWith, find_iff}
use vs_ftp.Server.Sockets.{create_passive_socket}
use vs_ftp.Server.Sockets.Errors.{Outcome, create_passive_socket-Outcome}
use vs_ftp.Loop.{handler}
use vs_ftp.Loop.Phases.{phase, Step, handler-Step}
use vs_ftp.Main.{main}
use vs_ftp.Main.Invariant.{main-WellFormed}
use vs_ftp.Tests.World.{World, world, booted}

abbrev noon : Tm
noon = record { tm_year = 126; tm_mon = 0; tm_mday = 31; tm_hour = 12; tm_min = 0; tm_sec = 60 }

abbrev empty_log : Logger
empty_log = record { log_fp = none; out = [] }

-- The first call opens the log file.
abbrev first_call : LogCall
first_call = record {
  now = noon;
  fopen = some 3;
  file = codes "main.c";
  line = 7;
  format = codes "Root: %s\n";
  args = str (codes "/srv") ∷ [];
}

abbrev second_call : LogCall
second_call = record first_call {
  fopen = none;
  format = codes "Error %d\n";
  args = int failure ∷ [];
}

noon-IsDate : IsDate noon
noon-IsDate = ground arith

log_all-mirrors_example :
    on_terminal (log_all (first_call ∷ second_call ∷ []) empty_log).out
    ≡ in_file 3 (log_all (first_call ∷ second_call ∷ []) empty_log).out
log_all-mirrors_example = log_all-mirrors 3 first_call (second_call ∷ []) refl

store-time_stamp_example :
    (add_year noon empty_log ≡ empty_log)
    × (store (time_stamp noon) empty_log ≡ empty_log)
    × (store (log_path (time_stamp noon)) empty_log ≡ empty_log)
store-time_stamp_example = store-time_stamp noon empty_log noon-IsDate

find_iff_example :
    (find commands (codes "PWD") ≡ some (entry "PWD" pwd))
    ↔ (Memᴰ (entry "PWD" pwd) commands × StartsWith (codes "PWD") (codes "PWD"))
find_iff_example = find_iff (entry "PWD" pwd) (codes "PWD")

abbrev any_address : SockAddr
any_address = record { sin_port = 2021 }

create_passive_socket-Outcome_example :
    let (c, t) = create_passive_socket any_address (booted []) in
    Outcome (is_zero c.retval) c.sock t.log
create_passive_socket-Outcome_example = create_passive_socket-Outcome any_address (booted [])

abbrev started : Machine World
started = (main (codes "127.0.0.1" ∷ codes "2021" ∷ codes "/srv" ∷ []) (false ∷ []) (booted [])).1

handler-Step_example :
    Step (phase started.server_data) (handler started).0 (phase (handler started).1.server_data)
handler-Step_example = handler-Step started (
    main-WellFormed (codes "127.0.0.1" ∷ codes "2021" ∷ codes "/srv" ∷ []) (false ∷ []) (booted [])
      refl)
