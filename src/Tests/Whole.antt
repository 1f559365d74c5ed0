-- ===== src/Tests/Whole.antt =====
-- Whole runs of `main` in src/linux/main.c, in an environment whose reads are never full.
use vs_ftp.Common.{refl, true, false, List, [], ◌∷◌, ◌++◌, ◌-◌, arith}
use vs_ftp.Libc.{Bytes, codes, crlf}
use vs_ftp.Os.{Call, Answer, Os}
use vs_ftp.Machine.{zeroed, request_len_max}
use vs_ftp.Server.Invariant.{zeroed-WellFormed}
use vs_ftp.Loop.Phases.{phase}
use vs_ftp.Main.{serve, main}
use vs_ftp.Main.Phases.{Run, serve-Run}
use vs_ftp.Main.Watching.{PlainPaths}
use vs_ftp.Main.Defined.{ShortRequests, OnlyOverreads, main-OnlyOverreads}
use vs_ftp.Tests.World.{World, world_answer, booted}
use vs_ftp.Tests.World.Promises.{read-length, real_path-IsPlain}

abbrev brief_answer : Call → World → Answer × World
brief_answer (Call.read fd n) w = world_answer (Call.read fd (n - 1)) w
brief_answer c w = world_answer c w

instance abbrev brief : Os World
brief = record { answer = brief_answer; entries = λ p w. 0 }

brief-PlainPaths : PlainPaths brief
brief-PlainPaths = record { plain = λ q k. real_path-IsPlain q }

brief-ShortRequests : ShortRequests brief
brief-ShortRequests = record {
  short = λ sock k. omega (arith, read-length sock (request_len_max - 1) k);
}

-- A client asks for its directory and leaves.
abbrev requests : List Bytes
requests = (codes "PWD" ++ crlf) ∷ (codes "QUIT" ++ crlf) ∷ []

abbrev arguments : List Bytes
arguments = codes "127.0.0.1" ∷ codes "2021" ∷ codes "/srv" ∷ []

main-OnlyOverreads_example :
    OnlyOverreads (main arguments (false ∷ false ∷ false ∷ true ∷ []) (booted requests)).1.log
main-OnlyOverreads_example =
    main-OnlyOverreads brief-ShortRequests brief-PlainPaths arguments
      (false ∷ false ∷ false ∷ true ∷ []) (booted requests) refl refl

serve-Run_example :
    let (o, t) = serve (false ∷ false ∷ false ∷ true ∷ []) (booted requests) in
    Run (false ∷ false ∷ false ∷ true ∷ []) (phase zeroed) o (phase t.server_data)
serve-Run_example =
    serve-Run (false ∷ false ∷ false ∷ true ∷ []) (booted requests) zeroed-WellFormed
