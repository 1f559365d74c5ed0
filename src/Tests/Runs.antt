-- ===== src/Tests/Runs.antt =====
-- Runs of the whole program.
use vs_ftp.Common.{failure, ◌≡◌, refl, some, [], ◌∷◌}
use vs_ftp.Libc.{codes}
use vs_ftp.Machine.{perform}
use vs_ftp.Server.Transfer.{is_valid_ip_address}
use vs_ftp.Port.{is_decimal}
use vs_ftp.Main.{main}
use vs_ftp.Tests.World.{world, booted}

bad_port :
    (main (codes "127.0.0.1" ∷ codes "70000" ∷ codes "/srv" ∷ []) [] (booted [])).0 ≡ some failure
unfolding main is_valid_ip_address perform is_decimal
bad_port = refl
