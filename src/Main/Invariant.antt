-- ===== src/Main/Invariant.antt =====
-- The invariants of the whole program, from the start of `main` in src/linux/main.c on.
use vs_ftp.Common.{◌≡◌, refl, Bool, false, List, [], arith, length}
use vs_ftp.Libc.{Bytes}
use vs_ftp.Os.{Os}
use vs_ftp.Machine.{Server, Machine, zeroed, perform}
use vs_ftp.Server.Invariant.{WellFormed}
use vs_ftp.Loop.Invariant.{Valid, invariant_loop}
use vs_ftp.Main.{main}
use vs_ftp.Main.Keeps.{MainFrame, main-Keeps}

-- The data before the first iteration: no working directory, nobody connected.
pub record IsFresh (d : Server) : Type 0 where
  pub root_len : d.root_path_len ≡ length d.root_path
  pub cwd : d.cwd ≡ []
  pub cwd_len : d.cwd_len ≡ 0
  pub idle : d.is_connected ≡ false

pub IsFresh-WellFormed : (d : Server) → IsFresh d → WellFormed d
IsFresh-WellFormed d f = record {
  root_len = f.root_len;
  cwd_len = rw (f.cwd, f.cwd_len);
  cwd_fits = rw f.cwd (omega arith);
  confined = λ h. absurd (omega (arith, f.cwd_len));
  listening = λ h. absurd (ground (arith, f.idle));
  client = λ h. absurd (ground (arith, f.idle));
}

module _ {K : Type 0} ⦃os : Os K⦄ where
  abbrev Fresh : Machine K → Type 0
  Fresh s = IsFresh s.server_data

  invariant_main : MainFrame Fresh (Valid {K = K})
  unfolding perform
  invariant_main = record {
    loop = invariant_loop;
    frame = record { call = λ c e s h. h; undefined = λ f s h r. h };
    address = λ ip n port s h. ground arith;
    root =
        λ path s h is. record { root_len = refl; cwd = h.cwd; cwd_len = h.cwd_len; idle = h.idle };
    begins = λ s h. IsFresh-WellFormed s.server_data h;
  }

  -- Whatever the arguments, the requests and the answers of the system are, `main` started on its
  -- zeroed globals keeps the invariant: after any number of iterations the lengths are those of the
  -- paths, the working directory fits its buffer and, once set, begins with the root path, and
  -- somebody is connected only while the server socket and a client socket are there.
  pub main-WellFormed :
      (arguments : List Bytes) (quits : List Bool) (s : Machine K)
      → s.server_data ≡ zeroed
      → WellFormed (main arguments quits s).1.server_data
  main-WellFormed arguments quits s e =
      main-Keeps invariant_main arguments quits s
        (rw e (record { root_len = refl; cwd = refl; cwd_len = refl; idle = refl }))
