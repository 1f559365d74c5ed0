-- ===== src/Main/Watched.antt =====
-- What the log of the whole program says, for properties of the log that each operation keeps.
use vs_ftp.Common.{Option, none, some, ◌≡◌, refl, Bool, false, List, [], ◌∷◌}
use vs_ftp.Libc.{Bytes, c_str}
use vs_ftp.Libc.Format.{IsPlain, num, size_t, expand-IsPlain}
use vs_ftp.Os.{Call, Os}
use vs_ftp.Machine.{
  Fault, write_out_of_bounds, read_out_of_bounds, bad_format, Server, Machine, Event, undefined,
  zeroed, perform,
}
use vs_ftp.Machine.Keeps.{Reason, Keeps, Frame, lists}
use vs_ftp.Filesystem.{path_len_max}
use vs_ftp.Filesystem.Resolved.{NoNul}
use vs_ftp.Server.Sockets.{stop, client_disconnect}
use vs_ftp.Server.Sockets.Closing.{
  client_disconnect-log, stop-log, client_disconnect-data, stop-data,
}
use vs_ftp.Server.Transfer.{set_transfer_mode}
use vs_ftp.Server.Keeps.{TransferFrame}
use vs_ftp.Server.Invariant.{WellFormed, CwdFrame, at_dir-WellFormed}
use vs_ftp.Commands.Keeps.{CommandFrame}
use vs_ftp.Loop.Keeps.{LoopFrame}
use vs_ftp.Loop.Invariant.{invariant_loop, disconnected-WellFormed, stopped-WellFormed}
use vs_ftp.Main.{main}
use vs_ftp.Main.Keeps.{MainFrame, main-Keeps}
use vs_ftp.Main.Invariant.{IsFresh, IsFresh-WellFormed}
use vs_ftp.Main.Watching.{PlainPaths, Watch, Watched, strncpy-IsPlain, IsPath-IsPlain, listed_below}

module _ {K : Type 0} ⦃os : Os K⦄ {L : Bytes → List Event → Type 0} (watch : Watch os L) where
  calls_seen :
      (root : Bytes) (c : Call)
      → lists c ≡ false
      → Keeps (λ (s : Machine K). L root s.log) (perform c)
  unfolding perform
  calls_seen root c e s h = watch.call root c _ s.log e h

  -- What is undefined is seen, but no format is wrong.
  fault_seen :
      (f : Fault) (s : Machine K)
      → IsPlain s.server_data.cwd
      → Reason f s
      → (root : Bytes) → L root s.log
      → L root (undefined f ∷ s.log)
  fault_seen (write_out_of_bounds n) s plain (same, sock, k, over) root h =
      rw same (watch.overflow root sock k s.log over h)
  fault_seen (read_out_of_bounds n) s plain r root h = watch.overread root n s.log h
  fault_seen (bad_format f) s plain (same, wrong) root h =
      let copied = expand-IsPlain s.server_data.cwd (num size_t s.server_data.cwd_len ∷ []) plain in
      absurd (contradiction copied wrong)
    where
      contradiction : {o : Option Bytes} {b : Bytes} → o ≡ some b → o ≡ none → ⊥
      contradiction p q = cc

  whole_frame : Frame (Watched {K = K} L)
  unfolding perform
  whole_frame = record {
    call = λ c e s h. record {
      valid = h.valid;
      root = h.root;
      plain = h.plain;
      seen = watch.call s.server_data.root_path c _ s.log e h.seen;
    };
    undefined = λ f s h r. record {
      valid = h.valid;
      root = h.root;
      plain = h.plain;
      seen = fault_seen f s h.plain r s.server_data.root_path h.seen;
    };
  }

  -- A write of the server's data that leaves the paths alone.
  same_paths :
      (d : Server) (s : Machine K)
      → Watched L s
      → WellFormed d
      → d.root_path ≡ s.server_data.root_path
      → d.cwd ≡ s.server_data.cwd
      → Watched L (record s { server_data = d })
  same_paths d s h w root cwd = record {
    valid = w;
    root = rw root h.root;
    plain = rw cwd h.plain;
    seen = rw root h.seen;
  }

  whole_transfers : TransferFrame (Watched {K = K} L)
  whole_transfers =
      let own = invariant_loop.commands.transfers in
      record {
        frame = whole_frame;
        address = λ a s h. same_paths _ s h (own.address a s h.valid) refl refl;
        listening = λ x s h. same_paths _ s h (own.listening x s h.valid) refl refl;
        accepted = λ x s h. same_paths _ s h (own.accepted x s h.valid) refl refl;
      }

  disconnect-Watched : Keeps (Watched {K = K} L) client_disconnect
  disconnect-Watched s h =
      let e = (client_disconnect-data s).1 in
      let root = s.server_data.root_path in
      record {
        valid = rw e (disconnected-WellFormed s.server_data h.valid);
        root = rw e h.root;
        plain = rw e h.plain;
        seen = rw e (client_disconnect-log (L root) (calls_seen root) s h.seen);
      }

  stop-Watched : Keeps (Watched {K = K} L) stop
  stop-Watched s h =
      let e = (stop-data s).1 in
      let root = s.server_data.root_path in
      record {
        valid = rw e (stopped-WellFormed s.server_data h.valid);
        root = rw e h.root;
        plain = rw e h.plain;
        seen = rw e (stop-log (L root) (calls_seen root) s h.seen);
      }

module _ {K : Type 0} ⦃os : Os K⦄ {L : Bytes → List Event → Type 0} (watch : Watch os L)
    (paths : PlainPaths os) where
  whole_cwd : CwdFrame (Watched {K = K} L)
  whole_cwd = record {
    frame = whole_frame watch;
    stored = λ path s h is ok. record {
      valid = at_dir-WellFormed s.server_data path h.valid is ok;
      root = h.root;
      plain = strncpy-IsPlain path path_len_max (IsPath-IsPlain paths is);
      seen = h.seen;
    };
  }

  whole_commands : CommandFrame (Watched {K = K} L)
  unfolding set_transfer_mode perform
  whole_commands = record {
    handlers = record {
      transfers = whole_transfers watch;
      cwd = whole_cwd;
      mode = λ b s h. same_paths watch _ s h (invariant_loop.commands.mode b s h.valid) refl refl;
      listed = λ path s h l. record {
        valid = h.valid;
        root = h.root;
        plain = h.plain;
        seen =
            watch.opened s.server_data.root_path (c_str path) _ s.log (listed_below path s h l)
              h.seen;
      };
    };
    disconnect = disconnect-Watched watch;
  }

  whole_loop : LoopFrame (Watched {K = K} L)
  whole_loop =
      let own = invariant_loop in
      record {
        valid = λ s h. h.valid;
        commands = whole_commands;
        stopping = stop-Watched watch;
        reset = λ s h idle. same_paths watch _ s h (own.reset s h.valid idle) refl refl;
        configured = λ a s h. same_paths watch _ s h (own.configured a s h.valid) refl refl;
        bound = λ x s h. same_paths watch _ s h (own.bound x s h.valid) refl refl;
        created = λ s h. same_paths watch _ s h (own.created s h.valid) refl refl;
        arrived = λ x s h idle. same_paths watch _ s h (own.arrived x s h.valid idle) refl refl;
        connected = λ s h there arrived.
            same_paths watch _ s h (own.connected s h.valid there arrived) refl refl;
      }

  -- Before the first iteration nothing has been listed.
  abbrev Unwatched : Machine K → Type 0
  Unwatched s =
      IsFresh s.server_data × NoNul s.server_data.root_path × ((root : Bytes) → L root s.log)

  whole_main : MainFrame Unwatched (Watched {K = K} L)
  unfolding perform
  whole_main = record {
    loop = whole_loop;
    frame = record {
      call = λ c e s h. (h.0, h.1, λ root. watch.call root c _ s.log e (h.2 root));
      undefined =
          λ f s h r. (h.0, h.1, λ root. fault_seen watch f s (rw h.0.cwd tt) r root (h.2 root));
    };
    address = λ ip n port s h. (
      record { root_len = h.0.root_len; cwd = h.0.cwd; cwd_len = h.0.cwd_len; idle = h.0.idle },
      h.1,
      h.2,
    );
    root = λ path s h is. (
      record { root_len = refl; cwd = h.0.cwd; cwd_len = h.0.cwd_len; idle = h.0.idle },
      is.no_nul,
      h.2,
    );
    begins = λ s h. record {
      valid = IsFresh-WellFormed s.server_data h.0;
      root = h.1;
      plain = rw h.0.cwd tt;
      seen = h.2 s.server_data.root_path;
    };
  }

  -- Over the whole program the property holds of the root path and the log.
  pub main-Watch :
      (arguments : List Bytes) (quits : List Bool) (s : Machine K)
      → s.server_data ≡ zeroed
      → s.log ≡ []
      → let t = (main arguments quits s).1 in L t.server_data.root_path t.log
  main-Watch arguments quits s start none_yet =
      let fresh : IsFresh zeroed = record {
        root_len = refl;
        cwd = refl;
        cwd_len = refl;
        idle = refl;
      } in
      (main-Keeps whole_main arguments quits s
        (rw start fresh, rw start tt, λ root. rw none_yet (watch.start root))).seen
