-- ===== src/Loop/Invariant.antt =====
-- The invariant of the server's data over every function that src/common/vsftp_server.c exports to
-- `main`, and over any number of iterations of the server.
use vs_ftp.Common.{arith}
use vs_ftp.Os.{Os}
use vs_ftp.Machine.{Server, Machine, perform}
use vs_ftp.Machine.Keeps.{Keeps, Frame}
use vs_ftp.Server.Sockets.{stop, client_disconnect}
use vs_ftp.Server.Sockets.Closing.{client_disconnect-data, stop-data, disconnected, stopped}
use vs_ftp.Server.Transfer.{set_transfer_mode}
use vs_ftp.Server.Keeps.{TransferFrame}
use vs_ftp.Server.Invariant.{WellFormed, CwdFrame, at_dir-WellFormed}
use vs_ftp.Commands.Keeps.{CommandFrame}
use vs_ftp.Loop.Keeps.{LoopFrame, handler-Keeps}
use vs_ftp.Loop.{handler}

abbrev pub Valid : {K : Type 0} → Machine K → Type 0
Valid s = WellFormed s.server_data

pub disconnected-WellFormed : (d : Server) → WellFormed d → WellFormed (disconnected d)
disconnected-WellFormed d w = record {
  root_len = w.root_len;
  cwd_len = w.cwd_len;
  cwd_fits = w.cwd_fits;
  confined = w.confined;
  listening = λ h. cc;
  client = λ h. cc;
}

pub stopped-WellFormed : (d : Server) → WellFormed d → WellFormed (stopped d)
stopped-WellFormed d w = record {
  root_len = w.root_len;
  cwd_len = w.cwd_len;
  cwd_fits = w.cwd_fits;
  confined = w.confined;
  listening = λ h. cc;
  client = λ h. cc;
}

module _ {K : Type 0} ⦃os : Os K⦄ where
  invariant_frame : Frame (Valid {K = K})
  unfolding perform
  invariant_frame = record { call = λ c e s h. h; undefined = λ f s h r. h }

  invariant_cwd : CwdFrame (Valid {K = K})
  invariant_cwd = record {
    frame = invariant_frame;
    stored = λ path s h is ok. at_dir-WellFormed s.server_data path h is ok;
  }

  invariant_transfers : TransferFrame (Valid {K = K})
  invariant_transfers = record {
    frame = invariant_frame;
    address = λ a s h. ground arith;
    listening = λ x s h. ground arith;
    accepted = λ x s h. ground arith;
  }

  pub client_disconnect-Valid : Keeps (Valid {K = K}) client_disconnect
  client_disconnect-Valid s h =
      rw ((client_disconnect-data s).1) (disconnected-WellFormed s.server_data h)

  pub stop-Valid : Keeps (Valid {K = K}) stop
  stop-Valid s h = rw ((stop-data s).1) (stopped-WellFormed s.server_data h)

  invariant_commands : CommandFrame (Valid {K = K})
  unfolding set_transfer_mode perform
  invariant_commands = record {
    handlers = record {
      transfers = invariant_transfers;
      cwd = invariant_cwd;
      mode = λ b s h. ground arith;
      listed = λ path s h l. h;
    };
    disconnect = client_disconnect-Valid;
  }

  pub invariant_loop : LoopFrame (Valid {K = K})
  invariant_loop = record {
    valid = λ s h. h;
    commands = invariant_commands;
    stopping = stop-Valid;
    reset = λ s h idle. ground arith;
    configured = λ a s h. ground arith;
    bound = λ x s h. ground arith;
    created = λ s h. ground arith;
    arrived = λ x s h idle. ground arith;
    connected = λ s h there arrived. ground arith;
  }

  -- An iteration of the server keeps the invariant, whatever the system calls answer: the working
  -- directory stays within its buffer and keeps beginning with the root path, and somebody is
  -- connected only while the server socket and a client socket are there.
  pub handler-WellFormed :
      (s : Machine K) → WellFormed s.server_data → WellFormed (handler s).1.server_data
  handler-WellFormed = handler-Keeps invariant_loop
