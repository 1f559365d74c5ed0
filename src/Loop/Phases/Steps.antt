-- ===== src/Loop/Phases/Steps.antt =====
-- The phases of `VSFTPServerHandler` in src/common/vsftp_server.c, and the steps between them.
use vs_ftp.Common.{◌≡◌, ◌≢◌, ℤ, is_zero, success, failure, Bool, true, false}
use vs_ftp.Machine.{Server, Machine}

pub data Phase : Type 0 where
  down listening connected : Phase

-- What the two flags of the server's data say.
abbrev pub phase_of : Bool → Bool → Phase
phase_of false _ = down
phase_of true false = listening
phase_of true true = connected

abbrev pub phase : Server → Phase
phase d = phase_of d.is_server_socket_created d.is_connected

-- A call of the handler, with what it returns.
pub data Step : Phase → ℤ → Phase → Type 0 where
  -- the server socket was created, or not
  opened : Step down success listening
  unopened : (r : ℤ) → is_zero r ≡ false → Step down r down
  -- a client was welcomed, or could not be
  welcomed : Step listening success connected
  turned_away : (r : ℤ) → is_zero r ≡ false → Step listening r listening
  -- nobody came, or `accept` failed
  nobody : Step listening success listening
  accept_failed : Step listening success down
  -- a request was handled, after which the client may be gone
  served : Step connected success connected
  left : Step connected success listening
  -- what was read was no request
  incomplete : Step connected success down
  -- nothing could be read
  unread : (p : Phase) → p ≢ listening → Step connected failure p

-- The flags are as given.
abbrev pub Flags : {K : Type 0} → Bool → Bool → Machine K → Type 0
Flags created idle s =
    (s.server_data.is_server_socket_created ≡ created) × (s.server_data.is_connected ≡ idle)

module _ {K : Type 0} where
  -- Where a call of the handler leads to from the phase `p`.
  abbrev pub LeadsFrom : Phase → ℤ × Machine K → Type 0
  LeadsFrom p (r, t) = Step p r (phase t.server_data)
