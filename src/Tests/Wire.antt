-- ===== src/Tests/Wire.antt =====
-- A file, a peer and a client: what is still to be read of the one, what the other has got, and the
-- lines that the client is going to send.
use vs_ftp.Common.{List, refl, pos, success, [], ◌++◌, length, take, drop}
use vs_ftp.Libc.{Bytes}
use vs_ftp.Os.{Call, Answer, directory, Os}
use vs_ftp.Machine.{Machine, zeroed}
use vs_ftp.Server.Transfer.Delivery.{Reliable}

pub record Wire : Type 0 where
  pub content : Bytes
  pub received : Bytes
  pub requests : List Bytes

abbrev pub wire_answer : Call → Wire → Answer × Wire
wire_answer (Call.read fd n) w = (
  record {
    ret = pos (length (take n w.content));
    bytes = take n w.content;
    errno = 0;
    kind = directory;
    size = 0;
  },
  record w { content = drop n w.content },
)
wire_answer (Call.write sock b) w = (
  record { ret = pos (length b); bytes = []; errno = 0; kind = directory; size = 0 },
  record w { received = w.received ++ b },
)
wire_answer _ w = (record { ret = success; bytes = []; errno = 0; kind = directory; size = 0 }, w)

instance abbrev pub wire : Os Wire
wire = record { answer = wire_answer; entries = λ p w. 0 }

pub wire-Reliable : Reliable wire (pos 4) (pos 5) (λ w. w.content) (λ w. w.received)
wire-Reliable = record {
  reads = λ n k. (refl, refl, refl, refl);
  writes = λ b k. (refl, refl, refl);
}

-- A transfer of these bytes to a peer at socket 5.
abbrev pub sending : Bytes → Machine Wire
sending content = record {
  server_data = record zeroed { transfer_client_sock = pos 5 };
  errno = 0;
  kernel = record { content = content; received = []; requests = [] };
  log = [];
}
