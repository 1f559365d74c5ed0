-- ===== src/Lib.antt =====
-- A model of vs-ftp, a small FTP server in C for one client at a time, with what is proved of it.
--
-- The program. `main` (src/linux/main.c) checks an address, a port and a root path, initialises the
-- server and calls `VSFTPServerHandler` until a signal sets `quit`. Each call of the handler does one
-- of three things (src/common/vsftp_server.c): it starts the server, it accepts a client, or it reads
-- one request of the client and hands it to `VSFTPCommandsParse` (src/common/vsftp_commands.c). The
-- commands use the paths, sockets, replies and transfers of vsftp_server.c, and those use the path
-- helpers, files and directories of src/common/vsftp_filesystem.c.
--
-- The files.
--   Common, Libc: shared names and lists; C strings, `strncpy`, decimal digits, `snprintf`.
--   Os: the system calls, and the environment that answers them. It is a parameter of the model.
--   Machine: the state, `vsftpServerData_s` with `errno`, the environment and a log of the system
--     calls and of the undefined operations, and the monad of the functions. Machine.Keeps has the
--     rules for properties that functions keep, Machine.Handles the files and directory streams that
--     a log says were opened and closed.
--   Filesystem: src/common/vsftp_filesystem.c, one definition per function.
--   Server.Sockets, Server.Reply, Server.Paths, Server.Transfer: the functions of
--     src/common/vsftp_server.c that the commands and the loop use.
--   Commands.Handlers, Commands: the handlers, and the table, of src/common/vsftp_commands.c.
--   Loop: `VSFTPServerInitialize`, `VSFTPServerStart`, `WaitForIncomingConnection`,
--     `HandleConnection` and `VSFTPServerHandler` of src/common/vsftp_server.c.
--   Port, Main: src/linux/main.c.
--   Version: src/linux/version.h. Log: `FTPLog` of src/linux/io.c, on a state of its own: the stream
--     of the log file, and all that was put out.
--   Tests: a small environment, runs, and the theorems at concrete inputs.
-- A definition has the name of the C function in lower case, without its prefix; a part of a function
-- that is a definition of its own has a comment that names the function. The modules below a
-- component, such as Keeps, Invariant, Closing, Prefix, hold its proofs.
--
-- State and errors. A function takes the machine and gives its result and the machine after it. An
-- `int` is 0, -1 or another number as in C; an output parameter is an option or a field of a record.
-- What C leaves undefined is an entry of the log, and the function goes on. Checked so are the stores
-- at a position that the length of an input gives (the terminator of a request, and
-- the line ends appended to replies and to the lines of a listing), the bytes sent or compared behind
-- an array or behind what was stored in it, and the conversions of a format against the kinds and
-- widths of its arguments. `snprintf` and `strncpy` that are given the size of their array cannot
-- write behind it, and are cut at that size; so is the text of HELP, a constant, whose pieces are given
-- the room that is left, and which fails where a piece does not fit. `FTPLog` has a log of its own, with its arrays and its
-- sum of `int`s.
--
-- Bounds. `size_t` wraps where the code subtracts, at 2^64; the port is computed at 2^16; other
-- lengths are bounded by the buffers. The loop of a transfer has the file's size as fuel, since each
-- round sends a byte; the loop of a listing has a round per entry of the directory, and two more; a
-- number is printed with up to 20 digits, which holds 64 bits; `quit` is a finite sequence of the
-- values that the loop of `main` sees, and the result says if it ended before the loop did.
--
-- Not modelled: the calls of `FTPLOG` among the server's functions, the peer's address, and the
-- kernel, whose answers are arbitrary but for the hypotheses that a theorem names. What `main` prints
-- is a call of the environment, `Call.print`.
pub mod Common
pub mod Libc
pub mod Os
pub mod Machine
pub mod Filesystem
pub mod Server
pub mod Commands
pub mod Loop
pub mod Port
pub mod Main
pub mod Version
pub mod Log
mod Tests
