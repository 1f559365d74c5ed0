-- ===== src/Os.antt =====
-- The operating system below the server: the system calls that the code makes, what each of them
-- answers, and the environment that answers them. Nothing of it stands in the repository, so the
-- environment is a parameter of every definition that makes a call.
use vs_ftp.Common.{ℕ, ℤ}
use vs_ftp.Libc.{Bytes}

-- The system calls of server.c, commands.c and filesystem.c, with the arguments that vary, and
-- `printf` in main.c, with its text. A `DIR *` is the number of the open directory.
pub data Call : Type 0 where
  socket : Call
  fcntl_getfl fcntl_setfl set_reuse_port listen accept shutdown close fstat : ℤ → Call
  bind : ℤ → ℕ → Call
  read : ℤ → ℕ → Call
  write : ℤ → Bytes → Call
  access open_file stat realpath opendir inet_pton : Bytes → Call
  readdir closedir : ℕ → Call
  print : Bytes → Call

-- What `st_mode` says.
pub data FileKind : Type 0 where
  directory regular other : FileKind

-- What a call leaves behind. `ret` is what it returns, -1 standing for the `NULL` of `realpath`,
-- `opendir` and `readdir` too; `bytes` is what it read, the resolved path, or the entry's name;
-- `errno` is the value of `errno` after the call; `kind` and `size` are what a `struct stat` holds
-- after it, also after a call that failed.
pub record Answer : Type 0 where
  pub ret : ℤ
  pub bytes : Bytes
  pub errno : ℕ
  pub kind : FileKind
  pub size : ℕ

-- An environment with states `K`: the kernel, the file system and the client.
pub record Os (K : Type 0) : Type 0 where
  pub answer : Call → K → Answer × K
  -- How many entries the directory at a path has. The code has no such call: the number only says
  -- how many rounds the loop of a listing is given.
  pub entries : Bytes → K → ℕ
