-- ===== src/Socket/Setup.antt =====
-- src/socket.c: `socket_setup`. The system calls on sockets are the record Sockets; IPC_PATH is the
-- path of the socket. What is written to the journal is left out.
use x3d_toggle_main.Prelude.{
  ℕ, ◌+◌, ◌/◌, ◌%◌, ◌==◌, Bool, false, not, Option, none, some, if◌then◌else◌, ℤ, pos, negsuc,
  Bytes, codes,
}
use x3d_toggle_main.Kernel.{Kernel}

pub record Sockets (k : Kernel) : Type 0 where
  -- a stream socket of the family AF_UNIX, `none` where there is none
  pub open_socket : k.State → k.State × Option ℕ
  -- F_GETFL, and whether F_SETFL succeeds
  pub get_flags : ℕ → k.State → ℤ
  pub set_flags : ℕ → ℕ → k.State → k.State × Bool
  -- whether `bind`, `listen` and `chmod` succeed
  pub bind_path : ℕ → Bytes → k.State → k.State × Bool
  pub listen_at : ℕ → ℕ → k.State → k.State × Bool
  pub set_mode : Bytes → ℕ → k.State → k.State × Bool
  pub close_socket : ℕ → k.State → k.State

abbrev pub ipc_path : Bytes
ipc_path = codes "/run/x3d-toggle/x3d-toggle.ipc"

-- `flags | O_NONBLOCK`
unfoldable pub nonblocking : ℕ → ℕ
nonblocking flags = if flags / 2048 % 2 == 1 then flags else flags + 2048

module _ (k : Kernel) (sockets : Sockets k) where
  abbrev S : Type 0
  S = k.State

  -- whether the flags are read and set
  unfoldable pub make_nonblocking : ℕ → ℤ → S → S × Bool
  make_nonblocking fd (pos flags) s = sockets.set_flags fd (nonblocking flags) s
  make_nonblocking fd (negsuc n) s = (s, false)

  -- behind `listen`
  unfoldable pub grant : ℕ → S → S × Option ℕ
  grant fd s = ((sockets.set_mode ipc_path 432 s).0, some fd)

  unfoldable pub give_up : ℕ → S → S × Option ℕ
  give_up fd s = (sockets.close_socket fd s, none)

  -- MAX_CONNECTIONS is 128.
  unfoldable pub listen_on : ℕ → S → S × Option ℕ
  listen_on fd s =
      let bound = sockets.bind_path fd ipc_path (k.unlink ipc_path s) in
      let heard = sockets.listen_at fd 128 bound.0 in
      if not bound.1
      then give_up fd bound.0
      else if not heard.1
      then give_up fd heard.0
      else grant fd heard.0

  -- behind `socket`
  unfoldable pub configure : S × Option ℕ → S × Option ℕ
  configure (s, none) = (s, none)
  configure (s, some fd) =
      let flagged = make_nonblocking fd (sockets.get_flags fd s) s in
      if flagged.1 then listen_on fd flagged.0 else give_up fd flagged.0

  unfoldable pub socket_setup : S → S × Option ℕ
  socket_setup s = configure (sockets.open_socket s)
