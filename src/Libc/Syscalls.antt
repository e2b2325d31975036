-- ===== src/Libc/Syscalls.antt =====
-- src/libc.c: the functions that make a system call and turn its result into `errno` and -1. What the
-- kernel does for a number and the values of the registers is the parameter `syscall`; a pointer is
-- its address.
pub mod Errno
use x3d_toggle_main.Prelude.{
  ℕ, suc, ◌+◌, ◌-◌, ◌/◌, ◌%◌, ◌^◌, Bool, true, false, ltb, ◌==◌, ◌||◌, List, [], ◌∷◌, if◌then◌else◌,
  ℤ, pos, negsuc, int_mod, to_int,
}

-- the process: `errno`, and what the kernel changes
pub record Process (S : Type 0) : Type 0 where
  pub errno : ℤ
  pub state : S

-- `(int)ret`
unfoldable pub int_of : ℤ → ℤ
int_of (pos n) = to_int (n % int_mod)
int_of (negsuc n) = to_int (int_mod - 1 - n % int_mod)

-- `ret < 0 && ret > -4096`
unfoldable pub is_error : ℤ → Bool
is_error (pos n) = false
is_error (negsuc n) = ltb n 4095

-- `-(int)ret`
unfoldable pub negated : ℤ → ℤ
negated (pos n) = pos 0
negated (negsuc n) = pos (suc n)

-- `cmd == F_SETFL || cmd == F_GETFL || cmd == F_SETFD || cmd == F_GETFD`
unfoldable pub takes_arg : ℤ → Bool
takes_arg (pos cmd) = cmd == 4 || cmd == 3 || cmd == 2 || cmd == 1
takes_arg (negsuc n) = false

-- `flags & O_CREAT`
unfoldable pub creates : ℤ → Bool
creates (pos flags) = flags / 64 % 2 == 1
creates (negsuc n) = n / 64 % 2 == 0

module _ {S : Type 0} (syscall : ℕ → List ℤ → S → S × ℤ) where
  abbrev P : Type 0
  P = Process S

  -- behind the call, with what the function returns where there is no error
  unfoldable pub returned : (ℤ → ℤ) → ℤ → S × ℤ → P × ℤ
  returned cast before (s, ret) =
      if is_error ret
      then (record { errno = negated ret; state = s }, negsuc 0)
      else (record { errno = before; state = s }, cast ret)

  -- the functions that return an `int`, and those that return an `ssize_t`
  unfoldable pub call_int : ℕ → List ℤ → P → P × ℤ
  call_int number args p = returned int_of p.errno (syscall number args p.state)

  unfoldable pub call_long : ℕ → List ℤ → P → P × ℤ
  call_long number args p = returned (λ ret. ret) p.errno (syscall number args p.state)

  -- the functions that do not look for an error
  unfoldable pub call_plain : ℕ → List ℤ → P → P × ℤ
  call_plain number args p =
      let done = syscall number args p.state in
      (record { errno = p.errno; state = done.0 }, int_of done.1)

  unfoldable pub open_file : ℤ → ℤ → ℤ → P → P × ℤ
  open_file path flags mode p =
      call_int 2 (path ∷ (flags ∷ ((if creates flags then mode else pos 0) ∷ []))) p

  unfoldable pub read : ℤ → ℤ → ℤ → P → P × ℤ
  read fd buf n p = call_long 0 (fd ∷ (buf ∷ (n ∷ []))) p

  unfoldable pub write : ℤ → ℤ → ℤ → P → P × ℤ
  write fd buf n p = call_long 1 (fd ∷ (buf ∷ (n ∷ []))) p

  unfoldable pub close : ℤ → P → P × ℤ
  close fd p = call_int 3 (fd ∷ []) p

  unfoldable pub dup2 : ℤ → ℤ → P → P × ℤ
  dup2 oldfd newfd p = call_int 33 (oldfd ∷ (newfd ∷ [])) p

  unfoldable pub fork : P → P × ℤ
  fork p = call_plain 57 [] p

  unfoldable pub execve : ℤ → ℤ → ℤ → P → P × ℤ
  execve path argv envp p = call_int 59 (path ∷ (argv ∷ (envp ∷ []))) p

  unfoldable pub nanosleep : ℤ → ℤ → P → P × ℤ
  nanosleep req rem p = call_int 35 (req ∷ (rem ∷ [])) p

  unfoldable pub getdents64 : ℤ → ℤ → ℤ → P → P × ℤ
  getdents64 fd dirp count p = call_int 217 (fd ∷ (dirp ∷ (count ∷ []))) p

  unfoldable pub clock_gettime : ℤ → ℤ → P → P × ℤ
  clock_gettime clk_id tp p = call_int 228 (clk_id ∷ (tp ∷ [])) p

  unfoldable pub access : ℤ → ℤ → P → P × ℤ
  access path mode p = call_int 21 (path ∷ (mode ∷ [])) p

  unfoldable pub getpid : P → P × ℤ
  getpid p = call_plain 39 [] p

  unfoldable pub geteuid : P → P × ℤ
  geteuid p = call_plain 107 [] p

  unfoldable pub unlink : ℤ → P → P × ℤ
  unlink path p = call_int 87 (path ∷ []) p

  unfoldable pub chmod : ℤ → ℤ → P → P × ℤ
  chmod path mode p = call_int 90 (path ∷ (mode ∷ [])) p

  unfoldable pub mkdir : ℤ → ℤ → P → P × ℤ
  mkdir path mode p = call_int 83 (path ∷ (mode ∷ [])) p

  unfoldable pub rmdir : ℤ → P → P × ℤ
  rmdir path p = call_int 84 (path ∷ []) p

  unfoldable pub affinity_set : ℤ → ℤ → ℤ → P → P × ℤ
  affinity_set pid size mask p = call_int 203 (pid ∷ (size ∷ (mask ∷ []))) p

  unfoldable pub kill : ℤ → ℤ → P → P × ℤ
  kill pid sig p = call_int 62 (pid ∷ (sig ∷ [])) p

  unfoldable pub sigaction : ℤ → ℤ → ℤ → P → P × ℤ
  sigaction signum act oldact p = call_int 13 (signum ∷ (act ∷ (oldact ∷ (pos 8 ∷ [])))) p

  unfoldable pub socket : ℤ → ℤ → ℤ → P → P × ℤ
  socket dom type pro p = call_int 41 (dom ∷ (type ∷ (pro ∷ []))) p

  unfoldable pub connect : ℤ → ℤ → ℤ → P → P × ℤ
  connect fd addr len p = call_int 42 (fd ∷ (addr ∷ (len ∷ []))) p

  unfoldable pub bind : ℤ → ℤ → ℤ → P → P × ℤ
  bind fd addr len p = call_int 49 (fd ∷ (addr ∷ (len ∷ []))) p

  unfoldable pub listen : ℤ → ℤ → P → P × ℤ
  listen fd bl p = call_int 50 (fd ∷ (bl ∷ [])) p

  unfoldable pub accept : ℤ → ℤ → ℤ → P → P × ℤ
  accept fd addr len p = call_int 43 (fd ∷ (addr ∷ (len ∷ []))) p

  unfoldable pub accept4 : ℤ → ℤ → ℤ → ℤ → P → P × ℤ
  accept4 fd addr len fl p = call_int 288 (fd ∷ (addr ∷ (len ∷ (fl ∷ [])))) p

  unfoldable pub sendto : ℤ → ℤ → ℤ → ℤ → ℤ → ℤ → P → P × ℤ
  sendto fd buf len fl addr addrlen p =
      call_long 44 (fd ∷ (buf ∷ (len ∷ (fl ∷ (addr ∷ (addrlen ∷ [])))))) p

  unfoldable pub select : ℤ → ℤ → ℤ → ℤ → ℤ → P → P × ℤ
  select n rf wf ef tv p = call_int 23 (n ∷ (rf ∷ (wf ∷ (ef ∷ (tv ∷ []))))) p

  -- the fourth register is set to 0
  unfoldable pub waitpid : ℤ → ℤ → ℤ → P → P × ℤ
  waitpid pid status options p = call_plain 61 (pid ∷ (status ∷ (options ∷ (pos 0 ∷ [])))) p

  unfoldable pub fcntl : ℤ → ℤ → ℤ → P → P × ℤ
  fcntl fd cmd value p =
      call_int 72 (fd ∷ (cmd ∷ ((if takes_arg cmd then value else pos 0) ∷ []))) p

  -- The constraints of the source do not say that r8 and r9 are set: they hold whatever they held.
  unfoldable pub send : ℤ → ℤ → ℤ → ℤ → ℤ → ℤ → P → P × ℤ
  send r8 r9 fd buf len fl p = call_long 44 (fd ∷ (buf ∷ (len ∷ (fl ∷ (r8 ∷ (r9 ∷ [])))))) p

  unfoldable pub recv : ℤ → ℤ → ℤ → ℤ → ℤ → ℤ → P → P × ℤ
  recv r8 r9 fd buf len fl p = call_long 45 (fd ∷ (buf ∷ (len ∷ (fl ∷ (r8 ∷ (r9 ∷ [])))))) p
