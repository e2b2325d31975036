-- ===== src/Libc.antt =====
-- src/libc.c: the program's own C library. System calls are not modelled here; what the daemon
-- asks of the kernel is the interface `Kernel`.
pub mod Chars
pub mod Strings
pub mod Numbers
pub mod Memory
pub mod Bounded
pub mod Sysctl
pub mod Syscalls
pub mod Exec
