-- ===== src/Kernel.antt =====
-- What the program asks of the kernel, as an interface: the system calls of src/libc.c are made to
-- something that is not part of the program. `read_file` stands for open, one read and close;
-- `write_file` for open, one write and close.
pub mod Memory
use x3d_toggle_main.Prelude.{
  ℕ, ◌≡◌, Bool, true, Option, none, some, List, [], ◌∷◌, ◌++◌, Bytes, codes, ℤ, pos, take, length,
}

-- The flags that the program opens a file with to write it.
pub data Flags : Type 0 where
  wronly wronly_trunc wronly_create_trunc : Flags

-- the mode of `access`: F_OK and R_OK
pub data Access : Type 0 where
  exists readable : Access

pub record Kernel : Type 1 where
  pub State : Type 0
  -- `none` where open fails; no bytes where read fails
  pub read_file : Bytes → ℕ → State → Option Bytes
  -- whether it is read that fails, where `read_file` gives no bytes
  pub read_fails : Bytes → State → Bool
  -- `none` where open fails, else what write returned
  pub write_file : Flags → Bytes → Bytes → State → State × Option ℤ
  -- whether the result was 0
  pub access : Access → Bytes → State → Bool
  pub unlink : Bytes → State → State
  pub geteuid : State → ℕ
  -- fork, execve of a program with its arguments, and waitpid: `none` where fork fails, else
  -- whether the program came to an end with status 0
  pub spawn : List Bytes → State → State × Option Bool
  -- `system` of the C library: `none` where the shell did not exit, else its status
  pub system : Bytes → State → State × Option ℕ
  -- whether the directory is made or was there already: the result is not negative or errno is 17
  pub mkdir : Bytes → State → State × Bool
  -- what the reads of at most so many bytes give one after the other, up to the one that gives
  -- nothing; `none` where open fails
  pub read_chunks : Bytes → ℕ → State → Option (List Bytes)
  -- the names in a directory; `none` where open fails
  pub list_dir : Bytes → State → Option (List Bytes)

-- `path` is a file that exists and can be read and written: a read gives what was last written.
pub record IsRegular (k : Kernel) (path : Bytes) : Type 1 where
  pub Holds : Bytes → k.State → Type 0
  pub read_holds :
      (content : Bytes) (n : ℕ) (s : k.State)
      → Holds content s
      → k.read_file path n s ≡ some (take n content)
  pub write_holds :
      (content new : Bytes) (s : k.State)
      → Holds content s
      → Holds new (k.write_file wronly_trunc path new s).0

-- the two modes that the driver amd_x3d_vcache knows
pub data Side : Type 0 where
  cache_side frequency_side : Side

abbrev pub side_name : Side → Bytes
side_name cache_side = codes "cache"
side_name frequency_side = codes "frequency"

-- `path` is the node of that driver: it takes the name of a mode, and shows the mode that is set on
-- a line of its own. A text that is no name of a mode is left open.
pub record IsNode (k : Kernel) (path : Bytes) : Type 1 where
  pub Shows : Side → k.State → Type 0
  pub read_shows :
      (a : Side) (n : ℕ) (s : k.State)
      → Shows a s
      → k.read_file path n s ≡ some (take n (side_name a ++ b'\n' ∷ []))
  pub write_shows :
      (a : Side) (s : k.State)
      → (k.write_file wronly path (side_name a) s).1 ≡ some (pos (length (side_name a)))
        × Shows a (k.write_file wronly path (side_name a) s).0
