-- ===== src/Irq/Discover.antt =====
-- src/irq.c: what the code reads off /proc/interrupts. The walk over the buffer is that of
-- `Lines.split_lines`, of which the code stops at a full list.
use x3d_toggle_main.Prelude.{
  ℕ, zero, suc, Bool, false, ◌&&◌, ◌||◌, Option, none, some, List, [], ◌∷◌, ◌++◌, ◌==◌, ltb,
  if◌then◌else◌, String, ℤ, Bytes, codes, cstr, take, length,
}
use x3d_toggle_main.Libc.Numbers.{atoi}
use x3d_toggle_main.Libc.Bounded.{printf_d}
use x3d_toggle_main.Libc.Strings.{strstr}
use x3d_toggle_main.Errors.{is_positive}
use x3d_toggle_main.Lines.{split_lines}
use x3d_toggle_main.Kernel.{Kernel}
use x3d_toggle_main.Games.Load.{contains}

abbrev pub irq_max_vectors : ℕ
irq_max_vectors = 64

abbrev pub interrupts_path : Bytes
interrupts_path = codes "/proc/interrupts"

-- one line: its number goes into the list where the line has the token and the number is positive
unfoldable pub add_line : Bytes → List ℤ → Bytes → List ℤ
add_line token irqs line =
    if contains line token && is_positive (atoi line) then irqs ++ (atoi line ∷ []) else irqs

unfoldable pub discover_lines : Bytes → List ℤ → List Bytes → List ℤ
discover_lines token irqs [] = irqs
discover_lines token irqs (line ∷ lines) =
    if ltb (length irqs) irq_max_vectors
    then discover_lines token (add_line token irqs line) lines
    else irqs

-- behind the read
unfoldable pub discover_read : Bytes → Option Bytes → List ℤ
discover_read token none = []
discover_read token (some buf) = discover_lines token [] (split_lines (cstr buf))

unfoldable pub msi_line : Option Bytes → Bool
msi_line none = false
msi_line (some line) = contains line (codes "PCI-MSI") || contains line (codes "PCI-MSIX")

unfoldable pub msi_read : ℤ → Option Bytes → Bool
msi_read irq none = false
msi_read irq (some buf) =
    msi_line (strstr (some buf) (some (take 15 (printf_d 16 irq ++ b':' ∷ []))))

-- `while (found[j] && found[j] != ' ' && …)`, where the name so far leaves room for `n` bytes
unfoldable pub nic_name : ℕ → Bytes → Bytes
nic_name zero found = []
nic_name (suc n) [] = []
nic_name (suc n) (c ∷ found) =
    if c == 0 || c == b' ' || c == b'\n' || c == b'-' then [] else c ∷ nic_name n found

-- `for (int t = 0; t < 4; t++)`: the name at the first token that the line has
unfoldable pub find_nic : Bytes → List Bytes → List Bytes
find_nic line [] = []
find_nic line (token ∷ tokens) = elim (strstr (some line) (some token)) [
  | none ↦ find_nic line tokens
  | some found ↦ nic_name 31 found ∷ []
]

abbrev pub nic_tokens : List Bytes
nic_tokens = codes "eth" ∷ codes "enp" ∷ codes "eno" ∷ codes "wlan" ∷ []

unfoldable pub nic_lines : List Bytes → List Bytes → List Bytes
nic_lines names [] = names
nic_lines names (line ∷ lines) =
    if ltb (length names) 8 then nic_lines (names ++ find_nic line nic_tokens) lines else names

unfoldable pub nic_read : Option Bytes → List Bytes
nic_read none = []
nic_read (some buf) = nic_lines [] (split_lines (cstr buf))

module _ (k : Kernel) where
  unfoldable pub discover_irqs : String → k.State → List ℤ
  discover_irqs driver_token s =
      discover_read (codes driver_token) (k.read_file interrupts_path 8191 s)

  unfoldable pub verify_msi : k.State → ℤ → Bool
  verify_msi s irq = msi_read irq (k.read_file interrupts_path 8191 s)

  unfoldable pub discover_nic_names : k.State → List Bytes
  discover_nic_names s = nic_read (k.read_file interrupts_path 8191 s)
