-- ===== src/Tests/Library.antt =====
-- The C library, the lines, the scaling and the journal at concrete inputs.
use x3d_toggle_main.Prelude.{
  ◌≡◌, refl, some, [], ◌∷◌, List, false, take, codes, Bytes, ℤ, negsuc, pos, arith, if◌then◌else◌,
  inl, ◌-◌,
}
use mathlib.Core.Option.{map}
use x3d_toggle_main.Libc.Strings.Equal.{is_zero}
use x3d_toggle_main.Libc.Numbers.{strtol}
use x3d_toggle_main.Libc.Numbers.Strtol.{
  minus, is_minus, magnitude, after_digits, strtol_result, strtol-numeral,
}
use x3d_toggle_main.Libc.Memory.{Memory, memmove}
use x3d_toggle_main.Libc.Memory.Copy.{Copied, memmove-Copied}
use x3d_toggle_main.Status.{CpuStats, status_cpu}
use x3d_toggle_main.Status.Share.{status_cpu-share}
use x3d_toggle_main.Journal.Deferred.{Symbols, Journal, buffer_set, buffer_flush, printed, warn_all}
use x3d_toggle_main.Journal.Kept.{texts, buffer_flush-warn_all}

-- the address itself as its byte, up to 9
abbrev small_memory : Memory
small_memory a = if is_zero (pos (10 - a)) then 0 else a

memmove-Copied_example : Copied small_memory (memmove small_memory 3 1 4) 3 1 4
memmove-Copied_example = memmove-Copied small_memory 3 1 4

strtol-numeral_example :
    strtol (codes "  -42x") 10
    ≡ strtol_result (is_minus minus) (magnitude (codes "42x")) (after_digits (codes "42x"))
strtol-numeral_example =
    strtol-numeral (codes "  ") minus (codes "42x") (inl refl, (inl refl, tt)) tt

abbrev earlier : CpuStats
earlier = record { user = 5; nice = 0; system = 2; idle = 90; iowait = 1; irq = 0; softirq = 2 }

abbrev later : CpuStats
later = record { user = 8; nice = 1; system = 4; idle = 95; iowait = 1; irq = 0; softirq = 3 }

status_cpu-share_example : status_cpu earlier later ≡ some (7, 12)
status_cpu-share_example =
    status_cpu-share earlier later (omega arith) (omega arith) (omega arith) (omega arith)

abbrev symbols : Symbols
symbols = record { color_yellow = codes "<"; color_reset = codes ">"; warn = codes "!" }

abbrev idle : Journal
idle = record { buffer_active = false; buffer_deferred = [] }

abbrev warnings : List (ℤ × Bytes)
warnings = (negsuc 33, codes "cache") ∷ ((pos 40, codes "7") ∷ [])

buffer_flush-warn_all_example :
    map buffer_flush (warn_all symbols warnings (buffer_set idle))
    ≡ some (idle, printed (take 4095 (texts symbols warnings)))
buffer_flush-warn_all_example = buffer_flush-warn_all symbols warnings idle (refl, (refl, tt))
