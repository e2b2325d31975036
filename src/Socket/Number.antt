-- ===== src/Socket/Number.antt =====
-- src/socket.c: the numbers that the requests carry, which `strtol` reads.
pub mod Range
use x3d_toggle_main.Prelude.{
  ℕ, Bool, true, false, not, ◌&&◌, ◌||◌, Option, none, some, [], ◌∷◌, ◌==◌, leb, if◌then◌else◌,
  Bytes, deref, length, ℤ, pos, negsuc,
}
use x3d_toggle_main.Libc.Numbers.{strtol, StrtolResult}

-- What a branch does with the number: `faulted` where it reads through the null pointer that
-- `endptr` was set to before, `refused` where it takes the number for a mistake.
pub data Number : Type 0 where
  faulted refused : Number
  number : ℤ → Number

-- `INT_MIN <= v && v <= INT_MAX`
unfoldable pub in_int : ℤ → Bool
in_int (pos n) = leb n 2147483647
in_int (negsuc n) = leb n 2147483647

-- `endptr == str || *endptr != '\0' || errno == ERANGE || v < INT_MIN || v > INT_MAX`, in this order
unfoldable pub check_number : Bytes → StrtolResult → Number
check_number str r = elim r.endptr [
  | none ↦ faulted
  | some e ↦
      if length e == length str || not (deref e == 0) || r.erange || not (in_int r.value)
      then refused
      else number r.value
]

unfoldable pub parse_number : Bytes → Number
parse_number str = check_number str (strtol str 10)

-- The blanks that SET_CPPC takes behind its number.
unfoldable pub skip_ends : Bytes → Bytes
skip_ends [] = []
skip_ends (c ∷ s) =
    if c == b' ' || c == b'\t' || c == b'\r' || c == b'\n' then skip_ends s else c ∷ s

-- SET_CPPC looks at `errno` before it reads through `endptr`.
unfoldable pub check_perf : Bytes → StrtolResult → Number
check_perf str r = elim r.endptr [
  | none ↦ if r.erange then refused else faulted
  | some e ↦
      if length e == length str || r.erange
      then refused
      else if deref (skip_ends e) == 0 && in_int r.value
      then number r.value
      else refused
]

unfoldable pub parse_perf : Bytes → Number
parse_perf str = check_perf str (strtol str 10)
