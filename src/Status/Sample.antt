-- ===== src/Status/Sample.antt =====
-- src/status.c: `stats`, which reads the counters of the first line of /proc/stat.
use x3d_toggle_main.Prelude.{
  ℕ, ◌<◌, ◌^◌, ◌≡◌, refl, ap, ◌∙◌, false, Option, none, some, [], ◌∷◌, ◌++◌, pos, Bytes, codes,
  deref, arith,
}
use x3d_toggle_main.Libc.Strings.{strchr}
use x3d_toggle_main.Libc.Strings.Search.{strchr-append}
use x3d_toggle_main.Libc.Numbers.{is_digit, strtoull, skip_blanks}
use x3d_toggle_main.Libc.Numbers.Strtoull.{strtoull-digits}
use x3d_toggle_main.Libc.Bounded.{itoa}
use x3d_toggle_main.Libc.Bounded.Decimal.{itoa_lem}
use x3d_toggle_main.Kernel.{Kernel}
use x3d_toggle_main.Status.{CpuStats}

-- the seven calls of `strtoull(p, &p, 10)`
unfoldable pub read_counters : Bytes → CpuStats
read_counters p =
    let a = strtoull p 10 in
    let b = strtoull a.1 10 in
    let c = strtoull b.1 10 in
    let d = strtoull c.1 10 in
    let e = strtoull d.1 10 in
    let f = strtoull e.1 10 in
    let g = strtoull f.1 10 in
    record {
      user = a.0;
      nice = b.0;
      system = c.0;
      idle = d.0;
      iowait = e.0;
      irq = f.0;
      softirq = g.0;
    }

unfoldable pub at_blank : CpuStats → Option Bytes → CpuStats
at_blank st none = st
at_blank st (some p) = read_counters p

-- what is left in `st`, of what the file gives
unfoldable pub stats_read : CpuStats → Option Bytes → CpuStats
stats_read st none = st
stats_read st (some []) = st
stats_read st (some (c ∷ buf)) = at_blank st (strchr (some (c ∷ buf)) b' ')

unfoldable pub stats : (k : Kernel) → CpuStats → k.State → CpuStats
stats k st s = stats_read st (k.read_file (codes "/proc/stat") 255 s)

-- a counter as it stands in the line
abbrev pub field_text : ℕ → Bytes → Bytes
field_text n rest = b' ' ∷ (itoa (pos n) ++ rest)

-- the first line, and what follows the seven counters
abbrev pub line_text : CpuStats → Bytes → Bytes
line_text c rest =
    codes "cpu"
    ++ (b' '
        ∷ field_text c.user (
            field_text c.nice (
              field_text c.system (
                field_text c.idle
                  (field_text c.iowait (field_text c.irq (field_text c.softirq rest)))))))

-- Each counter is one of 64 bits.
pub record IsWide (c : CpuStats) : Type 0 where
  pub user : c.user < 2 ^ 64
  pub nice : c.nice < 2 ^ 64
  pub system : c.system < 2 ^ 64
  pub idle : c.idle < 2 ^ 64
  pub iowait : c.iowait < 2 ^ 64
  pub irq : c.irq < 2 ^ 64
  pub softirq : c.softirq < 2 ^ 64

strtoull-field :
    (n : ℕ) (rest : Bytes)
    → n < 2 ^ 64
    → is_digit (deref rest) ≡ false
    → strtoull (field_text n rest) 10 ≡ (n, rest)
strtoull-field n rest h e =
    let spelt = itoa_lem n in
    strtoull-digits (itoa (pos n)) rest spelt.2 spelt.0 e (omega (arith, spelt.1, h))
    ∙ ap (λ v. (v, rest)) spelt.1

strtoull-blank : (p : Bytes) → strtoull (b' ' ∷ (b' ' ∷ p)) 10 ≡ strtoull (b' ' ∷ p) 10
unfolding strtoull skip_blanks
strtoull-blank p = refl

read_counters-line :
    (c : CpuStats) (rest : Bytes)
    → IsWide c
    → is_digit (deref rest) ≡ false
    → read_counters (
        b' '
        ∷ field_text c.user (
            field_text c.nice (
              field_text c.system (
                field_text c.idle
                  (field_text c.iowait (field_text c.irq (field_text c.softirq rest)))))))
      ≡ c
unfolding read_counters
read_counters-line c rest w e =
    rw
      (
        strtoull-blank (
            itoa (pos c.user)
            ++ field_text c.nice (
                field_text c.system (
                  field_text c.idle
                    (field_text c.iowait (field_text c.irq (field_text c.softirq rest)))))),
        strtoull-field c.user _ w.user refl,
        strtoull-field c.nice _ w.nice refl,
        strtoull-field c.system _ w.system refl,
        strtoull-field c.idle _ w.idle refl,
        strtoull-field c.iowait _ w.iowait refl,
        strtoull-field c.irq _ w.irq refl,
        strtoull-field c.softirq rest w.softirq e,
      )
      refl

-- Where the file starts with the seven counters in decimal, and these are within the first 255
-- bytes: stats reads the counters, whatever the sample held before.
pub stats-line :
    (k : Kernel) (st c : CpuStats) (rest : Bytes) (s : k.State)
    → IsWide c
    → is_digit (deref rest) ≡ false
    → k.read_file (codes "/proc/stat") 255 s ≡ some (line_text c rest)
    → stats k st s ≡ c
unfolding stats stats_read at_blank
stats-line k st c rest s w e h =
    let found = strchr-append (codes "cpu") _ b' ' (omega arith) (omega arith) (omega arith) in
    rw h (ap (at_blank st) found ∙ read_counters-line c rest w e)
