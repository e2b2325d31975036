-- ===== src/Socket/Dispatch.antt =====
-- Every request reaches the branch of its own command.
use x3d_toggle_main.Prelude.{
  ℕ, ◌≡◌, ◌≢◌, ◌<◌, ltb, ◌&&◌, ◌==◌, not, refl, ap, ◌⊎◌, inl, inr, Bool, true, some, [], ◌∷◌, ◌++◌,
  Bytes, codes, cstr, deref, drop-length-append, All, All-append, arith,
}
use x3d_toggle_main.Libc.Strings.{strchr, strncmp, strlen}
use x3d_toggle_main.Libc.Strings.Span.{Passes, Stops, strcspn-append, cstr-append}
use x3d_toggle_main.Libc.Strings.Equal.{starts_with, take-length-append}
use x3d_toggle_main.Kernel.{Kernel}
use x3d_toggle_main.Config.Load.{Reals}
use x3d_toggle_main.Socket.State.{Host, Daemon}
use x3d_toggle_main.Socket.Commands.{
  Command, ping, prefix, commands, find_command, request, argument,
}
use x3d_toggle_main.Socket.Handle.{serve, socket_handle}

-- A byte that can stand in a request.
abbrev pub Plain : ℕ → Type 0
Plain c = (c < 256) × (c ≢ 0) × (c ≢ b'\r') × (c ≢ b'\n')

-- What ends a request: the end of the data, a NUL, or the end of a line.
abbrev pub Ends : Bytes → Type 0
Ends rest = (deref rest ≡ 0) ⊎ ((deref rest ≡ b'\r') ⊎ (deref rest ≡ b'\n'))

abbrev line_ends : Bytes
line_ends = codes "\r\n"

passes : (c : ℕ) → Plain c → Passes line_ends c
unfolding strchr
passes c (w, a, b, d) = (a, ground arith)

Passes-All : (s : Bytes) → All Plain s → All (Passes line_ends) s × All (λ c. c ≢ 0) s
Passes-All [] h = (tt, tt)
Passes-All (c ∷ s) (hc, h) = let (a, b) = Passes-All s h in ((passes c hc, a), (hc.1, b))

stops : (rest : Bytes) → Ends rest → Stops line_ends rest
unfolding strchr
stops rest (inl e) = inl e
stops rest (inr (inl e)) = inr (codes "\r\n", rw e refl)
stops rest (inr (inr e)) = inr (codes "\n", rw e refl)

pub request-line : (s rest : Bytes) → All Plain s → Ends rest → request (s ++ rest) ≡ s
unfolding request
request-line s rest h e =
    let (p, n) = Passes-All s h in
    let span = strcspn-append line_ends s rest p (stops rest e) in
    let text = cstr-append s rest n in rw (span, text) (take-length-append s (cstr rest))

-- No command hides a later one.
find_command-prefix : (c : Command) (arg : Bytes) → find_command (prefix c ++ arg) commands ≡ some c
unfolding find_command prefix commands starts_with strncmp strlen
find_command-prefix ping arg = refl
find_command-prefix _ arg = refl

argument-prefix : (c : Command) (arg : Bytes) → argument c (prefix c ++ arg) ≡ arg
unfolding argument
argument-prefix c arg = drop-length-append (prefix c) arg

abbrev pub is_plain : Bytes → Bool
is_plain [] = true
is_plain (c ∷ s) = ltb c 256 && not (c == 0) && not (c == b'\r') && not (c == b'\n') && is_plain s

pub is_plain-All : (s : Bytes) → is_plain s ≡ true → All Plain s
is_plain-All [] h = tt
is_plain-All (c ∷ s) h =
    ((ground arith, ground arith, ground arith, ground arith), is_plain-All s (ground arith))

pub is_plain-prefix : (c : Command) → is_plain (prefix c) ≡ true
unfolding prefix
is_plain-prefix ping = refl
is_plain-prefix _ = refl

-- A request that is the name of a command with an argument behind it, ended by the end of the data,
-- a NUL or the end of a line, is served by the branch of that command with that argument, whatever
-- follows.
pub socket_handle-serve :
    (reals : Reals) (k : Kernel) (host : Host reals k) (d : Daemon reals k) (c : Command)
    (arg rest : Bytes)
    → All Plain arg
    → Ends rest
    → socket_handle reals k host (some ((prefix c ++ arg) ++ rest)) d ≡ serve reals k host c arg d
unfolding socket_handle
socket_handle-serve reals k host d c arg rest h e =
    let plain = All-append _ (prefix c) arg (is_plain-All (prefix c) (is_plain-prefix c)) h in
    rw (request-line (prefix c ++ arg) rest plain e, find_command-prefix c arg)
      (ap (λ a. serve reals k host c a d) (argument-prefix c arg))
