-- ===== src/Client/Refused.antt =====
-- The commands whose requests the daemon does not know.
use x3d_toggle_main.Prelude.{
  ℕ, zero, suc, ◌≤◌, ◌≡◌, refl, sym, ap, ◌∙◌, inl, true, none, List, [], ◌∷◌, ◌++◌, append-nil,
  Bytes, codes, cstr, cstr_self, take, take-all, length, length-take, All, All-append, arith,
}
use x3d_toggle_main.Libc.Strings.{strncmp, strlen}
use x3d_toggle_main.Libc.Strings.Equal.{starts_with}
use x3d_toggle_main.Libc.Bounded.{printf_s}
use x3d_toggle_main.Kernel.{Kernel}
use x3d_toggle_main.Config.Load.{Reals}
use x3d_toggle_main.Socket.State.{Host}
use x3d_toggle_main.Socket.Commands.{prefix, commands, find_command, request}
use x3d_toggle_main.Socket.Handle.{socket_handle}
use x3d_toggle_main.Socket.Dispatch.{Plain, is_plain-All, request-line}
use x3d_toggle_main.Client.{World, online, offline, err_ipc, is_ok, answered, socket_send, cppc_cmd}
use x3d_toggle_main.Client.Requests.{Plain-NoNul}
use x3d_toggle_main.Client.Settings.{
  two_arguments, cli_cppc_raw, is_action, profile_command, cli_config_profile,
}

take-Plain : (n : ℕ) (s : Bytes) → All Plain s → All Plain (take n s)
take-Plain zero s h = tt
take-Plain (suc n) [] h = tt
take-Plain (suc n) (c ∷ s) (hc, h) = (hc, take-Plain n s h)

module _ (reals : Reals) (k : Kernel) (host : Host reals k) where
  pub send-refused :
      (cmd : Bytes) (w : World reals k)
      → All Plain cmd
      → length cmd ≤ 511
      → find_command cmd commands ≡ none
      → socket_send reals k host cmd w ≡ (w, err_ipc)
  unfolding socket_send socket_handle answered is_ok starts_with strncmp strlen
  send-refused cmd (offline s) h fits unknown = refl
  send-refused cmd (online d) h fits unknown =
      let whole = cstr_self cmd (Plain-NoNul cmd h) in
      let sent = take-all 511 cmd fits in
      let line = ap request (sym (append-nil cmd)) ∙ request-line cmd [] h (inl refl) in
      rw (whole, sent, line, unknown) refl

  -- the rest of a request, as far as the buffer takes it
  unknown_raw : (rest : Bytes) → find_command (codes "SET_RAW " ++ rest) commands ≡ none
  unfolding find_command commands prefix starts_with strncmp strlen
  unknown_raw rest = refl

  unknown_profile : (rest : Bytes) → find_command (codes "PROFILE " ++ rest) commands ≡ none
  unfolding find_command commands prefix starts_with strncmp strlen
  unknown_profile rest = refl

  two-Plain : (a b : Bytes) → All Plain a → All Plain b → All Plain (cstr a ++ (b' ' ∷ cstr b))
  two-Plain a b ha hb =
      rw (cstr_self a (Plain-NoNul a ha), cstr_self b (Plain-NoNul b hb))
        (All-append Plain a (b' ' ∷ b) ha (ground arith, hb))

  sent_raw :
      (rest : Bytes)
      → All Plain rest
      → (w : World reals k)
      → socket_send reals k host (printf_s 128 (codes "SET_RAW " ++ rest)) w ≡ (w, err_ipc)
  unfolding printf_s
  sent_raw rest h w =
      let name = is_plain-All (codes "SET_RAW ") refl in
      let whole = cstr_self (codes "SET_RAW " ++ rest) (
        Plain-NoNul (codes "SET_RAW " ++ rest) (All-append Plain (codes "SET_RAW ") rest name h)) in
      let cut = take-Plain 119 rest h in
      let fits = length-take 119 rest in
      rw whole (
        send-refused (codes "SET_RAW " ++ take 119 rest) w
          (All-append Plain (codes "SET_RAW ") _ name cut) (omega (arith, fits))
          (unknown_raw (take 119 rest)))

  sent_profile :
      (rest : Bytes)
      → All Plain rest
      → (w : World reals k)
      → socket_send reals k host (printf_s 256 (codes "PROFILE " ++ rest)) w ≡ (w, err_ipc)
  unfolding printf_s
  sent_profile rest h w =
      let name = is_plain-All (codes "PROFILE ") refl in
      let whole = cstr_self (codes "PROFILE " ++ rest) (
        Plain-NoNul (codes "PROFILE " ++ rest) (All-append Plain (codes "PROFILE ") rest name h)) in
      let cut = take-Plain 247 rest h in
      let fits = length-take 247 rest in
      rw whole (
        send-refused (codes "PROFILE " ++ take 247 rest) w
          (All-append Plain (codes "PROFILE ") _ name cut) (omega (arith, fits))
          (unknown_profile (take 247 rest)))

  -- The daemon knows neither the request SET_RAW nor the request PROFILE. With arguments of bytes
  -- that can stand in a request, the commands `cli_cppc_raw`, and `cli_config_profile` with one of its
  -- four actions, change nothing and fail, with a daemon that listens and without one.
  pub cli_cppc_raw-refused :
      (program name value target action profile : Bytes) (more : List Bytes) (w : World reals k)
      → All Plain value
      → All Plain target
      → All Plain action
      → All Plain profile
      → is_action reals k host action ≡ true
      → (cli_cppc_raw reals k host (program ∷ (name ∷ (value ∷ (target ∷ more)))) w ≡ (w, err_ipc))
        × (cli_config_profile reals k host (program ∷ (name ∷ (action ∷ (profile ∷ more)))) w
            ≡ (w, err_ipc))
  unfolding cli_cppc_raw two_arguments cppc_cmd cli_config_profile profile_command
  cli_cppc_raw-refused program name value target action profile more w hv ht ha hp is_one =
      let raw = two-Plain target value ht hv in
      let prof = two-Plain action profile ha hp in
      rw (sent_raw _ raw w, sent_profile _ prof w, is_one) (refl, refl)
