-- ===== src/Client/Saved.antt =====
-- A setting that a command writes gets into the file in the same way with a daemon and without one.
use x3d_toggle_main.Prelude.{
  ◌≤◌, ◌≡◌, refl, ap, ◌∙◌, false, some, ◌∷◌, ◌++◌, pos, Bytes, codes, length, NoNul, Lacks, All,
  arith,
}
use x3d_toggle_main.Libc.Strings.{strncmp, strlen}
use x3d_toggle_main.Libc.Strings.Search.{strchr-append}
use x3d_toggle_main.Libc.Strings.Equal.{starts_with, take-minus-append}
use x3d_toggle_main.Errors.{err_success}
use x3d_toggle_main.Kernel.{Kernel}
use x3d_toggle_main.Config.Fields.{Field}
use x3d_toggle_main.Config.Load.{Reals, find_field}
use x3d_toggle_main.Config.Update.{config_update}
use x3d_toggle_main.Socket.State.{Host, Daemon, set_kernel, answer}
use x3d_toggle_main.Socket.Commands.{prefix, set_config}
use x3d_toggle_main.Socket.Handle.{serve}
use x3d_toggle_main.Socket.Dispatch.{Plain}
use x3d_toggle_main.Socket.Tuning.{split_blank, split_found, with_split}
use x3d_toggle_main.Socket.Settings.{
  handle_set_config, set_found, set_live, save, live_fields, is_ebpf,
}
use x3d_toggle_main.Client.{
  World, online, offline, is_ok, answered, socket_send, config_write, update_setting, world_kernel,
  set_world_kernel,
}
use x3d_toggle_main.Client.Requests.{socket_send-serve}

split_blank_at :
    (key val : Bytes)
    → NoNul key
    → Lacks b' ' key
    → split_blank (key ++ (b' ' ∷ val)) ≡ some (key, val)
unfolding split_blank split_found
split_blank_at key val n l =
    rw (strchr-append key val b' ' (omega arith) n l)
      (ap (λ t. some (t, val)) (take-minus-append key (b' ' ∷ val)))

module _ (reals : Reals) (k : Kernel) (host : Host reals k) where
  live-kernel :
      (f : Field) (v : Bytes) (d : Daemon reals k)
      → is_ebpf reals k host f ≡ false
      → (set_live reals k host f v d).machine.kernel ≡ d.machine.kernel
  unfolding set_live
  live-kernel f v d h = rw h refl

  set_config_lem :
      (key val : Bytes) (f : Field) (d : Daemon reals k)
      → NoNul key
      → Lacks b' ' key
      → find_field key live_fields ≡ some f
      → serve reals k host set_config (key ++ (b' ' ∷ val)) d
        ≡ answer (codes "OK") (set_live reals k host f val (save reals k host key val d))
  unfolding serve handle_set_config with_split set_found
  set_config_lem key val f d n l found = rw (split_blank_at key val n l, found) refl

  sent_setting :
      (key val : Bytes) (f : Field) (d : Daemon reals k)
      → All Plain (key ++ (b' ' ∷ val))
      → NoNul key
      → Lacks b' ' key
      → length (codes "SET_CONFIG " ++ (key ++ (b' ' ∷ val))) ≤ 511
      → find_field key live_fields ≡ some f
      → socket_send reals k host (codes "SET_CONFIG " ++ (key ++ (b' ' ∷ val))) (online d)
        ≡ (online (set_live reals k host f val (save reals k host key val d)), err_success)
  unfolding prefix answered is_ok starts_with strncmp strlen
  sent_setting key val f d h n l fits found =
      socket_send-serve reals k host d set_config (key ++ (b' ' ∷ val)) h fits
      ∙ ap (answered reals k host d) (set_config_lem key val f d n l found)

  saved-kernel :
      (key val : Bytes) (f : Field) (d : Daemon reals k)
      → is_ebpf reals k host f ≡ false
      → (set_live reals k host f val (save reals k host key val d)).machine.kernel
        ≡ config_update k host.conf_path key val d.machine.kernel
  unfolding save set_kernel
  saved-kernel key val f d no_bpf = live-kernel f val (save reals k host key val d) no_bpf

  -- For the key of a field that SET_CONFIG knows, EBPF_ENABLE left out, where the command is exactly
  -- SET_CONFIG, the key and the value, with blanks between them, has at most 511 bytes and no NUL,
  -- newline or carriage return, so that nothing of it is cut: with a daemon that listens and without
  -- one, `config_write` succeeds and leaves the kernel as `config_update` with the key and the value
  -- does, so that the file is the same either way.
  pub config_write-config_update :
      (key val : Bytes) (f : Field) (w : World reals k)
      → All Plain (key ++ (b' ' ∷ val))
      → NoNul key
      → Lacks b' ' key
      → length (codes "SET_CONFIG " ++ (key ++ (b' ' ∷ val))) ≤ 511
      → find_field key live_fields ≡ some f
      → is_ebpf reals k host f ≡ false
      → (let r =
            config_write reals k host (codes "SET_CONFIG " ++ (key ++ (b' ' ∷ val))) key val w in
          (r.1 ≡ pos 0)
          × (world_kernel reals k host r.0
              ≡ config_update k host.conf_path key val (world_kernel reals k host w)))
  unfolding config_write update_setting world_kernel set_world_kernel socket_send
  config_write-config_update key val f (offline s) h n l fits found no_bpf = (refl, refl)
  config_write-config_update key val f (online d) h n l fits found no_bpf =
      rw (sent_setting key val f d h n l fits found) (refl, saved-kernel key val f d no_bpf)
