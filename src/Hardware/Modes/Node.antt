-- ===== src/Hardware/Modes/Node.antt =====
-- `mode` and `cli_set_mode` on the node of the driver, which shows its mode on a line of its own.
use x3d_toggle_main.Prelude.{◌≡◌, refl, ap, ◌∙◌, some, [], ◌∷◌, ◌++◌, Bytes, cstr}
use x3d_toggle_main.Libc.Strings.{strchr}
use x3d_toggle_main.Kernel.{Kernel, wronly, IsNode, Side, cache_side, frequency_side, side_name}
use x3d_toggle_main.Errors.{err_success, write_result}
use x3d_toggle_main.Hardware.Modes.{
  Machine, find_path, mode, mode_at, read_mode, cut_line, cli_set_mode, set_mode_at,
}

-- The newline of the node is cut off.
read_mode-line :
    (stale : Bytes) (a : Side)
    → read_mode stale (some (side_name a ++ b'\n' ∷ [])) ≡ (side_name a, err_success)
unfolding read_mode cut_line strchr cstr
read_mode-line stale cache_side = refl
read_mode-line stale frequency_side = refl

module _ (k : Kernel) (path : Bytes) (node : IsNode k path) where
  read_line :
      (a : Side) (m : Machine k)
      → node.Shows a m.kernel
      → k.read_file path 31 m.kernel ≡ some (side_name a ++ b'\n' ∷ [])
  read_line cache_side m shows = node.read_shows cache_side 31 m.kernel shows
  read_line frequency_side m shows = node.read_shows frequency_side 31 m.kernel shows

  -- The mode that the node shows is read without its newline, and the path is kept.
  pub mode-shown :
      (stale : Bytes) (a : Side) (m : Machine k)
      → find_path k m ≡ some path
      → node.Shows a m.kernel
      → mode k 32 stale m ≡ (record m { x3d_path_cache = some path }, (side_name a, err_success))
  unfolding mode mode_at
  mode-shown stale a m e shows = rw e (
      ap (λ r. (record m { x3d_path_cache = some path }, read_mode stale r)) (read_line a m shows)
      ∙ ap (λ r. (record m { x3d_path_cache = some path }, r)) (read_mode-line stale a))

  set_mode-written :
      (a : Side) (m : Machine k)
      → find_path k m ≡ some path
      → (cli_set_mode k (side_name a) m).0 ≡ record m {
        kernel = (k.write_file wronly path (side_name a) m.kernel).0;
        x3d_path_cache = some path;
      }
  unfolding cli_set_mode set_mode_at cstr
  set_mode-written cache_side m e = rw e refl
  set_mode-written frequency_side m e = rw e refl

  -- A mode that is set is shown, and the path is kept.
  pub cli_set_mode-shows :
      (a : Side) (m : Machine k)
      → find_path k m ≡ some path
      → node.Shows a (cli_set_mode k (side_name a) m).0.kernel
        × (find_path k (cli_set_mode k (side_name a) m).0 ≡ some path)
  unfolding find_path
  cli_set_mode-shows a m e = rw (set_mode-written a m e) ((node.write_shows a m.kernel).1, refl)

  -- A mode is set without an error.
  pub cli_set_mode-succeeds :
      (a : Side) (m : Machine k)
      → find_path k m ≡ some path
      → (cli_set_mode k (side_name a) m).1 ≡ err_success
  unfolding cli_set_mode set_mode_at write_result cstr
  cli_set_mode-succeeds cache_side m e = rw (e, (node.write_shows cache_side m.kernel).0) refl
  cli_set_mode-succeeds frequency_side m e =
      rw (e, (node.write_shows frequency_side m.kernel).0) refl
