-- ===== src/Config/RoundTrip.antt =====
-- `config_update` and then `config_load`, through a file that keeps what is written.
use x3d_toggle_main.Prelude.{
  ℕ, ◌-◌, ◌≤◌, ◌≡◌, ◌≢◌, refl, sym, ap, ◌∙◌, inl, inr, Bool, true, false, some, List, [], ◌∷◌, ◌||◌,
  Bytes, cstr, cstr_self, cstr-NoNul, NoNul, Lacks, take, take-all, length, All, All-append, arith,
  Bool-cases, ◌==◌,
}
use x3d_toggle_main.Lines.{split_lines, join_lines, cons_first}
use x3d_toggle_main.Lines.Walk.{split_lines-more}
use x3d_toggle_main.Kernel.{Kernel, IsRegular, wronly_trunc}
use x3d_toggle_main.Config.Fields.{Field, key_name, kind, affinity_level}
use x3d_toggle_main.Config.Update.{buffer_size, has_key, update_text, write_back, config_update}
use x3d_toggle_main.Config.Update.Laws.{
  setting, updated_lines, updated, update_text-updated, NoNul-split_lines,
}
use x3d_toggle_main.Config.Load.{
  same_field, Value, DaemonConfig, Reals, load_value, load_lines, load_text, reset,
  config_probe_capabilities, config_load,
}
use x3d_toggle_main.Config.Load.Find.{IsKey-key_name}
use x3d_toggle_main.Config.Load.Assign.{load_lines-updated}
use x3d_toggle_main.Config.Load.Others.{load_lines-others}

abbrev pub OneLine : Bytes → Type 0
OneLine = Lacks b'\n'

-- Lines that hold no newline come back from the text that they make up.
split_lines-join : (ls : List Bytes) → All OneLine ls → split_lines (join_lines ls) ≡ ls
unfolding join_lines
split_lines-join [] h = unfold split_lines in refl
split_lines-join (l ∷ ls) (hl, h) =
    split_lines-more l (join_lines ls) hl ∙ ap (λ t. l ∷ t) (split_lines-join ls h)

OneLine-split_lines : (s : Bytes) → All OneLine (split_lines s)
unfolding split_lines
OneLine-split_lines [] = tt
OneLine-split_lines (c ∷ s) = elim (Bool-cases (c == b'\n')) [
  | inl newline ↦ rw newline (tt, OneLine-split_lines s)
  | inr other ↦ rw other (first c (split_lines s) (ground arith) (OneLine-split_lines s))
]
  where
    first : (c : ℕ) (ls : List Bytes) → c ≢ b'\n' → All OneLine ls → All OneLine (cons_first c ls)
    first c [] hc h = omega arith
    first c (l ∷ ls) hc (hl, h) = ((hc, hl), h)

-- The updated lines hold `P` where the old ones and the setting do.
updated_lines-All {ℓ} :
    (P : Bytes → Type ℓ) (key val : Bytes) (lines : List Bytes) (found : Bool)
    → P (setting key val)
    → All P lines
    → All P (updated_lines key val lines found)
unfolding updated_lines
updated_lines-All P key val [] true hs h = tt
updated_lines-All P key val [] false hs h = (hs, tt)
updated_lines-All P key val (ln ∷ lines) found hs (hn, h) = elim (Bool-cases (has_key key ln)) [
  | inl hit ↦ rw hit (hs, updated_lines-All P key val lines (found || true) hs h)
  | inr miss ↦ rw miss (hn, updated_lines-All P key val lines (found || false) hs h)
]

NoNul-join : (ls : List Bytes) → All NoNul ls → NoNul (join_lines ls)
unfolding join_lines
NoNul-join [] h = tt
NoNul-join (l ∷ ls) (hl, h) =
    All-append _ l (b'\n' ∷ join_lines ls) hl (omega arith, NoNul-join ls h)

module _ (f : Field) (val buf : Bytes) (nul : NoNul val) (line : OneLine val) where
  key_setting : NoNul (setting (key_name f) val) × OneLine (setting (key_name f) val)
  key_setting =
      let k = IsKey-key_name f in
      (
        All-append _ (key_name f) (b'=' ∷ val) k.no_nul (omega arith, nul),
        All-append _ (key_name f) (b'=' ∷ val) k.no_newline (omega arith, line),
      )

  old_NoNul : All NoNul (split_lines (cstr buf))
  old_NoNul = NoNul-split_lines (cstr buf) (cstr-NoNul buf)

  -- The text that is written is read back as the updated lines.
  split_lines-updated :
      split_lines (cstr (updated (key_name f) val buf))
      ≡ updated_lines (key_name f) val (split_lines (cstr buf)) false
  unfolding updated
  split_lines-updated =
      let old = split_lines (cstr buf) in
      let new = updated_lines (key_name f) val old false in
      let nn = updated_lines-All NoNul (key_name f) val old false key_setting.0 old_NoNul in
      let on =
        updated_lines-All OneLine (key_name f) val old false key_setting.1
          (OneLine-split_lines (cstr buf)) in
      ap split_lines (cstr_self (join_lines new) (NoNul-join new nn)) ∙ split_lines-join new on

config_update-read :
    (k : Kernel) (path key val : Bytes) (s : k.State) (c : ℕ) (buf : Bytes)
    → k.read_file path (buffer_size - 1) s ≡ some (c ∷ buf)
    → config_update k path key val s
      ≡ (k.write_file wronly_trunc path (update_text key val (c ∷ buf)) s).0
unfolding config_update write_back
config_update-read k path key val s c buf e = ap (λ r. write_back k path key val r s) e

config_load-read :
    (reals : Reals) (k : Kernel) (path : Bytes) (build : Field → Value reals.Real) (s : k.State)
    (cfg : DaemonConfig reals.Real) (buf : Bytes)
    → k.read_file path 4095 s ≡ some buf
    → config_load reals k path build s cfg
      ≡ load_lines reals
          (reset reals build (config_probe_capabilities reals k s cfg))
          (split_lines (cstr buf))
unfolding config_load load_text
config_load-read reals k path build s cfg buf e = ap (load_text reals _) e

-- The configuration file, a kernel that keeps it, and a setting that fits the 4095 bytes which
-- `config_load` reads.
module _ (reals : Reals) (k : Kernel) (path : Bytes) (file : IsRegular k path) (s : k.State) (c : ℕ)
    (rest : Bytes) (holds : file.Holds (c ∷ rest) s) (f : Field) (val : Bytes) (nul : NoNul val)
    (line : OneLine val)
    (fits : length (updated (key_name f) val (take (buffer_size - 1) (c ∷ rest))) ≤ 4095) where
  open reals use {Real}

  old : Bytes
  old = take (buffer_size - 1) (c ∷ rest)

  new : Bytes
  new = updated (key_name f) val old

  -- The file holds the updated text.
  update-holds : file.Holds new (config_update k path (key_name f) val s)
  unfolding old new
  update-holds =
      let read = file.read_holds (c ∷ rest) (buffer_size - 1) s holds in
      let buf = take (buffer_size - 2) rest in
      let whole : update_text (key_name f) val (c ∷ buf) ≡ updated (key_name f) val (c ∷ buf) =
        update_text-updated (key_name f) val (c ∷ buf) (IsKey-key_name f).no_nul nul
          (omega arith) in
      rw (config_update-read k path (key_name f) val s c buf read, whole)
        (file.write_holds (c ∷ rest) (updated (key_name f) val (c ∷ buf)) s holds)

  -- `config_load` reads the updated lines.
  load-update :
      (build : Field → Value Real) (cfg : DaemonConfig Real)
      → config_load reals k path build (config_update k path (key_name f) val s) cfg
        ≡ load_lines reals
            (reset reals build
              (config_probe_capabilities reals k (config_update k path (key_name f) val s) cfg))
            (updated_lines (key_name f) val (split_lines (cstr old)) false)
  unfolding new
  load-update build cfg =
      let after = config_update k path (key_name f) val s in
      let read : k.read_file path 4095 after ≡ some new =
        file.read_holds new 4095 after update-holds
        ∙ ap some (take-all 4095 new (unfold old in fits)) in
      let lines = split_lines-updated f val old nul line in
      config_load-read reals k path build after cfg new read ∙ ap (load_lines reals _) lines

  -- Let the configuration file hold a non-empty text, and let the value hold no NUL and no newline.
  -- If the text that `config_update` makes of the first 8191 bytes of the file for the key of a
  -- field other than AFFINITY_LEVEL has at most 4095 bytes, then `config_load` after
  -- `config_update` gives that field what the value is read as, whatever the file said before.
  pub config_load-config_update :
      (loaded : same_field f affinity_level ≡ false) (build : Field → Value Real)
      (cfg : DaemonConfig Real)
      → (config_load reals k path build (config_update k path (key_name f) val s) cfg).field f
        ≡ load_value reals (kind f) val
  config_load-config_update loaded build cfg =
      ap (λ d. d.field f) (load-update build cfg)
      ∙ load_lines-updated reals f loaded (split_lines (cstr old)) _ val
          (old_NoNul f val old nul line)

  reset-other :
      (build : Field → Value Real) (s1 s2 : k.State) (cfg : DaemonConfig Real) (g : Field)
      → (reset reals build (config_probe_capabilities reals k s1 cfg)).field g
        ≡ (reset reals build (config_probe_capabilities reals k s2 cfg)).field g
  unfolding reset config_probe_capabilities
  reset-other build s1 s2 cfg g = refl

  -- Under the same conditions, and if the old file has at most 4095 bytes, `config_load` after
  -- `config_update` for the key of a field gives every other field the value that `config_load`
  -- gives it without the update.
  pub config_load-config_update_others :
      (loaded : same_field f affinity_level ≡ false) (short : length (c ∷ rest) ≤ 4095)
      (build : Field → Value Real) (cfg : DaemonConfig Real) (g : Field)
      (differs : same_field g f ≡ false)
      → (config_load reals k path build (config_update k path (key_name f) val s) cfg).field g
        ≡ (config_load reals k path build s cfg).field g
  unfolding old
  config_load-config_update_others loaded short build cfg g differs =
      let whole : old ≡ c ∷ rest = take-all (buffer_size - 1) (c ∷ rest) (omega arith) in
      let read : k.read_file path 4095 s ≡ some old =
        file.read_holds (c ∷ rest) 4095 s holds
        ∙ ap some (take-all 4095 (c ∷ rest) short ∙ sym whole) in
      let after = config_update k path (key_name f) val s in
      ap (λ d. d.field g) (load-update build cfg)
      ∙ load_lines-others reals f g loaded differs (split_lines (cstr old))
          (reset reals build (config_probe_capabilities reals k after cfg))
          (reset reals build (config_probe_capabilities reals k s cfg)) val false
          (old_NoNul f val old nul line) (reset-other build after s cfg g)
      ∙ sym (ap (λ d. d.field g) (config_load-read reals k path build s cfg old read))
