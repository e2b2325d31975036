-- ===== src/Irq/Restore.antt =====
-- A mask that `apply_affinity` saves comes back by `restore_affinity`, for one interrupt and for a
-- list of them.
use x3d_toggle_main.Prelude.{
  ◌≡◌, ◌≢◌, refl, ap, Option, none, some, [], ◌∷◌, ◌++◌, ℤ, Bytes, take, length-append, take-all,
  NoNul, cstr_self, All, arith,
}
use x3d_toggle_main.Libc.Bounded.{printf_d}
use x3d_toggle_main.Kernel.{Kernel, wronly}
use x3d_toggle_main.Irq.Config.{trim_eol, line_read, read_file_line, write_file}
use x3d_toggle_main.Irq.Masks.{
  mask_path, orig_path, save_original_mask, save_mask, apply_affinity, restore_mask,
  restore_affinity,
}
use x3d_toggle_main.Irq.Nodes.{IsLine, HasMasks}

abbrev NoEol : Bytes → Type 0
NoEol = All (λ c. (c ≢ 0) × (c ≢ b'\n') × (c ≢ b'\r'))

trim_eol_self : (line : Bytes) → NoEol line → trim_eol line ≡ line
unfolding trim_eol
trim_eol_self [] h = refl
trim_eol_self (c ∷ line) (hc, h) = ground (arith, trim_eol_self line h)

trim_eol-newline : (line : Bytes) → NoEol line → trim_eol (line ++ b'\n' ∷ []) ≡ line
unfolding trim_eol
trim_eol-newline [] h = refl
trim_eol-newline (c ∷ line) (hc, h) = ground (arith, trim_eol-newline line h)

NoEol-NoNul : (line : Bytes) → NoEol line → NoNul line
NoEol-NoNul [] h = tt
NoEol-NoNul (c ∷ line) (hc, h) = (hc.0, NoEol-NoNul line h)

line_read_saved : (line : Bytes) → IsLine line → line_read (some (take 63 line)) ≡ some line
unfolding line_read
line_read_saved [] h = absurd (h.0 refl)
line_read_saved (c ∷ line) (ne, short, h) =
    let e = take-all 63 (c ∷ line) (omega (arith, short)) in
    rw (e, trim_eol_self (c ∷ line) h) (ap some (cstr_self (c ∷ line) (NoEol-NoNul (c ∷ line) h)))

line_read_shown :
    (line : Bytes) → IsLine line → line_read (some (take 63 (line ++ b'\n' ∷ []))) ≡ some line
unfolding line_read
line_read_shown [] h = absurd (h.0 refl)
line_read_shown (c ∷ line) (ne, short, h) =
    let fits = length-append (c ∷ line) (b'\n' ∷ []) in
    let e = take-all 63 (c ∷ (line ++ b'\n' ∷ [])) (omega (arith, short, fits)) in
    rw (e, trim_eol-newline (c ∷ line) h)
      (ap some (cstr_self (c ∷ line) (NoEol-NoNul (c ∷ line) h)))

module _ (k : Kernel) (masks : HasMasks k) where
  open masks use {Shows, Saved, Accepts}

  pub read_line_shown :
      (irq : ℤ) (mask : Bytes) (s : k.State)
      → Shows (mask_path irq) mask s
      → IsLine mask
      → read_file_line k (mask_path irq) 64 s ≡ some mask
  unfolding read_file_line
  read_line_shown irq mask s shows line =
      rw (masks.read_shows irq mask 63 s shows) (line_read_shown mask line)

  read_line_saved :
      (irq : ℤ) (mask : Bytes) (s : k.State)
      → Saved (orig_path irq) mask s
      → IsLine mask
      → read_file_line k (orig_path irq) 64 s ≡ some mask
  unfolding read_file_line
  read_line_saved irq mask s saved line =
      rw (masks.read_saved irq mask 63 s saved) (line_read_saved mask line)

  pub apply-saves :
      (irq core : ℤ) (mask : Bytes) (s : k.State)
      → Shows (mask_path irq) mask s
      → IsLine mask
      → Accepts (printf_d 16 core)
      → Shows (mask_path irq) (printf_d 16 core) (apply_affinity k irq core s).0
        × Saved (orig_path irq) mask (apply_affinity k irq core s).0
  unfolding apply_affinity write_file save_original_mask save_mask
  apply-saves irq core mask s shows line accepts = rw (read_line_shown irq mask s shows line) (
    masks.write_shows irq mask (printf_d 16 core) _ (masks.create_shows irq irq mask mask s shows)
        accepts,
    masks.write_saved irq irq mask (printf_d 16 core) _ (masks.create_saved irq mask s),
  )

  pub restore-shows :
      (irq : ℤ) (now mask : Bytes) (s : k.State)
      → Shows (mask_path irq) now s
      → Saved (orig_path irq) mask s
      → IsLine mask
      → Accepts mask
      → Shows (mask_path irq) mask (restore_affinity k irq s)
  unfolding restore_affinity restore_mask write_file
  restore-shows irq now mask s shows saved line accepts =
      rw (read_line_saved irq mask s saved line)
        (masks.unlink_shows irq irq mask _ (masks.write_shows irq now mask s shows accepts))

  -- What binding one interrupt leaves alone of another, whose files are others.
  pub apply-other :
      (irq other core : ℤ) (mask text : Bytes) (s : k.State)
      → mask_path irq ≢ mask_path other
      → orig_path irq ≢ orig_path other
      → (Shows (mask_path other) mask s
          → Shows (mask_path other) mask (apply_affinity k irq core s).0)
        × (Saved (orig_path other) text s
            → Saved (orig_path other) text (apply_affinity k irq core s).0)
  unfolding apply_affinity write_file save_original_mask save_mask
  apply-other irq other core mask text s apart apart_orig =
      saving (read_file_line k (mask_path irq) 64 s)
    where
      saving :
          (o : Option Bytes)
          → (Shows (mask_path other) mask s
              → Shows
                  (mask_path other)
                  mask
                  (k.write_file wronly (mask_path irq) (printf_d 16 core) (save_mask k irq s o)).0)
            × (Saved (orig_path other) text s
                → Saved
                    (orig_path other)
                    text
                    (k.write_file wronly
                      (mask_path irq)
                      (printf_d 16 core)
                      (save_mask k irq s o)).0)
      saving none = (
        λ h. masks.write_other irq other mask _ s apart h,
        λ h. masks.write_saved irq other text _ s h,
      )
      saving (some line) = (
        λ h.
            masks.write_other irq other mask _ _ apart (masks.create_shows irq other mask line s h),
        λ h.
            masks.write_saved irq other text _ _
              (masks.create_other irq other text line s apart_orig h),
      )

  pub restore-other :
      (irq other : ℤ) (mask text : Bytes) (s : k.State)
      → mask_path irq ≢ mask_path other
      → orig_path irq ≢ orig_path other
      → (Shows (mask_path other) mask s → Shows (mask_path other) mask (restore_affinity k irq s))
        × (Saved (orig_path other) text s → Saved (orig_path other) text (restore_affinity k irq s))
  unfolding restore_affinity restore_mask write_file
  restore-other irq other mask text s apart apart_orig =
      restoring (read_file_line k (orig_path irq) 64 s)
    where
      restoring :
          (o : Option Bytes)
          → (Shows (mask_path other) mask s → Shows (mask_path other) mask (restore_mask k irq s o))
            × (Saved (orig_path other) text s
                → Saved (orig_path other) text (restore_mask k irq s o))
      restoring none = (λ h. h, λ h. h)
      restoring (some line) = (
        λ h. masks.unlink_shows irq other mask _ (masks.write_other irq other mask line s apart h),
        λ h.
            masks.unlink_other irq other text _ apart_orig
              (masks.write_saved irq other text line s h),
      )
