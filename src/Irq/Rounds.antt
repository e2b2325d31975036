-- ===== src/Irq/Rounds.antt =====
-- What the rounds of `irq_watch` come to.
use x3d_toggle_main.Prelude.{
  ◌≡◌, ◌≢◌, refl, sym, ◌⊎◌, inl, inr, false, Option, none, some, List, [], ◌∷◌, ℤ, Bytes,
  Bool-cases, NoNul, All, arith,
}
use x3d_toggle_main.Libc.Strings.Equal.{str_eq, str_eq_exact}
use x3d_toggle_main.Kernel.{Kernel, wronly}
use x3d_toggle_main.Kernel.Memory.{bytes_eq, bytes_eq_refl, bytes_eq_sound}
use x3d_toggle_main.Irq.Config.{read_file_line, write_file}
use x3d_toggle_main.Irq.Masks.{mask_path}
use x3d_toggle_main.Irq.Nodes.{IsLine, HasMasks}
use x3d_toggle_main.Irq.Restore.{read_line_shown}
use x3d_toggle_main.Irq.Watch.{reassert, watch_list}

bytes-cases : (xs ys : Bytes) → (xs ≡ ys) ⊎ (xs ≢ ys)
bytes-cases xs ys = elim (Bool-cases (bytes_eq xs ys)) [
  | inl e ↦ inl (bytes_eq_sound xs ys e)
  | inr e ↦
      inr (λ h. let e' : bytes_eq ys ys ≡ false = rw h at e in ground (arith, e', bytes_eq_refl ys))
]

module _ (k : Kernel) (masks : HasMasks k) where
  open masks use {Shows, Accepts}

  -- A write of a mask to one interrupt leaves another as it is, or gives it that mask.
  write-Shows :
      (irq other : ℤ) (mask new : Bytes) (s : k.State)
      → Accepts new
      → Shows (mask_path other) mask s
      → (m : Bytes) × ((m ≡ mask) ⊎ (m ≡ new))
        × Shows (mask_path other) m (k.write_file wronly (mask_path irq) new s).0
  write-Shows irq other mask new s a h = elim (bytes-cases (mask_path irq) (mask_path other)) [
    | inr apart ↦ (mask, inl refl, masks.write_other irq other mask new s apart h)
    | inl same ↦ (new, inr refl, rw same (masks.write_shows other mask new s h a))
  ]

  -- The interrupt shows a mask of one line.
  abbrev pub ShowsLine : k.State → ℤ → Type 0
  ShowsLine s irq = (mask : Bytes) × IsLine mask × Shows (mask_path irq) mask s

  module _ (expected : Bytes) (line : IsLine expected) (accepts : Accepts expected) where
    reassert_self :
        (irq : ℤ) (s : k.State)
        → ShowsLine s irq
        → Shows
            (mask_path irq)
            expected
            (reassert k irq expected s (read_file_line k (mask_path irq) 64 s))
    unfolding reassert write_file
    reassert_self irq s (mask, good, h) =
        rw (read_line_shown k masks irq mask s h good) (elim (Bool-cases (str_eq mask expected)) [
          | inr e ↦ rw e (masks.write_shows irq mask expected s h accepts)
          | inl e ↦
              let same =
                (str_eq_exact mask expected (line-NoNul mask good.2) (line-NoNul expected line.2)).0
                  e in
              rw e (rw same at h)
        ])
      where
        line-NoNul : (l : Bytes) → All (λ c. (c ≢ 0) × (c ≢ b'\n') × (c ≢ b'\r')) l → NoNul l
        line-NoNul [] g = tt
        line-NoNul (c ∷ l) (g, gs) = (g.0, line-NoNul l gs)

    reassert-ShowsLine :
        (irq other : ℤ) (s : k.State) (o : Option Bytes)
        → ShowsLine s other
        → ShowsLine (reassert k irq expected s o) other
    unfolding reassert write_file
    reassert-ShowsLine irq other s none h = h
    reassert-ShowsLine irq other s (some current) (mask, good, h) =
        elim (Bool-cases (str_eq current expected)) [
          | inl e ↦ rw e (mask, good, h)
          | inr e ↦ rw e (either (write-Shows irq other mask expected s accepts h))
        ]
      where
        either :
            ((m : Bytes) × ((m ≡ mask) ⊎ (m ≡ expected))
              × Shows (mask_path other) m (k.write_file wronly (mask_path irq) expected s).0)
            → ShowsLine (k.write_file wronly (mask_path irq) expected s).0 other
        either (m, inl e, g) = (m, rw (sym e) at good, g)
        either (m, inr e, g) = (m, rw (sym e) at line, g)

    reassert_keeps :
        (irq other : ℤ) (s : k.State) (o : Option Bytes)
        → Shows (mask_path other) expected s
        → Shows (mask_path other) expected (reassert k irq expected s o)
    unfolding reassert write_file
    reassert_keeps irq other s none h = h
    reassert_keeps irq other s (some current) h = elim (Bool-cases (str_eq current expected)) [
      | inl e ↦ rw e h
      | inr e ↦ rw e (either (write-Shows irq other expected expected s accepts h))
    ]
      where
        either :
            ((m : Bytes) × ((m ≡ expected) ⊎ (m ≡ expected))
              × Shows (mask_path other) m (k.write_file wronly (mask_path irq) expected s).0)
            → Shows (mask_path other) expected (k.write_file wronly (mask_path irq) expected s).0
        either (m, inl e, g) = rw e at g
        either (m, inr e, g) = rw e at g

    watch_list_keeps :
        (irqs : List ℤ) (other : ℤ) (s : k.State)
        → Shows (mask_path other) expected s
        → Shows (mask_path other) expected (watch_list k expected irqs s)
    unfolding watch_list
    watch_list_keeps [] other s h = h
    watch_list_keeps (irq ∷ irqs) other s h =
        watch_list_keeps irqs other _ (reassert_keeps irq other s _ h)

    reassert-All :
        (irq : ℤ) (s : k.State) (o : Option Bytes) (irqs : List ℤ)
        → All (ShowsLine s) irqs
        → All (ShowsLine (reassert k irq expected s o)) irqs
    reassert-All irq s o [] h = tt
    reassert-All irq s o (j ∷ irqs) (h, hs) =
        (reassert-ShowsLine irq j s o h, reassert-All irq s o irqs hs)

    pub watch_list_lem :
        (irqs : List ℤ) (s : k.State)
        → All (ShowsLine s) irqs
        → All (λ irq. Shows (mask_path irq) expected (watch_list k expected irqs s)) irqs
    unfolding watch_list
    watch_list_lem [] s h = tt
    watch_list_lem (irq ∷ irqs) s (h, hs) = (
      watch_list_keeps irqs irq _ (reassert_self irq s h),
      watch_list_lem irqs _ (reassert-All irq s (read_file_line k (mask_path irq) 64 s) irqs hs),
    )
