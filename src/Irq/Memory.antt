-- ===== src/Irq/Memory.antt =====
-- A kernel in memory that has the masks of interrupts, to show that the assumptions on a kernel can
-- be met. Its commands do nothing.
use x3d_toggle_main.Prelude.{
  ◌≡◌, ◌≢◌, ℕ, refl, sym, ◌∙◌, Bool, true, false, none, some, [], ◌∷◌, ◌++◌, ◌==◌, if◌then◌else◌, ℤ,
  Bytes, deref, drop, take, arith,
}
use x3d_toggle_main.Kernel.{Kernel}
use x3d_toggle_main.Kernel.Memory.{bytes_eq, bytes_eq_refl, bytes_eq_apart, Files, node_kernel}
use x3d_toggle_main.Irq.Masks.{mask_path, orig_path}
use x3d_toggle_main.Irq.Nodes.{HasMasks}
use x3d_toggle_main.Irq.Bind.{irq_udev_rules, irq_balancer_state}
use x3d_toggle_main.Irq.Teardown.{IsQuiet}

-- whether the path starts with "/p", as those under /proc do
abbrev pub is_proc : Bytes → Bool
is_proc path = deref (drop 1 path) == b'p'

abbrev pub shown_text : Bytes → Bytes → Bytes
shown_text path content = if is_proc path then content ++ b'\n' ∷ [] else content

abbrev pub irq_kernel : Kernel
irq_kernel = record {
  State = Files;
  read_file = λ path n s. elim (s path) [
    | none ↦ none
    | some content ↦ some (take n (shown_text path content))
  ];
  read_fails = node_kernel.read_fails;
  write_file = node_kernel.write_file;
  access = node_kernel.access;
  unlink = node_kernel.unlink;
  geteuid = node_kernel.geteuid;
  spawn = node_kernel.spawn;
  system = node_kernel.system;
  mkdir = node_kernel.mkdir;
  read_chunks = node_kernel.read_chunks;
  list_dir = node_kernel.list_dir;
}

-- the state with one more file
abbrev pub with_file : Bytes → Bytes → Files → Files
with_file path new s = λ q. if bytes_eq q path then some new else s q

pub with_file_same : (path new : Bytes) (s : Files) → with_file path new s path ≡ some new
with_file_same path new s = ground (arith, bytes_eq_refl path)

pub with_file_other :
    (path other new : Bytes) (s : Files) → path ≢ other → with_file path new s other ≡ s other
with_file_other path other new s h = rw (bytes_eq_apart path other h) refl

mask_path-proc : (irq : ℤ) → is_proc (mask_path irq) ≡ true
unfolding mask_path
mask_path-proc irq = refl

orig_path-proc : (irq : ℤ) → is_proc (orig_path irq) ≡ false
unfolding orig_path
orig_path-proc irq = refl

apart_by_proc : (p q : Bytes) → is_proc p ≡ true → is_proc q ≡ false → p ≢ q
apart_by_proc p q hp hq e = let hp' : is_proc q ≡ true = rw e at hp in cc

pub orig-ne-mask : (i j : ℤ) → orig_path i ≢ mask_path j
orig-ne-mask i j e =
    apart_by_proc (mask_path j) (orig_path i) (mask_path-proc j) (orig_path-proc i) (sym e)

pub read_mask :
    (irq : ℤ) (mask : Bytes) (n : ℕ) (s : Files)
    → s (mask_path irq) ≡ some mask
    → irq_kernel.read_file (mask_path irq) n s ≡ some (take n (mask ++ b'\n' ∷ []))
read_mask irq mask n s h = rw (h, mask_path-proc irq) refl

pub read_orig :
    (irq : ℤ) (text : Bytes) (n : ℕ) (s : Files)
    → s (orig_path irq) ≡ some text
    → irq_kernel.read_file (orig_path irq) n s ≡ some (take n text)
read_orig irq text n s h = rw (h, orig_path-proc irq) refl

pub keep_other :
    (path other text new : Bytes) (s : Files)
    → path ≢ other
    → s other ≡ some text
    → with_file path new s other ≡ some text
keep_other path other text new s apart h = with_file_other path other new s apart ∙ h

pub unlink_keeps :
    (path other text : Bytes) (s : Files)
    → path ≢ other
    → s other ≡ some text
    → irq_kernel.unlink path s other ≡ some text
unlink_keeps path other text s apart h = rw (bytes_eq_apart path other apart) h

pub rules-ne-mask : (irq : ℤ) → irq_udev_rules ≢ mask_path irq
rules-ne-mask irq e = apart_by_proc (mask_path irq) irq_udev_rules (mask_path-proc irq) refl (sym e)

pub balancer-ne-mask : (irq : ℤ) → irq_balancer_state ≢ mask_path irq
balancer-ne-mask irq e =
    apart_by_proc (mask_path irq) irq_balancer_state (mask_path-proc irq) refl (sym e)

abbrev pub irq-HasMasks : HasMasks irq_kernel
irq-HasMasks = record {
  Shows = λ path mask s. s path ≡ some mask;
  Saved = λ path text s. s path ≡ some text;
  Accepts = λ mask. Unit;
  read_shows = λ irq mask n s h. read_mask irq mask n s h;
  write_shows = λ irq mask new s h a. with_file_same (mask_path irq) new s;
  write_other = λ irq other mask new s apart h.
      keep_other (mask_path irq) (mask_path other) mask new s apart h;
  write_saved = λ irq other text new s h.
      keep_other (mask_path irq) (orig_path other) text new s (λ e. orig-ne-mask other irq (sym e))
        h;
  read_saved = λ irq text n s h. read_orig irq text n s h;
  create_saved = λ irq text s. with_file_same (orig_path irq) text s;
  create_other = λ irq other text new s apart h.
      keep_other (orig_path irq) (orig_path other) text new s apart h;
  create_shows = λ irq other mask new s h.
      keep_other (orig_path irq) (mask_path other) mask new s (orig-ne-mask irq other) h;
  unlink_shows = λ irq other mask s h.
      unlink_keeps (orig_path irq) (mask_path other) mask s (orig-ne-mask irq other) h;
  unlink_other =
      λ irq other text s apart h. unlink_keeps (orig_path irq) (orig_path other) text s apart h;
}

abbrev pub irq-IsQuiet : IsQuiet irq_kernel irq-HasMasks
irq-IsQuiet = record {
  taskset_shows = λ irq mask token cores s h. h;
  reload_shows = λ irq mask s h. h;
  rules_shows =
      λ irq mask s h. unlink_keeps irq_udev_rules (mask_path irq) mask s (rules-ne-mask irq) h;
}
