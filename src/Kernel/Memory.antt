-- ===== src/Kernel/Memory.antt =====
-- A kernel whose files are kept in memory, to run the program on and to show that the assumptions
-- on a kernel can be met.
use x3d_toggle_main.Prelude.{
  ℕ, ◌≡◌, ◌≢◌, refl, sym, inl, inr, Bool-cases, Bool, true, false, Option, none, some, [], ◌∷◌,
  ◌++◌, Bytes, codes, pos, negsuc, take, length, if◌then◌else◌, ◌&&◌, ◌==◌, arith,
}
use x3d_toggle_main.Kernel.{
  Kernel, wronly, wronly_trunc, IsRegular, IsNode, Side, cache_side, frequency_side, side_name,
}

abbrev pub bytes_eq : Bytes → Bytes → Bool
bytes_eq [] [] = true
bytes_eq (x ∷ xs) (y ∷ ys) = x == y && bytes_eq xs ys
bytes_eq _ _ = false

pub bytes_eq_refl : (xs : Bytes) → bytes_eq xs xs ≡ true
bytes_eq_refl [] = refl
bytes_eq_refl (x ∷ xs) = ground (arith, bytes_eq_refl xs)

pub bytes_eq_sound : (xs ys : Bytes) → bytes_eq xs ys ≡ true → xs ≡ ys
bytes_eq_sound [] [] h = refl
bytes_eq_sound [] (y ∷ ys) h = absurd (cc)
bytes_eq_sound (x ∷ xs) [] h = absurd (cc)
bytes_eq_sound (x ∷ xs) (y ∷ ys) h =
    let e : xs ≡ ys = bytes_eq_sound xs ys (ground (arith, h)) in ground (arith, h, e)

pub bytes_eq_apart : (xs ys : Bytes) → xs ≢ ys → bytes_eq ys xs ≡ false
bytes_eq_apart xs ys h = elim (Bool-cases (bytes_eq ys xs)) [
  | inl e ↦ absurd (h (sym (bytes_eq_sound ys xs e)))
  | inr e ↦ e
]

abbrev pub Files : Type 0
Files = Bytes → Option Bytes

-- Every file that exists may be read and written; a write sets the whole content.
abbrev pub memory_kernel : Kernel
memory_kernel = record {
  State = Files;
  read_file = λ path n s. elim (s path) [ none ↦ none | some content ↦ some (take n content) ];
  read_fails = λ path s. false;
  write_file = λ flags path new s. elim (s path) [
    | none ↦ (s, none)
    | some _ ↦ ((λ q. if bytes_eq q path then some new else s q), some (pos (length new)))
  ];
  access = λ _ path s. elim (s path) [ none ↦ false | some _ ↦ true ];
  unlink = λ path s q. if bytes_eq q path then none else s q;
  geteuid = λ s. 0;
  spawn = λ args s. (s, some true);
  system = λ cmd s. (s, some 0);
  mkdir = λ path s. (s, true);
  read_chunks =
      λ path n s. elim (s path) [ none ↦ none | some content ↦ some (take n content ∷ []) ];
  list_dir = λ path s. none;
}

pub memory_read :
    (path content : Bytes) (n : ℕ) (s : Files)
    → s path ≡ some content
    → memory_kernel.read_file path n s ≡ some (take n content)
memory_read path content n s h = ground (arith, h)

pub memory_write :
    (path content new : Bytes) (s : Files)
    → s path ≡ some content
    → (memory_kernel.write_file wronly_trunc path new s).0 path ≡ some new
memory_write path content new s h = ground (arith, h, bytes_eq_refl path)

abbrev pub memory-IsRegular : (path : Bytes) → IsRegular memory_kernel path
memory-IsRegular path = record {
  Holds = λ content s. s path ≡ some content;
  read_holds = λ content n s. memory_read path content n s;
  write_holds = λ content new s. memory_write path content new s;
}

-- A kernel in which every path is a node that takes what is written to it.
abbrev pub node_kernel : Kernel
node_kernel = record {
  State = Files;
  read_file = memory_kernel.read_file;
  read_fails = memory_kernel.read_fails;
  write_file = λ flags path new s.
      ((λ q. if bytes_eq q path then some new else s q), some (pos (length new)));
  access = memory_kernel.access;
  unlink = memory_kernel.unlink;
  geteuid = λ s. 0;
  spawn = λ args s. (s, some true);
  system = λ cmd s. (s, some 0);
  mkdir = λ path s. (s, true);
  read_chunks =
      λ path n s. elim (s path) [ none ↦ none | some content ↦ some (take n content ∷ []) ];
  list_dir = λ path s. none;
}

-- the mode that a text names
abbrev side_of : Bytes → Option Side
side_of text =
    if bytes_eq text (codes "cache")
    then some cache_side
    else if bytes_eq text (codes "frequency")
    then some frequency_side
    else none

-- A kernel in which every path is a node of the driver: a write of anything but the name of a mode
-- fails and changes nothing.
abbrev pub x3d_kernel : Kernel
x3d_kernel = record node_kernel {
  write_file = λ flags path new s. elim (side_of new) [
    | none ↦ (s, some (negsuc 0))
    | some a ↦ (
      (λ q. if bytes_eq q path then some (side_name a ++ b'\n' ∷ []) else s q),
      some (pos (length new)),
    )
  ];
}

pub x3d_write :
    (path : Bytes) (a : Side) (s : Files)
    → ((x3d_kernel.write_file wronly path (side_name a) s).1 ≡ some (pos (length (side_name a))))
      × ((x3d_kernel.write_file wronly path (side_name a) s).0 path
          ≡ some (side_name a ++ b'\n' ∷ []))
x3d_write path cache_side s = (refl, ground (arith, bytes_eq_refl path))
x3d_write path frequency_side s = (refl, ground (arith, bytes_eq_refl path))

abbrev pub x3d-IsNode : (path : Bytes) → IsNode x3d_kernel path
x3d-IsNode path = record {
  Shows = λ a s. s path ≡ some (side_name a ++ b'\n' ∷ []);
  read_shows = λ a n s. memory_read path (side_name a ++ b'\n' ∷ []) n s;
  write_shows = λ a s. x3d_write path a s;
}
