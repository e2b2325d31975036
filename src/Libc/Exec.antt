-- ===== src/Libc/Exec.antt =====
-- src/libc.c: `getenv` and `execvp`, on the entries of the environment.
use x3d_toggle_main.Prelude.{
  ℕ, ◌+◌, ◌≤◌, ◌<◌, ◌&&◌, ◌==◌, ltb, Option, none, some, List, [], ◌∷◌, ◌++◌, if◌then◌else◌, Bytes,
  codes, cstr, deref, drop, length, length-append, All, Bool-cases, inl, inr, arith,
}
use x3d_toggle_main.Libc.Strings.{strlen, strchr}
use x3d_toggle_main.Libc.Strings.Equal.{starts_with}
use x3d_toggle_main.Libc.Strings.Compare.{strlen-cstr}

unfoldable pub getenv : List Bytes → Bytes → Option Bytes
getenv [] name = none
getenv (e ∷ environ) name =
    let len = strlen (some name) in
    if starts_with e name && deref (drop len e) == b'='
    then some (drop (len + 1) e)
    else getenv environ name

abbrev cons_part : ℕ → List Bytes → List Bytes
cons_part c [] = (c ∷ []) ∷ []
cons_part c (part ∷ parts) = (c ∷ part) ∷ parts

-- the parts of `path` from `start` to `p`: a colon ends one, and no empty one follows the last colon
unfoldable pub path_parts : Bytes → List Bytes
path_parts [] = []
path_parts (c ∷ p) = if c == b':' then [] ∷ path_parts p else cons_part c (path_parts p)

-- the paths that `execve` is called with, a part that is too long left out
unfoldable pub candidates : List Bytes → Bytes → List Bytes
candidates [] file = []
candidates (start ∷ parts) file =
    let rest = candidates parts file in
    if ltb 4096 (length start + strlen (some file) + 2)
    then rest
    else (start ++ (b'/' ∷ cstr file)) ∷ rest

unfoldable pub search_path : Option Bytes → Bytes
search_path none = codes "/bin:/usr/bin"
search_path (some path) = cstr path

-- What is tried one after the other: where one succeeds the process goes on as that program, and
-- where all fail the result is -1.
unfoldable pub execvp : List Bytes → Bytes → List Bytes
execvp environ file = elim (strchr (some file) b'/') [
  | some _ ↦ file ∷ []
  | none ↦ candidates (path_parts (search_path (getenv environ (codes "PATH")))) file
]

-- Each path that is put together fits the 4096 bytes of the buffer with its NUL.
candidates_fit :
    (parts : List Bytes) (file : Bytes) → All (λ path. length path < 4096) (candidates parts file)
unfolding candidates
candidates_fit [] file = tt
candidates_fit (start ∷ parts) file =
    elim (Bool-cases (ltb 4096 (length start + strlen (some file) + 2))) [
      | inl big ↦ rw big (candidates_fit parts file)
      | inr fits ↦
          let bound : length start + length (cstr file) + 2 ≤ 4096 =
            ground (arith, fits, strlen-cstr file) in
          rw fits (
            omega (arith, bound, length-append start (b'/' ∷ cstr file)),
            candidates_fit parts file,
          )
    ]
