-- ===== src/Status/Cut.antt =====
-- What the buffer of `daemon_status` takes of the answer to DAEMON_INFO.
use x3d_toggle_main.Prelude.{
  ℕ, ◌-◌, ◌≤◌, ◌<◌, ◌^◌, ◌≡◌, refl, sym, ap, ◌∙◌, Bool, true, false, ◌++◌, if◌then◌else◌, pos,
  Bytes, codes, take, length, take-all, length-append, append_assoc, arith,
}
use x3d_toggle_main.Libc.Bounded.{itoa}
use x3d_toggle_main.Libc.Bounded.Append.{take-append}
use x3d_toggle_main.Libc.Bounded.Decimal.{length-itoa}
use x3d_toggle_main.Status.Online.{answer_text}

flag : Bool → Bytes
flag b = if b then codes "1" else codes "0"

pub head_text : Bytes → ℕ → Bool → Bytes
unfolding flag
head_text st n bpf =
    codes "STATE="
    ++ (st
        ++ (codes "|OVERRIDE="
            ++ (itoa (pos n) ++ (codes "|BPF_ACTIVE=" ++ (flag bpf ++ codes "|")))))

length-flag : (b : Bool) → length (flag b) ≡ 1
unfolding flag
length-flag true = refl
length-flag false = refl

length-head :
    (st : Bytes) (n : ℕ) (bpf : Bool)
    → length st ≤ 31
    → n < 2 ^ 31
    → length (head_text st n bpf) ≤ 127
unfolding head_text
length-head st n bpf hs hn =
    let last = flag bpf ++ codes "|" in
    let d = codes "|BPF_ACTIVE=" ++ last in
    let c = itoa (pos n) ++ d in
    omega (
      arith,
      length-append st (codes "|OVERRIDE=" ++ c),
      length-append (itoa (pos n)) d,
      length-append (flag bpf) (codes "|"),
      length-flag bpf,
      length-itoa (pos n) hn,
    )

head-answer :
    (st tail : Bytes) (n : ℕ) (bpf : Bool) → head_text st n bpf ++ tail ≡ answer_text st n bpf tail
unfolding head_text flag
head-answer st tail n bpf =
    rw
      (
        append_assoc st
            (codes "|OVERRIDE="
              ++ (itoa (pos n)
                  ++ (codes "|BPF_ACTIVE="
                      ++ ((if bpf then codes "1" else codes "0") ++ codes "|"))))
            tail,
        append_assoc (itoa (pos n))
            (codes "|BPF_ACTIVE=" ++ ((if bpf then codes "1" else codes "0") ++ codes "|")) tail,
        append_assoc (if bpf then codes "1" else codes "0") (codes "|") tail,
      )
      refl

-- What a buffer of 127 bytes takes of the answer.
pub cut_answer :
    (st tail : Bytes) (n : ℕ) (bpf : Bool)
    → length st ≤ 31
    → n < 2 ^ 31
    → take 127 (answer_text st n bpf tail)
      ≡ answer_text st n bpf (take (127 - length (head_text st n bpf)) tail)
cut_answer st tail n bpf hs hn =
    let head = head_text st n bpf in
    ap (take 127) (sym (head-answer st tail n bpf))
    ∙ take-append 127 head tail
    ∙ ap (λ t. t ++ take (127 - length head) tail) (take-all 127 head (length-head st n bpf hs hn))
    ∙ head-answer st (take (127 - length head) tail) n bpf
