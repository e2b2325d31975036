-- ===== src/Journal/Deferred.antt =====
-- src/error.c: the warnings that are kept until the next flush. What printf_vsn makes of the details
-- of a message and of the arguments of journal_warn is the parameter `ctx`; the symbols of
-- build/xui.c are the record `Symbols`. The lines on the terminal and in the log are left out.
use x3d_toggle_main.Prelude.{
  ◌-◌, Bool, true, false, Option, none, some, List, [], ◌∷◌, ◌++◌, take, if◌then◌else◌, ℤ, pos,
  negsuc, suc, Bytes, codes, cstr, String,
}
use x3d_toggle_main.Libc.Strings.{strlen}
use x3d_toggle_main.Libc.Bounded.{printf_s, itoa}
use x3d_toggle_main.Journal.Registry.{journal_get}

-- the values of the symbols that the format names
pub record Symbols : Type 0 where
  pub color_yellow : Bytes
  pub color_reset : Bytes
  pub warn : Bytes

pub record Journal : Type 0 where
  pub buffer_active : Bool
  pub buffer_deferred : Bytes

unfoldable pub buffer_set : Journal → Journal
buffer_set j = record { buffer_active = true; buffer_deferred = [] }

-- `buffer_deferred[0] != '\0'`: the text that is printed under the heading
unfoldable pub printed : Bytes → Option Bytes
printed [] = none
printed (c ∷ text) = some (c ∷ text)

unfoldable pub buffer_flush : Journal → Journal × Option Bytes
buffer_flush j = (record { buffer_active = false; buffer_deferred = [] }, printed j.buffer_deferred)

-- `(int)code < 0 ? -(int)code : (int)code`
magnitude : ℤ → ℤ
magnitude (pos n) = pos n
magnitude (negsuc n) = pos (suc n)

-- the argument of "%s"
shown : Option String → Bytes
shown none = codes "(null)"
shown (some s) = cstr (codes s)

module _ (symbols : Symbols) where
  -- what `tmp` holds
  unfoldable pub deferred_text : ℤ → Option String → Bytes → Bytes
  unfolding magnitude shown
  deferred_text code summary ctx = cstr (
      take 2047 (
        codes "        "
        ++ symbols.color_yellow
        ++ symbols.warn
        ++ codes " [X3D-"
        ++ itoa (magnitude code)
        ++ codes "] "
        ++ shown summary
        ++ codes ": "
        ++ symbols.color_reset
        ++ cstr ctx
        ++ codes "\n"))

  -- `none` where the details are NULL, through which printf_vsn reads
  unfoldable pub journal_warn : ℤ → Bytes → Journal → Option Journal
  journal_warn code ctx j = elim (journal_get code) [
    | none ↦ none
    | some msg ↦ elim msg.details [
      | none ↦ none
      | some _ ↦
          let len = strlen (some j.buffer_deferred) in
          let tmp = deferred_text code msg.summary ctx in
          some (
            if j.buffer_active
            then record j { buffer_deferred = j.buffer_deferred ++ printf_s (4096 - len) tmp }
            else j)
    ]
  ]

  -- one call of `journal_warn` after the other, each with its code and its text
  unfoldable pub warn_all : List (ℤ × Bytes) → Journal → Option Journal
  warn_all [] j = some j
  warn_all ((code, ctx) ∷ ws) j = elim (journal_warn code ctx j) [
    | none ↦ none
    | some j' ↦ warn_all ws j'
  ]
