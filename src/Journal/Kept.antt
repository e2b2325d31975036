-- ===== src/Journal/Kept.antt =====
-- What is kept of the warnings between `buffer_set` and `buffer_flush`.
use x3d_toggle_main.Prelude.{
  ◌-◌, ◌≡◌, refl, sym, true, false, Option, none, some, List, [], ◌∷◌, ◌++◌, take, length,
  length-take, All, ℤ, Bytes, cstr_self, cstr-NoNul, NoNul, String, append-nil, append_assoc, arith,
}
use mathlib.Core.Option.{map}
use x3d_toggle_main.Libc.Strings.Compare.{strlen-cstr}
use x3d_toggle_main.Libc.Strings.{strlen}
use x3d_toggle_main.Libc.Bounded.{printf_s}
use x3d_toggle_main.Libc.Bounded.Append.{take-append, NoNul-take}
use x3d_toggle_main.Journal.Registry.{Msg, journal_get, journal_string}
use x3d_toggle_main.Journal.Texts.{both_details, is_complete, is_missing, journal_get-is_complete}
use x3d_toggle_main.Journal.Deferred.{
  Symbols, Journal, buffer_set, buffer_flush, printed, deferred_text, journal_warn, warn_all,
}

module _ (symbols : Symbols) where
  abbrev pub texts : List (ℤ × Bytes) → Bytes
  texts [] = []
  texts ((code, ctx) ∷ ws) = deferred_text symbols code (journal_string code) ctx ++ texts ws

  abbrev keeping : Bytes → Journal
  keeping text = record { buffer_active = true; buffer_deferred = take 4095 text }

  -- Appending to a text cut at 4095 bytes cuts the longer text there.
  append_kept :
      (acc tmp : Bytes)
      → NoNul acc
      → NoNul tmp
      → take 4095 acc ++ printf_s (4096 - strlen (some (take 4095 acc))) tmp
        ≡ take 4095 (acc ++ tmp)
  unfolding printf_s
  append_kept acc tmp ha ht =
      let room : 4096 - length (take 4095 acc) - 1 ≡ 4095 - length acc =
        omega (arith, length-take 4095 acc) in
      rw
        (
          strlen-cstr (take 4095 acc),
          cstr_self (take 4095 acc) (NoNul-take 4095 acc ha),
          cstr_self tmp ht,
          room,
        )
        (sym (take-append 4095 acc tmp))

  deferred_text-NoNul :
      (code : ℤ) (summary : Option String) (ctx : Bytes)
      → NoNul (deferred_text symbols code summary ctx)
  unfolding deferred_text
  deferred_text-NoNul code summary ctx = cstr-NoNul _

  warn_message :
      (code : ℤ) (ctx acc : Bytes) (msg : Msg) (details : String)
      → journal_get code ≡ some msg
      → msg.details ≡ some details
      → NoNul acc
      → journal_warn symbols code ctx (keeping acc)
        ≡ some (keeping (acc ++ deferred_text symbols code (journal_string code) ctx))
  unfolding journal_warn journal_string
  warn_message code ctx acc msg details e ed h = rw (
    journal_warn,
    journal_string,
    e,
    ed,
    append_kept acc (deferred_text symbols code msg.summary ctx) h
        (deferred_text-NoNul code msg.summary ctx),
  )

  journal_warn-keeping :
      (code : ℤ) (ctx acc : Bytes)
      → NoNul acc
      → is_missing code ≡ false
      → journal_warn symbols code ctx (keeping acc)
        ≡ some (keeping (acc ++ deferred_text symbols code (journal_string code) ctx))
  journal_warn-keeping code ctx acc h there =
      let full : is_complete (journal_get code) ≡ true =
        ground (arith, journal_get-is_complete code, there) in
      go (journal_get code) refl full
    where
      go :
          (found : Option Msg)
          → journal_get code ≡ found
          → is_complete found ≡ true
          → journal_warn symbols code ctx (keeping acc)
            ≡ some (keeping (acc ++ deferred_text symbols code (journal_string code) ctx))
      go none e c = absurd (cc)
      go (some msg) e c =
          let d = both_details msg.summary msg.details c in
          warn_message code ctx acc msg d.0 e d.1 h

  NoNul-append : (xs ys : Bytes) → NoNul xs → NoNul ys → NoNul (xs ++ ys)
  NoNul-append [] ys hx hy = hy
  NoNul-append (x ∷ xs) ys (h, hx) hy = (h, NoNul-append xs ys hx hy)

  warn_all-keeping :
      (ws : List (ℤ × Bytes)) (acc : Bytes)
      → NoNul acc
      → All (λ w. is_missing w.0 ≡ false) ws
      → warn_all symbols ws (keeping acc) ≡ some (keeping (acc ++ texts ws))
  unfolding warn_all
  warn_all-keeping [] acc h hs = rw (append-nil acc)
  warn_all-keeping ((code, ctx) ∷ ws) acc h (there, hs) =
      let text = deferred_text symbols code (journal_string code) ctx in
      let rest =
        warn_all-keeping ws (acc ++ text)
          (NoNul-append acc text h (deferred_text-NoNul code (journal_string code) ctx)) hs in
      rw (
        warn_all,
        journal_warn-keeping code ctx acc h there,
        rest,
        append_assoc acc text (texts ws),
      )

  -- After buffer_set and any calls of journal_warn with codes that have a message, in whatever state
  -- the journal was before, no call faults, and buffer_flush prints the texts of all the warnings in
  -- their order, cut at 4095 bytes, and leaves the journal switched off and empty.
  pub buffer_flush-warn_all :
      (ws : List (ℤ × Bytes)) (j : Journal)
      → All (λ w. is_missing w.0 ≡ false) ws
      → map buffer_flush (warn_all symbols ws (buffer_set j))
        ≡ some
            (record { buffer_active = false; buffer_deferred = [] }, printed (take 4095 (texts ws)))
  unfolding buffer_set buffer_flush
  buffer_flush-warn_all ws j h = rw (warn_all-keeping ws [] tt h)
