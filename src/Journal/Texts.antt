-- ===== src/Journal/Texts.antt =====
-- Which codes have a message.
use x3d_toggle_main.Prelude.{
  ℕ, zero, suc, ◌<◌, ◌≡◌, refl, inl, inr, Bool, true, false, not, ltb, ◌&&◌, ◌==◌, Option, none,
  some, ℤ, pos, negsuc, String, arith, Bool-cases,
}
use x3d_toggle_main.Journal.Registry.{Msg, registry_msg, registry_status, message, journal_get}

abbrev both : Option String → Option String → Bool
both (some _) (some _) = true
both _ _ = false

pub both_details : (s d : Option String) → both s d ≡ true → (t : String) × (d ≡ some t)
both_details (some s) (some d) h = (d, refl)
both_details (some s) none h = absurd (cc)
both_details none d h = absurd (cc)

-- Both texts of the message are there.
abbrev pub is_complete : Option Msg → Bool
is_complete none = false
is_complete (some msg) = both msg.summary msg.details

-- the place of ERR_INVALID_ARGS in the table
abbrev pub is_missing : ℤ → Bool
is_missing (pos n) = n == 38
is_missing (negsuc n) = n == 37

abbrev same : Bool → Bool → Bool
same true b = b
same false b = not b

same_sound : (a b : Bool) → same a b ≡ true → a ≡ b
same_sound true b h = ground (arith, h)
same_sound false b h = ground (arith, h)

-- whether a test holds of every number below `n`
abbrev every_below : (ℕ → Bool) → ℕ → Bool
every_below test zero = true
every_below test (suc n) = test n && every_below test n

every_below_lem : (test : ℕ → Bool) (n i : ℕ) → every_below test n ≡ true → i < n → test i ≡ true
every_below_lem test zero i h hi = absurd (omega arith)
every_below_lem test (suc n) i h hi = elim (Bool-cases (test n)) [
  | inl here ↦ elim (Bool-cases (i == n)) [
    | inl e ↦ ground (arith, here, e)
    | inr e ↦ every_below_lem test n i (ground (arith, h)) (ground (arith, e))
  ]
  | inr fails ↦ absurd (cc)
]

message-below : every_below (λ n. same (is_complete (message n)) (not (n == 38))) 49 ≡ true
unfolding message registry_msg
message-below = refl

status-below : every_below (λ n. is_complete (journal_get (pos n))) 18 ≡ true
unfolding message journal_get registry_status registry_msg
status-below = refl

message-above : (n : ℕ) → 48 < n → is_complete (message n) ≡ true
unfolding message registry_msg
message-above n h = ground (arith, h)

message-is_complete : (n : ℕ) → is_complete (message n) ≡ not (n == 38)
message-is_complete n = elim (Bool-cases (ltb n 49)) [
  | inl low ↦ same_sound (is_complete (message n)) (not (n == 38)) (
      every_below_lem (λ n. same (is_complete (message n)) (not (n == 38))) 49 n message-below
        (ground (arith, low)))
  | inr high ↦ ground (arith, high, message-above n)
]

positive-above : (n : ℕ) → 17 < n → journal_get (pos n) ≡ message n
unfolding journal_get registry_status
positive-above n h = ground (arith, h)

-- For every code, the message that journal_get finds has both its texts, with the one exception of
-- 38 and -38, where it has not.
pub journal_get-is_complete : (code : ℤ) → is_complete (journal_get code) ≡ not (is_missing code)
unfolding journal_get
journal_get-is_complete (pos n) = elim (Bool-cases (ltb n 18)) [
  | inl low ↦ ground (
    arith,
    low,
    every_below_lem (λ n. is_complete (journal_get (pos n))) 18 n status-below
        (ground (arith, low)),
  )
  | inr high ↦ ground (arith, high, positive-above n, message-is_complete n)
]
journal_get-is_complete (negsuc n) = ground (arith, message-is_complete (suc n))
