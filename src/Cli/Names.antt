-- ===== src/Cli/Names.antt =====
-- Which handler a name on the command line runs.
use x3d_toggle_main.Prelude.{
  ◌≡◌, ◌≢◌, ◌⊎◌, refl, sym, ap, ◌∙◌, true, false, inl, inr, Bool, not, ◌&&◌, ◌||◌, ◌==◌, ==_iff,
  List, [], ◌∷◌, Bytes, codes, drop, Bool-cases, arith,
}
use x3d_toggle_main.Libc.Strings.{strcmp, strstr}
use x3d_toggle_main.Libc.Strings.Equal.{str_eq}
use x3d_toggle_main.Cli.Table.{
  Handler, misc_fallback, Command, cmd_table, handler_id, handler_id_inj,
}
use x3d_toggle_main.Cli.Dispatch.{
  search_table, find_command, is_help, Action, usage, help, call, call_found, daemon, is_alias,
}

abbrev pub Mem : Command → List Command → Type 0
Mem c [] = ⊥
Mem c (d ∷ ds) = (c ≡ d) ⊎ Mem c ds

abbrev holds_of : (Command → Bool) → List Command → Bool
holds_of test [] = true
holds_of test (c ∷ cs) = test c && holds_of test cs

holds_of_lem :
    (test : Command → Bool) (cs : List Command) (c : Command)
    → holds_of test cs ≡ true
    → Mem c cs
    → test c ≡ true
holds_of_lem test [] c h m = elim m [ ]
holds_of_lem test (d ∷ ds) c h (inl e) = ap test e ∙ ground (arith, h)
holds_of_lem test (d ∷ ds) c h (inr m) = holds_of_lem test ds c (ground (arith, h)) m

-- What the name alone does.
abbrev pub action_of : Bytes → Action
action_of name = daemon ([] ∷ (name ∷ []))

daemon_arguments :
    (program name : Bytes) (rest : List Bytes) → daemon (program ∷ (name ∷ rest)) ≡ action_of name
unfolding daemon
daemon_arguments program name rest = refl

abbrev calls : Action → Handler → Bool
calls usage h = false
calls help h = false
calls (call g) h = handler_id g == handler_id h

calls_sound : (a : Action) (h : Handler) → calls a h ≡ true → a ≡ call h
calls_sound usage h e = absurd (cc)
calls_sound help h e = absurd (cc)
calls_sound (call g) h e = ap call (handler_id_inj g h ((==_iff (handler_id g) (handler_id h)).0 e))

abbrev is_fallback : Handler → Bool
is_fallback h = handler_id h == handler_id misc_fallback

table_calls :
    holds_of (λ c. calls (action_of (codes c.name)) c.handler || is_fallback c.handler) cmd_table
    ≡ true
unfolding cmd_table handler_id daemon is_help str_eq strcmp find_command search_table call_found
table_calls = refl

-- Every entry of the table but that of `misc_fallback` is reached: its name, with any arguments
-- behind it, calls its handler. No earlier entry and no word for the help hides it.
pub daemon-Mem :
    (c : Command) (program : Bytes) (rest : List Bytes)
    → Mem c cmd_table
    → c.handler ≢ misc_fallback
    → daemon (program ∷ (codes c.name ∷ rest)) ≡ call c.handler
daemon-Mem c program rest m other =
    let a = action_of (codes c.name) in
    let e : (calls a c.handler || is_fallback c.handler) ≡ true =
      holds_of_lem (λ c. calls (action_of (codes c.name)) c.handler || is_fallback c.handler)
        cmd_table c table_calls m in
    daemon_arguments program (codes c.name) rest ∙ elim (Bool-cases (is_fallback c.handler)) [
      | inl f ↦ absurd (
          other (
            handler_id_inj c.handler misc_fallback
              ((==_iff (handler_id c.handler) (handler_id misc_fallback)).0 f)))
      | inr f ↦ calls_sound a c.handler (ground (arith, e, f))
    ]

-- the command that the help text of an alias names
abbrev pub named : Command → Bytes
named c = drop 10 (codes c.help)

same_action : Action → Action → Bool
same_action usage b = false
same_action help b = false
same_action (call g) b = calls b g

same_sound : (a b : Action) → same_action a b ≡ true → a ≡ b
unfolding same_action
same_sound usage b e = absurd (cc)
same_sound help b e = absurd (cc)
same_sound (call g) b e = sym (calls_sound b g e)

-- the entry whose help text names two commands, with a slash between them
abbrev pub is_elk : Command → Bool
is_elk c = str_eq (codes c.name) (codes "elk")

table_aliases :
    holds_of
      (λ c.
        (not (is_alias c) || is_elk c)
        || same_action (action_of (codes c.name)) (action_of (named c)))
      cmd_table
    ≡ true
unfolding cmd_table handler_id daemon is_help str_eq strcmp find_command search_table call_found
    is_alias strstr same_action
table_aliases = refl

-- An entry whose help text says that it is an alias does what the command does that the text
-- names, with any arguments, but for the entry "elk", whose text names two.
pub daemon-alias :
    (c : Command) (program : Bytes) (rest : List Bytes)
    → Mem c cmd_table
    → is_alias c ≡ true
    → is_elk c ≡ false
    → daemon (program ∷ (codes c.name ∷ rest)) ≡ daemon (program ∷ (named c ∷ rest))
daemon-alias c program rest m alias elk =
    let same = same_action (action_of (codes c.name)) (action_of (named c)) in
    let e : ((not (is_alias c) || is_elk c) || same) ≡ true =
      holds_of_lem
        (λ c.
          (not (is_alias c) || is_elk c)
          || same_action (action_of (codes c.name)) (action_of (named c)))
        cmd_table c table_aliases m in
    daemon_arguments program (codes c.name) rest
    ∙ same_sound (action_of (codes c.name)) (action_of (named c)) (ground (arith, e, alias, elk))
    ∙ sym (daemon_arguments program (named c) rest)
