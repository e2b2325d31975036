-- ===== src/Cli/Dispatch.antt =====
-- src/cli/cli.c: `find_command`; src/toggle.c: the entry point of the command line, and its help.
use x3d_toggle_main.Prelude.{
  ℕ, ◌+◌, Bool, true, false, not, ◌&&◌, ◌||◌, Option, none, some, List, [], ◌∷◌, ◌==◌,
  if◌then◌else◌, String, Bytes, codes,
}
use x3d_toggle_main.Libc.Strings.{strstr}
use x3d_toggle_main.Libc.Strings.Equal.{str_eq}
use x3d_toggle_main.Libc.Bounded.{printf_s}
use x3d_toggle_main.Cli.Table.{
  Handler, config_generate, misc_fallback, Command, cmd_table, handler_id,
}

-- the loop of `find_command`
unfoldable pub search_table : List Command → Bytes → Option Command
search_table [] name = none
search_table (c ∷ cs) name =
    let rest = search_table cs name in if str_eq (codes c.name) name then some c else rest

unfoldable pub find_command : Option Bytes → Option Command
find_command none = none
find_command (some name) = search_table cmd_table name

unfoldable pub is_help : Bytes → Bool
is_help arg =
    str_eq arg (codes "-h")
    || str_eq arg (codes "--help")
    || str_eq arg (codes "-help")
    || str_eq arg (codes "help")
    || str_eq arg (codes "h")
    || str_eq arg (codes "--h")
    || str_eq arg (codes "manual")
    || str_eq arg (codes "book")
    || str_eq arg (codes "instructions")

-- What the entry point does: ERR_USAGE, the help, or the call of a handler, whose result it returns.
pub data Action : Type 0 where
  usage help : Action
  call : Handler → Action

unfoldable pub call_found : Option Command → Action
call_found none = call misc_fallback
call_found (some c) = call c.handler

unfoldable pub daemon : List Bytes → Action
daemon [] = usage
daemon (program ∷ []) = usage
daemon (program ∷ (arg ∷ rest)) =
    if is_help arg
    then help
    else if str_eq arg (codes "--gen-config")
    then call config_generate
    else call_found (find_command (some arg))

-- A heading of the help, or a command with its alias and its text.
pub data HelpLine : Type 0 where
  heading : String → HelpLine
  command : String → Bytes → String → HelpLine

-- the heading that stands above the command of an index
unfoldable pub heading_at : ℕ → List HelpLine → List HelpLine
heading_at i lines =
    if i == 0
    then heading "Daemon Control:" ∷ lines
    else if i == 5
    then heading "Topology & Thread Management:" ∷ lines
    else if i == 12
    then heading "Configuration & Rulesets:" ∷ lines
    else if i == 22
    then heading "Diagnostics:" ∷ lines
    else lines

-- the inner loop: the first other entry, from index `j` on, with the same handler
unfoldable pub alias_of : Handler → ℕ → ℕ → List Command → Bytes
alias_of h i j [] = []
alias_of h i j (c ∷ cs) =
    let rest = alias_of h i (j + 1) cs in
    if handler_id h == handler_id c.handler && not (i == j)
    then printf_s 64 (codes c.name)
    else rest

unfoldable pub is_alias : Command → Bool
is_alias c = elim (strstr (some (codes c.help)) (some (codes "Alias for"))) [
  | none ↦ false
  | some _ ↦ true
]

-- the outer loop, from index `i` on; the lines of the options behind it are the same for all
unfoldable pub help_from : List Command → ℕ → List HelpLine
help_from [] i = []
help_from (c ∷ cs) i =
    let rest = help_from cs (i + 1) in
    if is_alias c
    then rest
    else heading_at i (command c.name (alias_of c.handler i 0 cmd_table) c.help ∷ rest)

unfoldable pub printf_help : List HelpLine
printf_help = help_from cmd_table 0
