-- ===== src/Bot/Commands.antt =====
-- internal/bot/commands.go: the names of the commands and who may use them.
use thunder_go.Prelude.{
  Bool, true, false, ◌&&◌, ◌||◌, List, [], ◌∷◌, length, leb, ◌==◌, if◌then◌else◌,
}
use thunder_go.Prelude.Text.{Text, codes, is_lower, is_digit}

all_name : Text → Bool
unfolding is_lower is_digit
all_name [] = true
all_name (c ∷ s) = (is_lower c || (is_digit c || c == b'_')) && all_name s

-- Whether `validateCommandName` returns no error.
unfoldable pub validate_command_name : Text → Bool
unfolding all_name
validate_command_name name = all_name name && (leb 1 (length name) && leb (length name) 32)

-- A name, and whether the command is for the owner only.
abbrev pub Command : Type 0
Command = Text × Bool

abbrev builtin : List Command
builtin =
    (codes "start", false)
    ∷ (codes "help", false)
    ∷ (codes "ping", false)
    ∷ (codes "dc", false)
    ∷ (codes "link", false)
    ∷ (codes "about", false)
    ∷ (codes "ban", true)
    ∷ (codes "unban", true)
    ∷ (codes "broadcast", true)
    ∷ (codes "authorize", true)
    ∷ (codes "deauthorize", true)
    ∷ (codes "listauth", true)
    ∷ (codes "status", true)
    ∷ (codes "users", true)
    ∷ (codes "stats", true)
    ∷ (codes "log", true)
    ∷ (codes "restart", true)
    ∷ []

register_all : List Command → List Command
unfolding validate_command_name
register_all [] = []
register_all ((name, owner_only) ∷ cs) =
    let rest = register_all cs in
    if validate_command_name name then (name, owner_only) ∷ rest else rest

-- What the map of commands holds after `registerBuiltinCommands`.
unfoldable pub builtin_commands : List Command
unfolding register_all
builtin_commands = register_all builtin
