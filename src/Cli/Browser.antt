-- ===== src/Cli/Browser.antt =====
-- cli/internal/browser/browser.go. A command is the list of its name and arguments, and an ExecFunc
-- the error of running it, if any.
use postulate.Base.{String, Option, none, some, List, [], ◌∷◌, ◌==◌, text_Eq, if◌then◌else◌}
use postulate.Base.Result.{Error}

abbrev pub ExecFunc : Type 0
ExecFunc = List String → Option Error

-- The command by which Open shows a URL on a system.
unfoldable pub open_command : String → String → List String
open_command goos url =
    if goos == "darwin"
    then "open" ∷ url ∷ []
    else if goos == "windows"
    then "cmd" ∷ "/c" ∷ "start" ∷ url ∷ []
    else "xdg-open" ∷ url ∷ []

-- Open: `default_exec` stands in for a nil function.
unfoldable pub open_url : ExecFunc → String → String → Option ExecFunc → Option Error
unfolding open_command
open_url default_exec goos url fn = elim fn [
  | none ↦ default_exec (open_command goos url)
  | some run ↦ run (open_command goos url)
]

-- OpenOrPrint: the URL that is printed, if any.
unfoldable pub open_or_print : ExecFunc → String → String → Option ExecFunc → Option String
unfolding open_url
open_or_print default_exec goos url fn = elim (open_url default_exec goos url fn) [
  | none ↦ none
  | some e ↦ some url
]
