-- ===== src/Shell/Requests.antt =====
-- kernel/shell.cpp: the commands that call the scheduler's, the cluster's and the jobs' parts.
use quillos.Prelude.{
  ℕ, Option, none, some, List, [], ◌∷◌, get_or, ◌==◌, if◌then◌else◌, ◌>>=◌, length, ◌+◌,
}
use quillos.Processes.{parse_type}
use quillos.Processes.Types.{ProcType}
use quillos.Jobs.Types.{JobType}
use quillos.Shell.Types.{
  Shell, Call, call_spawn, call_spawn_on, call_submit_job, call_submit, call_set_bg_color,
  call_clear,
}
use quillos.Shell.Lines.{
  is_digit, split_word, read_number, skip_spaces, node_address, rjob_values, run_values,
  array_bytes, job_type_named, is_empty,
}
use quillos.Shell.Names.{color_named}
use quillos.Shell.Commands.{Outcome, quiet}

-- The node that `spawn` names, or 0.
abbrev pub spawn_target : List ℕ → ℕ
spawn_target text = if is_digit (get_or text 0 0) then node_address (read_number 0 text).0 else 0

abbrev pub spawn_call : List ℕ → ℕ → Option ProcType → List Call
spawn_call kind target none = []
spawn_call kind target (some _) =
    if target == 0 then call_spawn kind ∷ [] else call_spawn_on kind target ∷ []

-- The job that `rjob` sends: type 1 is the sum.
abbrev pub rjob_call : ℕ → List ℕ → List Call
rjob_call last [] = []
rjob_call last (v ∷ vs) = call_submit_job (node_address last) 1 (array_bytes (v ∷ vs)) ∷ []

abbrev pub run_call : JobType → List ℕ → List Call
run_call kind [] = []
run_call kind (v ∷ vs) = call_submit kind (array_bytes (v ∷ vs)) ∷ []

module _ {D : Type 0} where
  unfoldable pub spawn_command : Shell D → List ℕ → Outcome D
  spawn_command s arg =
      let parts = split_word 15 arg in
      if is_empty arg
      then quiet s
      else some (s, spawn_call parts.0 (spawn_target parts.1) (parse_type parts.0))

  -- `kill`, `readsec` and `hexdump`, with what each calls on its number.
  abbrev pub with_number : (ℕ → Call) → Shell D → List ℕ → Outcome D
  with_number call s arg =
      if is_empty arg then quiet s else some (s, call (read_number 0 arg).0 ∷ [])

  unfoldable pub rjob_command : Shell D → List ℕ → Outcome D
  rjob_command s arg =
      let r = read_number 0 arg in
      if is_empty arg then quiet s else some (s, rjob_call r.0 (rjob_values 16 (skip_spaces r.1)))

  -- A loop that takes more rounds than there are bytes makes no progress in one of them, and so does
  -- not end.
  abbrev pub run_typed : Shell D → List ℕ → Option JobType → Outcome D
  run_typed s text none = quiet s
  run_typed s text (some kind) = do
    values ← run_values (length text + 1) 32 text
    some (s, run_call kind values)

  unfoldable pub run_command : Shell D → List ℕ → Outcome D
  run_command s arg =
      let parts = split_word 15 arg in
      if is_empty arg then quiet s else run_typed s parts.1 (job_type_named parts.0)

  -- On the value of the colour that is named, if it is one.
  abbrev pub set_color : Shell D → Option ℕ → Outcome D
  set_color s none = quiet s
  set_color s (some c) = some (s, call_set_bg_color c ∷ call_clear ∷ [])

  unfoldable pub color_command : Shell D → List ℕ → Outcome D
  color_command s arg = set_color s (color_named arg)
