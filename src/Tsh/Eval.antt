-- ===== src/Tsh/Eval.antt =====
-- eval and builtin_command of tshlab-s20-bhxxzp/tsh.c, on the side of the shell: what the child does
-- after the fork (setpgid, redirection, execve) is left out. Whether a file can be opened, what fork
-- gives the parent and which signals are handled where they are unblocked are arguments.
pub mod Safety
use cmu.Common.{ℕ, zero, suc, Bool, true, false, Option, none, some, List, [], ◌∷◌, if◌then◌else◌}
use cmu.Common.Int.{ℤ, pos}
use cmu.Parse.{Builtin, Tokens, Parsed, parsed, empty, error, parseline}
use cmu.Jobs.{
  Text, JobState, Mask, Effect, opened, started, Shell, Outcome, exited, ok, M, pure, ◌>>=◌, ◌>>◌,
  add_job, job_from_pid, list_jobs,
}
use cmu.Tsh.{Signal, Arrivals, deliver, block_all, set_mask, emit, wait_fg, do_bgfg}

-- `sigemptyset`
abbrev pub unblocked : Mask
unblocked = record { chld = false; int = false; tstp = false }

abbrev pub get_mask : M Mask
get_mask s = ok s.mask s

-- `argv[1]`
abbrev pub second : List Text → Option Text
second [] = none
second (name ∷ []) = none
second (name ∷ arg ∷ rest) = some arg

unfoldable pub print_jobs : M (Option Bool)
print_jobs = do prev ← block_all; list_jobs; set_mask prev; pure (some true)

unfoldable pub run_bgfg : JobState → List Text → Arrivals → M (Option Bool)
run_bgfg state argv arrivals = do
  prev ← get_mask
  done ← do_bgfg state (second argv) arrivals
  if done then (set_mask prev >> pure (some true)) else pure none

unfoldable pub jobs_to : (can_open : Bool) → Option Text → M (Option Bool)
jobs_to can_open none = print_jobs
jobs_to can_open (some file) =
    emit (opened file can_open) >> (if can_open then print_jobs else pure (some true))

-- `none` while the command still waits for a foreground job.
unfoldable pub builtin_command : (can_open : Bool) → Arrivals → Builtin → Tokens → M (Option Bool)
builtin_command can_open arrivals Builtin.quit t = λ s. exited
builtin_command can_open arrivals Builtin.bg t = run_bgfg JobState.bg t.argv arrivals
builtin_command can_open arrivals Builtin.fg t = run_bgfg JobState.fg t.argv arrivals
builtin_command can_open arrivals Builtin.no_builtin t = do
  prev ← get_mask
  set_mask prev
  pure (some false)
builtin_command can_open arrivals Builtin.jobs t = jobs_to can_open t.outfile

-- The parent's side of running a program: the job is added, and a foreground job is waited for.
unfoldable pub run_fg : (room : Bool) → ℤ → Text → Mask → List Signal → M Bool
run_fg room pid cmdline prev arrivals = do
  add_job room pid JobState.fg (some cmdline)
  done ← wait_fg prev arrivals
  if done then (set_mask prev >> pure true) else pure false

unfoldable pub run_bg : (room : Bool) → ℤ → Text → Mask → M Bool
run_bg room pid cmdline prev = do
  add_job room pid JobState.bg (some cmdline)
  jid ← job_from_pid pid
  emit (started (pos jid) pid (some cmdline))
  set_mask prev
  pure true

-- `fork` fails, or gives the parent the pid n + 1.
unfoldable pub run_job :
    (room : Bool) → Option ℕ → (background : Bool) → Text → List Signal → M Bool
run_job room none background cmdline arrivals = block_all >> λ s. exited
run_job room (some n) background cmdline arrivals = do
  prev ← block_all
  if background
      then run_bg room (pos (suc n)) cmdline prev
      else run_fg room (pos (suc n)) cmdline prev arrivals

-- What `eval` does on the answer of `builtin_command`. Behind a builtin, `prev_one` is still the empty
-- set.
unfoldable pub on_answer :
    (room : Bool) → Option ℕ → (background : Bool) → Text → List Signal → Option Bool → M Bool
on_answer room forked background cmdline arrivals none = pure false
on_answer room forked background cmdline arrivals (some true) = set_mask unblocked >> pure true
on_answer room forked background cmdline arrivals (some false) =
    run_job room forked background cmdline arrivals

unfoldable pub on_args :
    (can_open room : Bool)
    → Option ℕ
    → Text
    → Arrivals
    → Bool
    → Builtin
    → Tokens
    → List Text
    → M Bool
on_args can_open room forked cmdline arrivals background b t [] = pure true
on_args can_open room forked cmdline arrivals background b t (name ∷ rest) = do
  answer ← builtin_command can_open arrivals b t
  on_answer room forked background cmdline arrivals.waiting answer

unfoldable pub on_parsed :
    (can_open room : Bool) → Option ℕ → Text → Arrivals → Option Parsed → M Bool
on_parsed can_open room forked cmdline arrivals none = pure false
on_parsed can_open room forked cmdline arrivals (some empty) = pure true
on_parsed can_open room forked cmdline arrivals (some error) = pure true
on_parsed can_open room forked cmdline arrivals (some (parsed background b t)) =
    on_args can_open room forked cmdline arrivals background b t t.argv

-- The signals that are handled before the command's first blocking come first, since parseline has
-- nothing to do with the job list. The answer is false while the shell still waits for a foreground job when the last of the signals
-- has been handled.
unfoldable pub eval : (can_open room : Bool) → (forked : Option ℕ) → Arrivals → Text → M Bool
eval can_open room forked arrivals cmdline =
    deliver arrivals.before
    >> on_parsed can_open room forked cmdline arrivals (parseline (some cmdline))
