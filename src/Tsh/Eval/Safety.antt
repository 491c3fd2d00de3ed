-- ===== src/Tsh/Eval/Safety.antt =====
-- eval of tshlab-s20-bhxxzp/tsh.c never aborts the shell and leaves its job list well formed.
use cmu.Common.{ℕ, suc, ◌≡◌, Bool, true, false, Option, none, some, List}
use cmu.Common.Int.{pos}
use cmu.Jobs.{
  Text, JobState, Shell, Outcome, ok, trapped, aborted, asserted, exited, fg_jid, add_job,
}
use cmu.Jobs.Valid.{IsValid}
use cmu.Tsh.{Signal, full}
use cmu.Tsh.Wait.{Arrives}

-- The routine does not trap, abort or fail an assertion; if it returns, `P` holds.
abbrev pub Safe : {A : Type 0} → (A → Shell → Type 0) → Outcome A → Type 0
Safe P (ok a s) = P a s
Safe P trapped = ⊥
Safe P aborted = ⊥
Safe P asserted = ⊥
Safe P exited = Unit {0}

-- After a builtin: the list is well formed; the mask and the jobs are as before if the command is none.
abbrev Answered : Shell → Option Bool → Shell → Type 0
Answered s none s' = IsValid s'
Answered s (some true) s' = IsValid s'
Answered s (some false) s' = s' ≡ s

-- The signals that arrive while a program runs in the foreground find the children that they tell of,
-- once its job has been added.
abbrev pub ExpectedAfter : Shell → Option ℕ → Text → List Signal → Type 0
ExpectedAfter s none cmdline arrivals = Unit {0}
ExpectedAfter s (some n) cmdline arrivals =
    (id : ℕ) (s' : Shell)
    → add_job true (pos (suc n)) JobState.fg (some cmdline) (record s { mask = full }) ≡ ok id s'
    → Arrives s.mask arrivals s'

module _ (s : Shell) (v : IsValid s) (free : fg_jid s.jobs ≡ 0) (cmdline : Text)
    (arrivals : List Signal) where
  abbrev ready_shell : Shell
  ready_shell = record s { mask = full }
