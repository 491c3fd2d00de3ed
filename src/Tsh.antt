-- ===== src/Tsh.antt =====
-- The signal handlers and the bg/fg command of the shell, tshlab-s20-bhxxzp/tsh.c, over the job list
-- of `Jobs`. What the kernel decides (which children changed state, which signals arrive while the
-- shell sleeps) is an argument; the handlers' saving of errno is left out.
pub mod Reap
pub mod Wait
pub mod Bgfg
pub mod Race
pub mod Eval
mod Tests
use cmu.Common.{
  ℕ, zero, suc, ◌+◌, ◌-◌, ◌*◌, Bool, true, false, not, ◌&&◌, ◌||◌, Option, none, some, List, [],
  ◌∷◌, ◌++◌, ◌==◌, ltb, leb, if◌then◌else◌,
}
use cmu.Common.Int.{ℤ, pos, negsuc, eqb_ℤ}
use cmu.Jobs.{
  Text, JobState, undef, bg, fg, st, Mask, Effect, stopped, terminated, delete_failed, started,
  no_argument, bad_argument, no_such_job, kill_group, Shell, Outcome, ok, M, pure, ◌>>=◌, ◌>>◌,
  job_exists, fg_job, job_from_pid, delete_job, job_set_state, job_get_pid, job_get_cmdline,
}

-- A status that `waitpid` reports: WIFSTOPPED, WIFSIGNALED (each with its signal) or WIFEXITED.
pub data Status : Type 0 where
  by_stop : ℕ → Status
  by_signal : ℕ → Status
  by_exit : Status

abbrev pub sig_int : ℕ
sig_int = 2

abbrev pub sig_tstp : ℕ
sig_tstp = 20

abbrev pub sig_cont : ℕ
sig_cont = 18

abbrev pub full : Mask
full = record { chld = true; int = true; tstp = true }

-- `sigprocmask` with a filled set: the mask before it is the answer.
unfoldable pub block_all : M Mask
block_all s = ok s.mask (record s { mask = full })

unfoldable pub set_mask : Mask → M (Unit {0})
set_mask m s = ok tt (record s { mask = m })

unfoldable pub emit : Effect → M (Unit {0})
emit e s = ok tt (record s { log = s.log ++ e ∷ [] })

unfoldable pub remove_child : ℕ → M (Unit {0})
remove_child jid = do done ← delete_job (pos jid); if done then pure tt else emit delete_failed

-- One round of the loop of `sigchld_handler`.
unfoldable pub reap_one : ℤ → Status → M (Unit {0})
reap_one pid (by_stop sig) = do
  jid ← job_from_pid pid
  job_set_state (pos jid) st
  emit (stopped jid pid sig)
reap_one pid (by_signal sig) = do
  jid ← job_from_pid pid
  emit (terminated jid pid sig)
  remove_child jid
reap_one pid by_exit = do jid ← job_from_pid pid; remove_child jid

-- The children that `waitpid` gives before it answers 0 or less.
unfoldable pub reap : List (ℤ × Status) → M (Unit {0})
reap [] = pure tt
reap ((pid, status) ∷ rest) = reap_one pid status >> reap rest

unfoldable pub sigchld_handler : List (ℤ × Status) → M (Unit {0})
sigchld_handler children = do prev ← block_all; reap children; set_mask prev

abbrev pub neg : ℤ → ℤ
neg (pos zero) = pos 0
neg (pos (suc n)) = negsuc n
neg (negsuc n) = pos (suc n)

unfoldable pub signal_foreground : ℕ → ℕ → M (Unit {0})
signal_foreground sig jid = if jid == 0 then pure tt else do
  pid ← job_get_pid (pos jid)
  if eqb_ℤ pid (pos 0) then pure tt else emit (kill_group (neg pid) sig)

-- `sigint_handler` and `sigtstp_handler` are one text but for the signal.
unfoldable pub forward_handler : ℕ → M (Unit {0})
forward_handler sig = do prev ← block_all; jid ← fg_job; signal_foreground sig jid; set_mask prev

-- A signal that is handled.
pub data Signal : Type 0 where
  chld : List (ℤ × Status) → Signal
  int tstp : Signal

unfoldable pub run_handler : Signal → M (Unit {0})
run_handler (chld children) = sigchld_handler children
run_handler int = forward_handler sig_int
run_handler tstp = forward_handler sig_tstp

-- `sigsuspend(&prev)` until one signal has been handled.
unfoldable pub suspend : Mask → Signal → M (Unit {0})
suspend prev sig s = (set_mask prev >> run_handler sig >> set_mask s.mask) s

-- `while (fg_job() != 0) sigsuspend(&prev);` over the signals that arrive. The answer is whether the
-- loop has ended; false means that the shell still sleeps when the last of them is handled.
unfoldable pub wait_fg : Mask → List Signal → M Bool
wait_fg prev [] = do jid ← fg_job; pure (jid == 0)
wait_fg prev (sig ∷ rest) = do
  jid ← fg_job
  if jid == 0 then pure true else (suspend prev sig >> wait_fg prev rest)

abbrev pub is_digit : ℕ → Bool
is_digit c = leb b'0' c && leb c b'9'

unfoldable pub digits : ℕ → Text → ℕ
digits acc [] = acc
digits acc (c ∷ t) = let rest = digits (acc * 10 + (c - b'0')) t in if is_digit c then rest else acc

abbrev pub is_space : ℕ → Bool
is_space c = c == b' ' || (leb 9 c && leb c 13)

-- `atoi` of the C library, for values that an `int` holds.
unfoldable pub atoi : Text → ℤ
unfolding digits
atoi [] = pos 0
atoi (c ∷ t) =
    let rest = atoi t in
    if is_space c
    then rest
    else if c == b'-'
    then neg (pos (digits 0 t))
    else if c == b'+'
    then pos (digits 0 t)
    else pos (digits 0 (c ∷ t))

-- The handlers run one after another, where the code has the signals unblocked.
unfoldable pub deliver : List Signal → M (Unit {0})
deliver [] = pure tt
deliver (sig ∷ rest) = run_handler sig >> deliver rest

-- The signals that are handled while a command line is carried out, by where the code has them
-- unblocked: before the command first blocks them, behind the search for a pid, behind the test
-- whether the job exists, and in the wait for a foreground job. (Those behind the last unblocking come
-- before the next command.)
pub record Arrivals : Type 0 where
  pub before : List Signal
  pub resolved : List Signal
  pub checked : List Signal
  pub waiting : List Signal

-- The job of the pid that the argument of bg or fg gives; `none` after the complaint. The signals are
-- handled once the mask is put back.
unfoldable pub resolve_pid : Text → List Signal → M (Option ℤ)
unfolding atoi
resolve_pid arg resolved = do
  prev ← block_all
  jid ← job_from_pid (atoi arg)
  if jid == 0
      then (emit bad_argument >> set_mask prev >> pure none)
      else (set_mask prev >> deliver resolved >> pure (some (pos jid)))

-- The job id that the argument names, by `%` and the id or by a pid.
unfoldable pub resolve : Text → List Signal → M (Option ℤ)
unfolding atoi resolve_pid
resolve [] resolved = resolve_pid [] resolved
resolve (c ∷ t) resolved = if c == b'%' then pure (some (atoi t)) else resolve_pid (c ∷ t) resolved

-- `do_bgfg` once the job exists: the state, the signal to the job's group, and the wait for a
-- foreground job. The answer is that of the wait.
unfoldable pub continue_job : JobState → ℤ → List Signal → M Bool
continue_job state jid waiting = do
  prev ← block_all
  pid ← job_get_pid jid
  cmdline ← job_get_cmdline jid
  job_set_state jid state
  emit (kill_group (neg pid) sig_cont)
  done ← elim state [ fg ↦ wait_fg prev waiting | _ ↦ emit (started jid pid cmdline) >> pure true ]
  if done then (set_mask prev >> pure true) else pure false

-- `do_bgfg` from the test of the job on. Between the test and the use of the job the mask is put back,
-- and signals are handled.
unfoldable pub on_job : JobState → (checked waiting : List Signal) → Option ℤ → M Bool
on_job state checked waiting none = pure true
on_job state checked waiting (some jid) = do
  prev ← block_all
  exists ← job_exists jid
  if exists
      then (set_mask prev >> deliver checked >> continue_job state jid waiting)
      else (emit (no_such_job jid) >> set_mask prev >> pure true)

-- `do_bgfg` on `bg` (state bg) or `fg` (state fg) and its argument, if there is one.
unfoldable pub do_bgfg : JobState → Option Text → Arrivals → M Bool
do_bgfg state none arrivals = emit no_argument >> pure true
do_bgfg state (some arg) arrivals = do
  found ← resolve arg arrivals.resolved
  on_job state arrivals.checked arrivals.waiting found
