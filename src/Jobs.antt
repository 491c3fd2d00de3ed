-- ===== src/Jobs.antt =====
-- The job list of the shell: tshlab-s20-bhxxzp/tsh_helper.c, the routines from check_blocked to
-- list_jobs. The shell's memory is one record; a routine takes it and ends in an `Outcome`.
pub mod Loops
pub mod Valid
pub mod Add
pub mod Change
pub mod Tests
use cmu.Common.{
  ℕ, zero, suc, ◌+◌, ◌-◌, Bool, true, false, not, ◌&&◌, ◌||◌, Option, none, some, List, [], ◌∷◌,
  ◌++◌, ◌==◌, ltb, if◌then◌else◌, update,
}
use cmu.Common.Int.{ℤ, pos, negsuc, eqb_ℤ, lt_one}

-- `MAXJOBS`
abbrev pub max_jobs : ℕ
max_jobs = 64

-- Text is the list of its bytes, the terminator left out.
abbrev pub Text : Type 0
Text = List ℕ

-- `job_state`
pub data JobState : Type 0 where
  undef bg fg st : JobState

-- `struct job_t`; `none` is the null pointer.
pub record Job : Type 0 where
  pub pid : ℤ
  pub jid : ℕ
  pub state : JobState
  pub cmdline : Option Text

abbrev pub is_undef : JobState → Bool
is_undef undef = true
is_undef bg = false
is_undef fg = false
is_undef st = false

abbrev pub is_fg : JobState → Bool
is_fg undef = false
is_fg bg = false
is_fg fg = true
is_fg st = false

-- The signals that `check_blocked` asks for, blocked or not in the process's mask.
pub record Mask : Type 0 where
  pub chld : Bool
  pub int : Bool
  pub tstp : Bool

-- What the shell does to the outside: lines that it writes and signals that it sends. A line is
-- given by what it reports, not by its bytes.
pub data Effect : Type 0 where
  job_line : ℕ → ℤ → JobState → Option Text → Effect
  stopped : ℕ → ℤ → ℕ → Effect
  terminated : ℕ → ℤ → ℕ → Effect
  delete_failed : Effect
  started : ℤ → ℤ → Option Text → Effect
  no_argument : Effect
  bad_argument : Effect
  no_such_job : ℤ → Effect
  kill_group : ℤ → ℕ → Effect
  opened : Text → Bool → Effect

-- The static variables of tsh_helper.c, the process's signal mask, and the effects so far.
pub record Shell : Type 0 where
  pub init : Bool
  pub jobs : ℕ → Job
  pub nextjid : ℕ
  pub mask : Mask
  pub log : List Effect

-- How a routine ends: `trapped` by `raise(SIGTRAP)`, `aborted` by `abort()`, `asserted` by a
-- failed `sio_assert`, `exited` by a call of `exit` or `_exit`.
pub data Outcome (A : Type 0) : Type 0 where
  ok : A → Shell → Outcome A
  trapped aborted asserted exited : Outcome A

abbrev pub M : Type 0 → Type 0
M A = Shell → Outcome A

abbrev pub pure : {A : Type 0} → A → M A
pure = ok

module _ {A B : Type 0} where
  abbrev pub and_then : Outcome A → (A → M B) → Outcome B
  and_then (ok a s) k = k a s
  and_then trapped k = trapped
  and_then aborted k = aborted
  and_then asserted k = asserted
  and_then exited k = exited

  infixl 5 ◌>>=◌ ◌>>◌
  abbrev pub ◌>>=◌ : M A → (A → M B) → M B
  m >>= k = λ s. and_then (m s) k

  abbrev pub ◌>>◌ : M A → M B → M B
  m >> n = m >>= λ _. n

-- `static bool check_block = true` is never assigned, so the mask is always read.
abbrev pub signals_blocked : Shell → Bool
signals_blocked s = s.init && (s.mask.chld && (s.mask.int && s.mask.tstp))

unfoldable pub check_blocked : M (Unit {0})
check_blocked s = if signals_blocked s then ok tt s else trapped

-- `&job_list[jid - 1]`, as the index of the place.
unfoldable pub get_job : ℤ → M ℕ
get_job (pos n) s = if (ltb n 1 || ltb max_jobs n) then aborted else ok (n - 1) s
get_job (negsuc n) s = aborted

abbrev pub cleared : Job → Job
cleared j = record j { pid = pos 0; jid = 0; state = undef }

-- The loop of `init_job_list` and `destroy_job_list` writes each place once.
abbrev pub no_job : Job
no_job = record { pid = pos 0; jid = 0; state = undef; cmdline = none }

unfoldable pub init_job_list : M (Unit {0})
init_job_list s =
    ok tt (record s {
      init = true;
      jobs = λ i. if ltb i max_jobs then no_job else s.jobs i;
      nextjid = 1;
    })

unfoldable pub destroy_job_list : M (Unit {0})
destroy_job_list s =
    ok tt (record s { jobs = λ i. if ltb i max_jobs then no_job else s.jobs i; nextjid = 1 })

-- Whether the place of a job id between 1 and `MAXJOBS` is in use.
abbrev pub used : (ℕ → Job) → ℤ → Bool
used jobs (pos zero) = false
used jobs (pos (suc i)) = if ltb i max_jobs then not (is_undef (jobs i).state) else false
used jobs (negsuc n) = false

unfoldable pub job_exists : ℤ → M Bool
unfolding check_blocked
job_exists jid s = if signals_blocked s then ok (used s.jobs jid) s else trapped

-- `for (jid = MAXJOBS; jid >= 1; jid--) if (job_exists(jid)) return jid; return 0;`, whose calls of
-- `job_exists` return, since its caller has passed `check_blocked`.
unfoldable pub maxjid_from : (ℕ → Job) → ℕ → ℕ
maxjid_from jobs zero = 0
maxjid_from jobs (suc i) = if used jobs (pos (suc i)) then suc i else maxjid_from jobs i

-- `for (jid = first; rounds more; jid++) if (test(job)) return jid; return 0;`
unfoldable pub first_jid : (Job → Bool) → (ℕ → Job) → ℕ → ℕ → ℕ
first_jid test jobs i zero = 0
first_jid test jobs i (suc rounds) =
    if test (jobs i) then suc i else first_jid test jobs (suc i) rounds

abbrev pub foreground : Job → Bool
foreground j = is_fg j.state

unfoldable pub fg_jid : (ℕ → Job) → ℕ
fg_jid jobs = first_jid foreground jobs 0 max_jobs

unfoldable pub fg_job : M ℕ
fg_job = check_blocked >> λ s. ok (fg_jid s.jobs) s

abbrev pub has_pid : ℤ → Job → Bool
has_pid pid j = not (is_undef j.state) && eqb_ℤ j.pid pid

unfoldable pub pid_jid : ℤ → (ℕ → Job) → ℕ
pid_jid pid jobs = if lt_one pid then 0 else first_jid (has_pid pid) jobs 0 max_jobs

unfoldable pub job_from_pid : ℤ → M ℕ
job_from_pid pid = check_blocked >> λ s. ok (pid_jid pid s.jobs) s

-- The test that `add_job` makes of its state argument.
abbrev pub accepts : JobState → ℕ → Bool
accepts undef f = false
accepts fg f = f == 0
accepts bg f = true
accepts st f = true

-- The part of `add_job` behind its tests of `pid` and `cmdline`; `room` says whether `realloc`
-- gives the memory.
unfoldable pub add_entry : (room : Bool) → ℤ → JobState → Text → M ℕ
unfolding get_job
add_entry room pid state cmdline s =
    if s.nextjid == 0
    then asserted
    else if ltb max_jobs s.nextjid
    then ok 0 s
    else if not (is_undef (s.jobs (s.nextjid - 1)).state)
    then asserted
    else if not room
    then exited
    else ok s.nextjid (record s {
      jobs =
          update s.jobs (s.nextjid - 1)
            (record { pid = pid; jid = s.nextjid; state = state; cmdline = some cmdline });
      nextjid = s.nextjid + 1;
    })

unfoldable pub add_job : (room : Bool) → ℤ → JobState → Option Text → M ℕ
unfolding check_blocked
add_job room pid state cmdline s =
    if not (signals_blocked s)
    then trapped
    else if not (accepts state (fg_jid s.jobs))
    then aborted
    else if lt_one pid
    then aborted
    else elim cmdline [ none ↦ aborted | some text ↦ add_entry room pid state text s ]

-- What `delete_job` does to the place that it has found.
unfoldable pub clear_entry : ℕ → M Bool
clear_entry i s =
    let jobs = update s.jobs i (cleared (s.jobs i)) in
    ok true (record s { jobs = jobs; nextjid = maxjid_from jobs max_jobs + 1 })

unfoldable pub delete_job : ℤ → M Bool
unfolding clear_entry
delete_job jid = do
  found ← job_exists jid
  if found then (do i ← get_job jid; clear_entry i) else pure false

unfoldable pub require_job_exists : ℤ → M (Unit {0})
require_job_exists jid = do found ← job_exists jid; if found then pure tt else (λ s. aborted)

-- `require_valid_state`, whose calls of `fg_job` have the mask already tested.
unfoldable pub require_valid_state : JobState → M (Unit {0})
require_valid_state undef s = aborted
require_valid_state bg s = ok tt s
require_valid_state st s = ok tt s
require_valid_state fg s = if fg_jid s.jobs == 0 then ok tt s else aborted

unfoldable pub job_get_state : ℤ → M JobState
job_get_state jid = do
  check_blocked
  require_job_exists jid
  i ← get_job jid
  λ s. ok (s.jobs i).state s

unfoldable pub write_state : JobState → ℕ → M (Unit {0})
write_state state i s =
    ok tt (record s { jobs = update s.jobs i (record (s.jobs i) { state = state }) })

unfoldable pub job_set_state : ℤ → JobState → M (Unit {0})
unfolding write_state
job_set_state jid state = do
  check_blocked
  require_job_exists jid
  require_valid_state state
  i ← get_job jid
  write_state state i

unfoldable pub job_get_pid : ℤ → M ℤ
job_get_pid jid = do
  check_blocked
  require_job_exists jid
  i ← get_job jid
  λ s. ok (s.jobs i).pid s

unfoldable pub job_get_cmdline : ℤ → M (Option Text)
job_get_cmdline jid = do
  check_blocked
  require_job_exists jid
  i ← get_job jid
  λ s. ok (s.jobs i).cmdline s

-- The lines that `list_jobs` writes, in the order of the list, for the places from `i` on.
unfoldable pub job_lines : (ℕ → Job) → ℕ → ℕ → List Effect
job_lines jobs i zero = []
job_lines jobs i (suc rounds) =
    let j = jobs i in
    let rest = job_lines jobs (suc i) rounds in
    if is_undef j.state then rest else job_line j.jid j.pid j.state j.cmdline ∷ rest

-- `list_jobs` to a descriptor that takes every write; the log keeps the latest effect last.
unfoldable pub list_jobs : M Bool
list_jobs = check_blocked >> λ s. ok true (record s { log = s.log ++ job_lines s.jobs 0 max_jobs })
