-- ===== src/Jobs/Valid.antt =====
-- The invariant of the job list in tshlab-s20-bhxxzp/tsh_helper.c, and what its queries answer.
use cmu.Common.{
  if◌then◌else◌, ◌≢◌, is_some, List, ℕ, zero, suc, ◌+◌, ◌≤◌, ◌<◌, ◌≡◌, refl, Bool, true, false,
  arith,
}
use cmu.Common.Int.{pos, ℤ, lt_one}
use cmu.Jobs.{
  Mask, Effect, has_pid, pid_jid, first_jid, used, and_then, max_jobs, Job, Shell, Outcome, ok,
  trapped, aborted, asserted, exited, is_undef, is_fg, maxjid_from, foreground, fg_jid,
}
use cmu.Jobs.Loops.{first_jid-zero, first_jid-suc, maxjid_from-le, maxjid_from-above}

-- The routine returns, and what it returns satisfies `P`.
abbrev pub Ensures : {A : Type 0} → (A → Shell → Type 0) → Outcome A → Type 0
Ensures P (ok a s) = P a s
Ensures P trapped = ⊥
Ensures P aborted = ⊥
Ensures P asserted = ⊥
Ensures P exited = ⊥

-- A place that is in use: its job id is its own, its pid is positive, its text is there.
pub record IsEntry (i : ℕ) (j : Job) : Type 0 where
  pub jid : j.jid ≡ suc i
  pub pid : lt_one j.pid ≡ false
  pub cmdline : is_some j.cmdline ≡ true

-- The job list between two routines: initialised, the next id one past the last place in use, every
-- place in use an entry, and at most one foreground job.
pub record IsValid (s : Shell) : Type 0 where
  pub init : s.init ≡ true
  pub next : s.nextjid ≡ maxjid_from s.jobs max_jobs + 1
  pub entry : (i : ℕ) → i < 64 → is_undef (s.jobs i).state ≡ false → IsEntry i (s.jobs i)
  pub one_fg :
      (i k : ℕ)
      → i < 64
      → k < 64
      → is_fg (s.jobs i).state ≡ true
      → is_fg (s.jobs k).state ≡ true
      → i ≡ k

pub nextjid_bounds : {s : Shell} → IsValid s → (1 ≤ s.nextjid) × (s.nextjid ≤ 65)
nextjid_bounds {s} v = omega (arith, v.next, maxjid_from-le s.jobs max_jobs)

-- Every place from the next id on is free.
pub free_above :
    {s : Shell}
    → IsValid s
    → (i : ℕ) → s.nextjid ≤ suc i
    → i < 64
    → is_undef (s.jobs i).state ≡ true
free_above {s} v i lo hi = maxjid_from-above s.jobs 64 i (omega arith) (omega (arith, v.next)) hi

-- `fg_job` answers 0 exactly when no place holds a foreground job.
pub fg_jid-zero :
    (jobs : ℕ → Job) → fg_jid jobs ≡ 0 → (i : ℕ) → i < 64 → is_fg (jobs i).state ≡ false
unfolding fg_jid
fg_jid-zero jobs e i h = first_jid-zero foreground jobs 0 max_jobs e i (omega arith) (omega arith)

pub fg_jid-suc :
    (jobs : ℕ → Job) (k : ℕ) → fg_jid jobs ≡ suc k → (is_fg (jobs k).state ≡ true) × (k < 64)
unfolding fg_jid
fg_jid-suc jobs k e =
    let r = first_jid-suc foreground jobs 0 max_jobs k e in (r.0, omega (arith, r.2))

-- With at most one foreground job, `fg_job` finds the one there is.
pub fg_jid-eq :
    {s : Shell}
    → IsValid s
    → (i : ℕ) → i < 64
    → is_fg (s.jobs i).state ≡ true
    → fg_jid s.jobs ≡ suc i
fg_jid-eq {s} v i h f = go (fg_jid s.jobs) refl
  where
    go : (n : ℕ) → fg_jid s.jobs ≡ n → fg_jid s.jobs ≡ suc i
    go zero e = absurd (false≢true' (fg_jid-zero s.jobs e i h) f)
      where
        false≢true' : {b : Bool} → b ≡ false → b ≡ true → ⊥
        false≢true' p q = cc
    go (suc k) e =
        let r = fg_jid-suc s.jobs k e in let eq : i ≡ k = v.one_fg i k h r.1 f r.0 in omega arith

-- The rule for a sequence of routines.
pub Ensures-bind :
    {A B : Type 0} (P : A → Shell → Type 0) (Q : B → Shell → Type 0) (r : Outcome A)
    (k : A → Shell → Outcome B)
    → Ensures P r
    → ((a : A) (s : Shell) → P a s → Ensures Q (k a s))
    → Ensures Q (and_then r k)
Ensures-bind P Q (ok a s) k h next = next a s h
Ensures-bind P Q trapped k h next = h
Ensures-bind P Q aborted k h next = h
Ensures-bind P Q asserted k h next = h
Ensures-bind P Q exited k h next = h

pub Ensures-mono :
    {A : Type 0} (P Q : A → Shell → Type 0) (r : Outcome A)
    → Ensures P r
    → ((a : A) (s : Shell) → P a s → Q a s)
    → Ensures Q r
Ensures-mono P Q (ok a s) h weaken = weaken a s h
Ensures-mono P Q trapped h weaken = h
Ensures-mono P Q aborted h weaken = h
Ensures-mono P Q asserted h weaken = h
Ensures-mono P Q exited h weaken = h

-- The invariant speaks of neither the mask nor the log.
pub IsValid-outside :
    {s : Shell} (m : Mask) (l : List Effect) → IsValid s → IsValid (record s { mask = m; log = l })
IsValid-outside m l v = record { init = v.init; next = v.next; entry = v.entry; one_fg = v.one_fg }

-- A pid that `job_from_pid` finds is that of a job in use.
pub pid_jid-used :
    (jobs : ℕ → Job) (pid : ℤ) → pid_jid pid jobs ≢ 0 → used jobs (pos (pid_jid pid jobs)) ≡ true
unfolding pid_jid
pid_jid-used jobs pid ne = go (first_jid (has_pid pid) jobs 0 max_jobs) refl ne
  where
    low : (b : Bool) (n : ℕ) → (if b then 0 else n) ≢ 0 → b ≡ false
    low true n ne = absurd (ne refl)
    low false n ne = refl

    go :
        (n : ℕ)
        → first_jid (has_pid pid) jobs 0 max_jobs ≡ n
        → (if lt_one pid then 0 else first_jid (has_pid pid) jobs 0 max_jobs) ≢ 0
        → used jobs (pos (if lt_one pid then 0 else first_jid (has_pid pid) jobs 0 max_jobs)) ≡ true
    go zero e ne = absurd (ne (rw (low (lt_one pid) _ ne) e))
    go (suc k) e ne =
        let r = first_jid-suc (has_pid pid) jobs 0 max_jobs k e in
        rw (low (lt_one pid) _ ne, e) (ground (arith, r.0, r.2))

pub Ensures-inv :
    {A : Type 0} (P : A → Shell → Type 0) (r : Outcome A)
    → Ensures P r
    → (a : A) × (s : Shell) × (r ≡ ok a s) × P a s
Ensures-inv P (ok a s) h = (a, s, refl, h)
Ensures-inv P trapped h = absurd h
Ensures-inv P aborted h = absurd h
Ensures-inv P asserted h = absurd h
Ensures-inv P exited h = absurd h
