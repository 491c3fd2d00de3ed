-- ===== src/Tsh/Race.antt =====
-- The window of do_bgfg in tshlab-s20-bhxxzp/tsh.c between the test of the job and its use.
use cmu.Common.{◌≡◌, refl, ◌≢◌, true, false, some, [], ◌∷◌, ◌∙◌}
use cmu.Common.Int.{ℤ, pos}
use cmu.Jobs.{
  Shell, JobState, Text, ok, aborted, used, pid_jid, job_get_pid, check_blocked, require_job_exists,
  delete_job,
}
use cmu.Jobs.Valid.{IsValid, Ensures-inv, IsValid-outside, pid_jid-used}
use cmu.Jobs.Change.{delete_job_lem}
use cmu.Tsh.{
  Arrivals, chld, by_exit, full, block_all, set_mask, atoi, deliver, run_handler, sigchld_handler,
  reap, reap_one, remove_child, resolve, continue_job, on_job, do_bgfg,
}
use cmu.Tsh.Reap.{IsReady, IsReady-blocked, job_from_pid-eq}
use cmu.Tsh.Bgfg.{exists-eq}

get_pid-missing :
    (s : Shell) (jid : ℤ) → IsReady s → used s.jobs jid ≡ false → job_get_pid jid s ≡ aborted
unfolding job_get_pid check_blocked require_job_exists
get_pid-missing s jid r u = rw (IsReady-blocked r, exists-eq s r jid, u) refl

-- The handler takes an ended child's job off the list, and puts the mask back.
ended-gone :
    (s : Shell) (pid : ℤ)
    → IsValid s
    → pid_jid pid s.jobs ≢ 0
    → (s' : Shell) × (sigchld_handler ((pid, by_exit) ∷ []) s ≡ ok tt s')
      × IsValid s'
      × (used s'.jobs (pos (pid_jid pid s.jobs)) ≡ false)
unfolding sigchld_handler reap reap_one remove_child block_all set_mask
ended-gone s pid v known =
    let s1 : Shell = record s { mask = full } in
    let r : IsReady s1 = record { valid = IsValid-outside full s.log v; blocked = refl } in
    let jid : ℤ = pos (pid_jid pid s.jobs) in
    let (done, s2, e, d) =
      Ensures-inv _ (delete_job jid s1) (delete_job_lem s1 jid r.valid (IsReady-blocked r)) in
    let yes : done ≡ true = d.1 ∙ pid_jid-used s.jobs pid known in
    (
      record s2 { mask = s.mask },
      rw (job_from_pid-eq pid r, e, yes) refl,
      IsValid-outside s.mask s2.log d.0,
      d.2,
    )

-- bg and fg of a job id abort the shell if the job's process ends between their test that the job
-- exists and their use of it, where they have put the signal mask back: the handler deletes the job,
-- and job_get_pid finds no job.
pub do_bgfg-ended :
    (state : JobState) (t : Text) (pid : ℤ) (a : Arrivals) (s : Shell)
    → IsValid s
    → pid_jid pid s.jobs ≢ 0
    → atoi t ≡ pos (pid_jid pid s.jobs)
    → do_bgfg state (some (b'%' ∷ t)) (record a { checked = chld ((pid, by_exit) ∷ []) ∷ [] }) s
      ≡ aborted
unfolding do_bgfg resolve on_job deliver run_handler block_all set_mask continue_job
do_bgfg-ended state t pid a s v known named =
    let s1 : Shell = record s { mask = full } in
    let r : IsReady s1 = record { valid = IsValid-outside full s.log v; blocked = refl } in
    let jid : ℤ = pos (pid_jid pid s.jobs) in
    let (s2, runs, v2, gone) = ended-gone s pid v known in
    let s3 : Shell = record s2 { mask = full } in
    let r3 : IsReady s3 = record { valid = IsValid-outside full s2.log v2; blocked = refl } in
    rw
      (
        named,
        exists-eq s1 r jid,
        pid_jid-used s.jobs pid known,
        runs,
        get_pid-missing s3 jid r3 gone,
      )
      refl
