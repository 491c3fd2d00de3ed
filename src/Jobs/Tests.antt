-- ===== src/Jobs/Tests.antt =====
-- The theorems on the job list of tshlab-s20-bhxxzp/tsh_helper.c at concrete shells, and test runs.
use cmu.Common.{
  ℕ, suc, ◌≡◌, refl, ◌≢◌, ◌⊎◌, true, false, not, ◌&&◌, some, [], ◌∷◌, ltb, if◌then◌else◌, update,
}
use cmu.Common.Int.{pos, eqb_ℤ}
use cmu.Jobs.{
  max_jobs, fg, st, Mask, Shell, no_job, signals_blocked, used, accepts, fg_jid, first_jid,
  init_job_list, add_job, add_entry, delete_job, job_set_state,
}
use cmu.Jobs.Valid.{IsValid, Ensures}
use cmu.Jobs.Add.{Added, init_job_list-IsValid, add_job_lem}
use cmu.Jobs.Change.{delete_job_lem, job_set_state_lem}

abbrev all_blocked : Mask
all_blocked = record { chld = true; int = true; tstp = true }

abbrev blank : Shell
blank = record { init = false; jobs = λ i. no_job; nextjid = 0; mask = all_blocked; log = [] }

abbrev pub booted : Shell
booted = record blank {
  init = true;
  jobs = λ i. if ltb i max_jobs then no_job else no_job;
  nextjid = 1;
}

-- A shell with one foreground job of pid 7.
abbrev pub one_job : Shell
one_job = record booted {
  jobs =
      update booted.jobs 0
        (record { pid = pos 7; jid = 1; state = fg; cmdline = some (b'l' ∷ b's' ∷ []) });
  nextjid = 2;
}

pub booted-IsValid : IsValid booted
unfolding init_job_list
booted-IsValid = (init_job_list-IsValid blank).0

pub booted_free : fg_jid booted.jobs ≡ 0
unfolding fg_jid first_jid
booted_free = refl

accepted : accepts fg (fg_jid booted.jobs) ≡ true
unfolding fg_jid first_jid
accepted = refl

add_job_lem_example :
    Ensures
      (λ id s'.
        IsValid s'
        × ((booted.nextjid ≡ 65) × (id ≡ 0) × (s' ≡ booted)
            ⊎ Added booted (pos 7) fg (b'l' ∷ b's' ∷ []) id s'))
      (add_job true (pos 7) fg (some (b'l' ∷ b's' ∷ [])) booted)
add_job_lem_example =
    add_job_lem booted (pos 7) fg (b'l' ∷ b's' ∷ []) booted-IsValid refl accepted refl

pub one_job-IsValid : IsValid one_job
unfolding add_job fg_jid first_jid add_entry
one_job-IsValid =
    (add_job_lem booted (pos 7) fg (b'l' ∷ b's' ∷ []) booted-IsValid refl accepted refl).0

refused :
    (signals_blocked one_job && (accepts fg (fg_jid one_job.jobs) && (not false && true))) ≡ false
unfolding fg_jid first_jid
refused = refl

delete_job_lem_example :
    Ensures
      (λ done s'.
        IsValid s'
        × (done ≡ used one_job.jobs (pos 1))
        × (used s'.jobs (pos 1) ≡ false)
        × ((k : ℕ) → pos (suc k) ≢ pos 1 → s'.jobs k ≡ one_job.jobs k)
        × (done ≡ false → s' ≡ one_job)
        × (s'.mask ≡ one_job.mask))
      (delete_job (pos 1) one_job)
delete_job_lem_example = delete_job_lem one_job (pos 1) one_job-IsValid refl

accepted_stop : accepts st (fg_jid one_job.jobs) ≡ true
accepted_stop = refl

job_set_state_lem_example :
    Ensures
      (λ _ s'.
        IsValid s'
        × (s'.nextjid ≡ 2)
        × (s'.mask ≡ one_job.mask)
        × ((k : ℕ)
            → s'.jobs k ≡ (
                if eqb_ℤ (pos (suc k)) (pos 1)
                then record (one_job.jobs k) { state = st }
                else one_job.jobs k)))
      (job_set_state (pos 1) st one_job)
job_set_state_lem_example =
    job_set_state_lem one_job (pos 1) st one_job-IsValid refl refl accepted_stop
