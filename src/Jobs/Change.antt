-- ===== src/Jobs/Change.antt =====
-- delete_job and job_set_state of tshlab-s20-bhxxzp/tsh_helper.c.
use cmu.Common.{
  ==-true, ==-false, eq_of_==, ne_of_==, sym, ap, ◌∙◌, ℕ, zero, suc, ◌+◌, ◌<◌, ◌≡◌, refl, ◌≢◌, inl,
  inr, Bool, true, false, arith, ◌==◌, Bool-cases, if◌then◌else◌, ltb-true, update, update_self,
  update_ne,
}
use cmu.Common.Int.{ℤ, pos, negsuc, eqb_ℤ}
use cmu.Jobs.Add.{accepts-fg}
use cmu.Jobs.Loops.{maxjid_from-cong}
use cmu.Jobs.{
  max_jobs, Job, JobState, undef, bg, fg, st, Shell, ok, is_undef, is_fg, signals_blocked,
  check_blocked, used, maxjid_from, fg_jid, get_job, job_exists, accepts, delete_job, cleared,
  require_job_exists, require_valid_state, job_set_state,
}
use cmu.Jobs.Valid.{IsValid, fg_jid-zero, Ensures}

-- A job id in use is one between 1 and 64 whose place is not free.
used-suc :
    (jobs : ℕ → Job) (jid : ℤ)
    → used jobs jid ≡ true
    → (i : ℕ) × (jid ≡ pos (suc i)) × (i < 64) × (is_undef (jobs i).state ≡ false)
used-suc jobs (pos zero) u = ground arith
used-suc jobs (pos (suc i)) u = (i, refl, ground arith, ground arith)
used-suc jobs (negsuc n) u = ground arith

get_job_eq : (jid : ℤ) (i : ℕ) → jid ≡ pos (suc i) → i < 64 → (s : Shell) → get_job jid s ≡ ok i s
unfolding get_job
get_job_eq jid i e lt s = rw e (ground arith)

module _ {s : Shell} (v : IsValid s) (i : ℕ) where
  abbrev jobs_without : ℕ → Job
  jobs_without = update s.jobs i (cleared (s.jobs i))

  -- A place that clearing leaves in use is another one, and was in use.
  kept : (k : ℕ) → is_undef (jobs_without k).state ≡ false → jobs_without k ≡ s.jobs k
  kept k u = elim (Bool-cases (i == k)) [
    | inl here ↦ absurd (let bad : true ≡ false = rw here at u in (cc))
    | inr there ↦ rw there
  ]

  fg_kept : (k : ℕ) → is_fg (jobs_without k).state ≡ true → jobs_without k ≡ s.jobs k
  fg_kept k f = elim (Bool-cases (i == k)) [
    | inl here ↦ absurd (let bad : false ≡ true = rw here at f in (cc))
    | inr there ↦ rw there
  ]

  clear_entry-IsValid :
      IsValid (record s { jobs = jobs_without; nextjid = maxjid_from jobs_without max_jobs + 1 })
  clear_entry-IsValid = record {
    init = v.init;
    next = refl;
    entry = λ k h u. rw (kept k u) (v.entry k h (rw (kept k u) at u));
    one_fg = λ k l h h' f f'. v.one_fg k l h h' (rw (fg_kept k f) at f) (rw (fg_kept l f') at f');
  }

-- delete_job on a well-formed list with the signals blocked returns, tells whether the job existed,
-- and leaves a well-formed list where the job id is not in use, while every other place and the mask
-- are as before; when it answers false nothing has changed.
pub delete_job_lem :
    (s : Shell) (jid : ℤ)
    → IsValid s
    → signals_blocked s ≡ true
    → Ensures
        (λ done s'.
          IsValid s'
          × (done ≡ used s.jobs jid)
          × (used s'.jobs jid ≡ false)
          × ((k : ℕ) → pos (suc k) ≢ jid → s'.jobs k ≡ s.jobs k)
          × (done ≡ false → s' ≡ s)
          × (s'.mask ≡ s.mask))
        (delete_job jid s)
unfolding delete_job job_exists
delete_job_lem s jid v blocked = rw blocked (elim (Bool-cases (used s.jobs jid)) [
  | inl found ↦
      let (i, e, lt, live) = used-suc s.jobs jid found in
      rw (found, get_job_eq jid i e lt s)
        (
          clear_entry-IsValid v i,
          refl,
          rw (e, ltb-true i 64 lt, update_self s.jobs i (cleared (s.jobs i))) refl,
          λ k ne. update_ne s.jobs i k (cleared (s.jobs i)) (λ eq. ne (rw (e, eq))),
          λ h. cc,
          refl,
        )
  | inr missing ↦ rw missing (v, refl, missing, λ k ne. refl, λ h. refl, refl)
])

module _ {s : Shell} (v : IsValid s) (i : ℕ) (state : JobState) where
  abbrev jobs_with : ℕ → Job
  jobs_with = update s.jobs i (record (s.jobs i) { state = state })

  same_use :
      is_undef (s.jobs i).state ≡ false
      → is_undef state ≡ false
      → (k : ℕ) → is_undef (jobs_with k).state ≡ is_undef (s.jobs k).state
  same_use live ns k = elim (Bool-cases (i == k)) [
    | inl here ↦ let e : i ≡ k = ground arith in rw here (ns ∙ sym (rw e at live))
    | inr there ↦ rw there
  ]

  write_state-IsValid :
      is_undef (s.jobs i).state ≡ false
      → accepts state (fg_jid s.jobs) ≡ true
      → IsValid (record s { jobs = jobs_with })
  write_state-IsValid live a = record {
    init = v.init;
    next = v.next ∙ ap (λ n. n + 1) (sym (maxjid_from-cong jobs_with s.jobs 64 (same_use live ns)));
    entry = λ k h u. elim (Bool-cases (i == k)) [
      | inl here ↦
          let e : i ≡ k = ground arith in
          let old = v.entry k h (rw e at live) in
          rw (here, e) (record { jid = old.jid; pid = old.pid; cmdline = old.cmdline })
      | inr there ↦ rw there (v.entry k h (rw there at u))
    ];
    one_fg = λ k l h h' f f'. elim (Bool-cases (i == k)) [
      | inl here ↦ elim (Bool-cases (i == l)) [
        | inl here' ↦ ground arith
        | inr there' ↦ absurd (clash (rw there' at f') (old_fg (rw here at f) l h'))
      ]
      | inr there ↦ elim (Bool-cases (i == l)) [
        | inl here' ↦ absurd (clash (rw there at f) (old_fg (rw here' at f') k h))
        | inr there' ↦ v.one_fg k l h h' (rw there at f) (rw there' at f')
      ]
    ];
  }
    where
      ns : is_undef state ≡ false
      ns = (accepts-fg state (fg_jid s.jobs) a).0

      old_fg : is_fg state ≡ true → (k : ℕ) → k < 64 → is_fg (s.jobs k).state ≡ false
      old_fg f k h = fg_jid-zero s.jobs ((accepts-fg state (fg_jid s.jobs) a).1 f) k h

      clash : {b : Bool} → b ≡ true → b ≡ false → ⊥
      clash p q = cc

written :
    (jobs : ℕ → Job) (i k : ℕ) (state : JobState)
    → update jobs i (record (jobs i) { state = state }) k
      ≡ (if suc k == suc i then record (jobs k) { state = state } else jobs k)
written jobs i k state = elim (Bool-cases (i == k)) [
  | inl here ↦
      rw (here, ==-true (suc k) (suc i) (omega (arith, eq_of_== i k here))) (rw (eq_of_== i k here))
  | inr there ↦ rw (there, ==-false (suc k) (suc i) (λ e. ne_of_== i k there (omega arith)))
]

require_valid_state-eq :
    (state : JobState) (s : Shell)
    → accepts state (fg_jid s.jobs) ≡ true
    → require_valid_state state s ≡ ok tt s
unfolding require_valid_state
require_valid_state-eq undef s a = cc
require_valid_state-eq bg s a = refl
require_valid_state-eq fg s a = rw a
require_valid_state-eq st s a = refl

-- job_set_state of an existing job to an admissible state, with the signals blocked, returns, and
-- leaves a well-formed list with the same next id, in which that job alone has the new state and the
-- rest of its entry is as before.
pub job_set_state_lem :
    (s : Shell) (jid : ℤ) (state : JobState)
    → IsValid s
    → signals_blocked s ≡ true
    → used s.jobs jid ≡ true
    → accepts state (fg_jid s.jobs) ≡ true
    → Ensures
        (λ _ s'.
          IsValid s'
          × (s'.nextjid ≡ s.nextjid)
          × (s'.mask ≡ s.mask)
          × ((k : ℕ)
              → s'.jobs k ≡ (
                  if eqb_ℤ (pos (suc k)) jid
                  then record (s.jobs k) { state = state }
                  else s.jobs k)))
        (job_set_state jid state s)
unfolding job_set_state require_job_exists job_exists check_blocked
job_set_state_lem s jid state v blocked found a =
    let (i, e, lt, live) = used-suc s.jobs jid found in
    rw (blocked, blocked, found, require_valid_state-eq state s a, get_job_eq jid i e lt s)
      (write_state-IsValid v i state live a, refl, refl, λ k. rw e (written s.jobs i k state))
