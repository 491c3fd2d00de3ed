-- ===== src/Tsh/Bgfg.antt =====
-- do_bgfg of tshlab-s20-bhxxzp/tsh.c: whatever its argument, it keeps the job list well formed.
use cmu.Common.{
  ℕ, zero, suc, ◌≡◌, refl, ◌∙◌, sym, ap, subst, inl, inr, Bool, true, false, Option, none, some,
  List, [], ◌∷◌, ◌++◌, arith, ◌==◌, ltb, if◌then◌else◌, Bool-cases, lt_of_ltb,
}
use cmu.Common.Int.{ℤ, pos, negsuc, eqb_ℤ}
use cmu.Jobs.{
  Text, Shell, Mask, ok, kill_group, started, bad_argument, Outcome, ◌>>=◌, ◌>>◌, pure, Job,
  JobState, undef, bg, fg, st, is_undef, accepts, used, fg_jid, pid_jid, check_blocked, job_exists,
  require_job_exists, job_get_pid, job_get_cmdline, job_set_state, get_job,
}
use cmu.Jobs.Valid.{IsValid, Ensures, Ensures-bind, IsValid-outside}
use cmu.Jobs.Change.{job_set_state_lem}
use cmu.Tsh.{
  Arrivals, deliver, full, block_all, set_mask, emit, neg, Signal, wait_fg, resolve_pid, resolve,
  atoi, continue_job, on_job, do_bgfg, sig_cont,
}
use cmu.Tsh.Reap.{IsReady, IsReady-blocked, job_from_pid-eq}
use cmu.Tsh.Wait.{Arrives, wait_fg_lem}

-- The places hold the same jobs, whatever their states are.
abbrev pub SameJobs : Shell → Shell → Type 0
SameJobs s s' =
    (k : ℕ)
    → ((s'.jobs k).pid ≡ (s.jobs k).pid) × (is_undef (s'.jobs k).state ≡ is_undef (s.jobs k).state)

-- The signals that arrive during a wait find the children that they tell of, whenever the jobs are
-- those of `s`.
abbrev pub Expected : Shell → List Signal → Type 0
Expected s arrivals = (s' : Shell) → IsReady s' → SameJobs s s' → Arrives s.mask arrivals s'

-- What the shell is after a command: the list is well formed, and if the command has ended, the mask
-- is as before.
abbrev pub Settled : Mask → Bool → Shell → Type 0
Settled mask done s' = IsValid s' × (done ≡ true → s'.mask ≡ mask)

-- Nothing but the mask and the log has changed.
abbrev pub Untouched : {A : Type 0} → Shell → A → Shell → Type 0
Untouched s a s' = (s'.jobs ≡ s.jobs) × IsValid s' × (s'.mask ≡ s.mask)

module _ (s : Shell) (r : IsReady s) where
  pub exists-eq : (jid : ℤ) → job_exists jid s ≡ ok (used s.jobs jid) s
  unfolding job_exists check_blocked
  exists-eq jid = rw (IsReady-blocked r)

  -- The queries about a job in use change nothing.
  get_pid-ok : (jid : ℤ) → used s.jobs jid ≡ true → Ensures (λ pid s'. s' ≡ s) (job_get_pid jid s)
  unfolding job_get_pid check_blocked require_job_exists job_exists get_job
  get_pid-ok (pos zero) u = absurd (cc)
  get_pid-ok (pos (suc i)) u = elim (Bool-cases (ltb i 64)) [
    | inl lt ↦ let h = lt_of_ltb i 64 lt in rw (IsReady-blocked r, u) (ground arith)
    | inr ge ↦ absurd (ground arith)
  ]
  get_pid-ok (negsuc n) u = absurd (cc)

  get_cmdline-ok :
      (jid : ℤ) → used s.jobs jid ≡ true → Ensures (λ t s'. s' ≡ s) (job_get_cmdline jid s)
  unfolding job_get_cmdline check_blocked require_job_exists job_exists get_job
  get_cmdline-ok (pos zero) u = absurd (cc)
  get_cmdline-ok (pos (suc i)) u = elim (Bool-cases (ltb i 64)) [
    | inl lt ↦ let h = lt_of_ltb i 64 lt in rw (IsReady-blocked r, u) (ground arith)
    | inr ge ↦ absurd (ground arith)
  ]
  get_cmdline-ok (negsuc n) u = absurd (cc)

used-live :
    (jobs : ℕ → Job) (jid : ℤ) (k : ℕ)
    → eqb_ℤ (pos (suc k)) jid ≡ true
    → used jobs jid ≡ true
    → is_undef (jobs k).state ≡ false
used-live jobs (pos zero) k e u = absurd (cc)
used-live jobs (pos (suc i)) k e u = let same : k ≡ i = ground arith in rw same (live i u)
  where
    live : (i : ℕ) → used jobs (pos (suc i)) ≡ true → is_undef (jobs i).state ≡ false
    live i u = ground arith
used-live jobs (negsuc n) k e u = absurd (cc)

SameJobs-set_state :
    (s : Shell) (jid : ℤ) (state : JobState) (k : ℕ)
    → used s.jobs jid ≡ true
    → is_undef state ≡ false
    → let j = if eqb_ℤ (pos (suc k)) jid then record (s.jobs k) { state = state } else s.jobs k in
      (j.pid ≡ (s.jobs k).pid) × (is_undef j.state ≡ is_undef (s.jobs k).state)
SameJobs-set_state s jid state k u live = elim (Bool-cases (eqb_ℤ (pos (suc k)) jid)) [
  | inl here ↦ rw here (refl, live ∙ sym (used-live s.jobs jid k here u))
  | inr there ↦ rw there (refl, refl)
]

accepted-live : (state : JobState) (f : ℕ) → accepts state f ≡ true → is_undef state ≡ false
accepted-live undef f h = cc
accepted-live bg f h = refl
accepted-live fg f h = refl
accepted-live st f h = refl

module _ (s : Shell) (v : IsValid s) (state : JobState) (jid : ℤ) (u : used s.jobs jid ≡ true)
    (a : accepts state (fg_jid s.jobs) ≡ true) where
  abbrev blocked : Shell
  blocked = record s { mask = full }

  blocked-IsReady : IsReady blocked
  blocked-IsReady = record { valid = IsValid-outside full s.log v; blocked = refl }

  -- The part of the command before the wait: the rest `k` starts with the same jobs.
  before_wait :
      (Q : Bool → Shell → Type 0) (k : ℤ → Option Text → Shell → Outcome Bool)
      → ((pid : ℤ) (t : Option Text) (s' : Shell)
          → IsReady s'
          → SameJobs s s'
          → Ensures Q (k pid t s'))
      → Ensures Q (
          (job_get_pid jid >>= λ pid. job_get_cmdline jid >>= λ t.
          job_set_state jid state >>= λ _. emit (kill_group (neg pid) sig_cont) >>= λ _. k pid t)
            blocked)
  unfolding emit
  before_wait Q k next =
      Ensures-bind (λ pid s'. s' ≡ blocked) Q (job_get_pid jid blocked) _
        (get_pid-ok blocked blocked-IsReady jid u)
        λ pid s1 e1.
          subst
            (λ x. Ensures Q (
              (job_get_cmdline jid >>= λ t. job_set_state jid state >>= λ _.
              emit (kill_group (neg pid) sig_cont) >>= λ _. k pid t)
                x))
            (sym e1)
            (Ensures-bind (λ t s'. s' ≡ blocked) Q (job_get_cmdline jid blocked) _
              (get_cmdline-ok blocked blocked-IsReady jid u)
              λ t s2 e2.
                subst
                  (λ x. Ensures Q (
                    (job_set_state jid state >>= λ _.
                    emit (kill_group (neg pid) sig_cont) >>= λ _. k pid t)
                      x))
                  (sym e2)
                  (Ensures-bind _ Q (job_set_state jid state blocked) _
                    (job_set_state_lem blocked jid state blocked-IsReady.valid
                      (IsReady-blocked blocked-IsReady) u a)
                    λ _ s3 d.
                      next pid t _ (record { valid = IsValid-outside s3.mask _ d.0; blocked = d.2 })
                        (λ i.
                          subst
                            (λ j.
                              (j.pid ≡ (s.jobs i).pid)
                              × (is_undef j.state ≡ is_undef (s.jobs i).state))
                            (sym (d.3 i))
                            (SameJobs-set_state s jid state i u (accepted-live state _ a)))))

  settle :
      (b : Bool) (s' : Shell)
      → IsValid s'
      → Ensures (Settled s.mask) ((if b then (set_mask s.mask >> pure true) else pure false) s')
  unfolding set_mask
  settle true s' v' = (IsValid-outside s.mask s'.log v', λ e. refl)
  settle false s' v' = (v', λ e. cc)

-- What a background command does in place of the wait.
abbrev show_job : Mask → ℤ → ℤ → Option Text → Shell → Outcome Bool
show_job prev jid pid t = (emit (started jid pid t) >> pure true) >>= λ done.
    if done then (set_mask prev >> pure true) else pure false

continue_job-Settled :
    (s : Shell) (state : JobState) (jid : ℤ) (arrivals : List Signal)
    → IsValid s
    → used s.jobs jid ≡ true
    → accepts state (fg_jid s.jobs) ≡ true
    → Expected s arrivals
    → Ensures (Settled s.mask) (continue_job state jid arrivals s)
unfolding continue_job block_all emit
continue_job-Settled s undef jid arrivals v u a x = absurd (cc)
continue_job-Settled s bg jid arrivals v u a x =
    before_wait s v bg jid u a (Settled s.mask) (show_job s.mask jid) λ pid t s' r same.
      settle s v bg jid u a true (record s' { log = s'.log ++ started jid pid t ∷ [] })
        (IsValid-outside s'.mask (s'.log ++ started jid pid t ∷ []) r.valid)
continue_job-Settled s st jid arrivals v u a x =
    before_wait s v st jid u a (Settled s.mask) (show_job s.mask jid) λ pid t s' r same.
      settle s v st jid u a true (record s' { log = s'.log ++ started jid pid t ∷ [] })
        (IsValid-outside s'.mask (s'.log ++ started jid pid t ∷ []) r.valid)
continue_job-Settled s fg jid arrivals v u a x =
    before_wait s v fg jid u a (Settled s.mask)
      (λ pid t. wait_fg s.mask arrivals >>= λ done.
        if done then (set_mask s.mask >> pure true) else pure false)
      λ pid t s' r same.
        Ensures-bind _ (Settled s.mask) (wait_fg s.mask arrivals s') _
          (wait_fg_lem s.mask arrivals s' r (x s' r same))
          λ done s'' d. settle s v fg jid u a done s'' d.0.valid

resolve_pid-Untouched :
    (arg : Text) (s : Shell) → IsValid s → Ensures (Untouched s) (resolve_pid arg [] s)
unfolding resolve_pid block_all emit set_mask deliver
resolve_pid-Untouched arg s v =
    let s1 : Shell = record s { mask = full } in
    let r : IsReady s1 = record { valid = IsValid-outside full s.log v; blocked = refl } in
    rw (job_from_pid-eq (atoi arg) r) (at_jid (pid_jid (atoi arg) s.jobs))
  where
    at_jid :
        (n : ℕ)
        → Ensures (Untouched s) (
            (if n == 0
                then (emit bad_argument >> set_mask s.mask >> pure none)
                else (set_mask s.mask >> deliver [] >> pure (some (pos n))))
              (record s { mask = full }))
    at_jid n = elim (Bool-cases (n == 0)) [
      | inl z ↦ rw z (refl, IsValid-outside s.mask _ v, refl)
      | inr nz ↦ rw nz (refl, IsValid-outside s.mask _ v, refl)
    ]

resolve-Untouched : (arg : Text) (s : Shell) → IsValid s → Ensures (Untouched s) (resolve arg [] s)
unfolding resolve
resolve-Untouched [] s v = resolve_pid-Untouched [] s v
resolve-Untouched (c ∷ t) s v = elim (Bool-cases (c == b'%')) [
  | inl percent ↦ rw percent (refl, v, refl)
  | inr pid ↦ rw pid (resolve_pid-Untouched (c ∷ t) s v)
]

accepts-live : (state : JobState) (f : ℕ) → is_undef state ≡ false → f ≡ 0 → accepts state f ≡ true
accepts-live undef f h z = cc
accepts-live bg f h z = refl
accepts-live fg f h z = ground arith
accepts-live st f h z = refl

on_job-Settled :
    (state : JobState) (arrivals : List Signal) (found : Option ℤ) (s : Shell)
    → IsValid s
    → is_undef state ≡ false
    → fg_jid s.jobs ≡ 0
    → Expected s arrivals
    → Ensures (Settled s.mask) (on_job state [] arrivals found s)
unfolding on_job block_all emit set_mask deliver
on_job-Settled state arrivals none s v live free x = (v, λ e. refl)
on_job-Settled state arrivals (some jid) s v live free x =
    let r : IsReady (record s { mask = full }) = record {
      valid = IsValid-outside full s.log v;
      blocked = refl;
    } in
    rw (exists-eq (record s { mask = full }) r jid) (elim (Bool-cases (used s.jobs jid)) [
      | inl u ↦ rw u (
          continue_job-Settled s state jid arrivals v u
            (accepts-live state (fg_jid s.jobs) live free) x)
      | inr n ↦ rw n (IsValid-outside s.mask _ v, λ e. refl)
    ])

-- What is expected of the signals depends on the jobs and the mask alone.
Expected-outside :
    (s s' : Shell) (arrivals : List Signal)
    → s'.jobs ≡ s.jobs
    → s'.mask ≡ s.mask
    → Expected s arrivals
    → Expected s' arrivals
Expected-outside s s' arrivals ej em x t r same =
    subst (λ m. Arrives m arrivals t) (sym em)
      (x t r (
        subst
          (λ jobs.
            (k : ℕ)
            → ((t.jobs k).pid ≡ (jobs k).pid)
              × (is_undef (t.jobs k).state ≡ is_undef (jobs k).state))
          ej same))

-- The signals of a command where none is handled but before it and in the wait.
abbrev pub at_wait : (before waiting : List Signal) → Arrivals
at_wait before waiting = record { before = before; resolved = []; checked = []; waiting = waiting }

-- On a well-formed list without a foreground job, bg and fg return, whatever their argument is: no
-- call that they make aborts the shell. The list is then well formed, and once the wait for a
-- foreground job has ended, the mask is what it was. Assumed is that no signal is handled where the
-- command unblocks the signals between its look at the job and its use of it, and that each signal
-- which arrives in the wait finds the children that it tells of in the list.
pub do_bgfg_lem :
    (state : JobState) (arg : Option Text) (before arrivals : List Signal) (s : Shell)
    → IsValid s
    → is_undef state ≡ false
    → fg_jid s.jobs ≡ 0
    → Expected s arrivals
    → Ensures (Settled s.mask) (do_bgfg state arg (at_wait before arrivals) s)
unfolding do_bgfg emit block_all set_mask
do_bgfg_lem state none before arrivals s v live free x = (IsValid-outside s.mask _ v, λ e. refl)
do_bgfg_lem state (some arg) before arrivals s v live free x =
    Ensures-bind (Untouched s) (Settled s.mask) (resolve arg [] s) _ (resolve-Untouched arg s v)
      λ found s' u.
        subst (λ m. Ensures (Settled m) (on_job state [] arrivals found s')) u.2
          (on_job-Settled state arrivals found s' u.1 live (ap fg_jid u.0 ∙ free)
            (Expected-outside s s' arrivals u.0 u.2 x))
