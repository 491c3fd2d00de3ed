-- ===== src/Tsh/Reap.antt =====
-- sigchld_handler of tshlab-s20-bhxxzp/tsh.c keeps the job list well formed and restores the mask.
use cmu.Common.{◌∙◌, ℕ, ◌≡◌, refl, ◌≢◌, Bool, true, false, List, [], ◌∷◌, if◌then◌else◌}
use cmu.Common.Int.{ℤ, pos}
use cmu.Jobs.{
  pure, Shell, ok, Effect, delete_failed, aborted, st, signals_blocked, pid_jid, job_from_pid,
  job_set_state, delete_job, check_blocked, require_job_exists, job_exists,
}
use cmu.Jobs.Valid.{IsValid, Ensures, Ensures-bind, Ensures-inv, IsValid-outside, pid_jid-used}
use cmu.Jobs.Change.{delete_job_lem, job_set_state_lem}
use cmu.Tsh.{
  Status, by_stop, by_signal, by_exit, full, block_all, set_mask, emit, remove_child, reap_one,
  reap, sigchld_handler,
}

-- A well-formed job list with every signal blocked.
pub record IsReady (s : Shell) : Type 0 where
  pub valid : IsValid s
  pub blocked : s.mask ≡ full

abbrev pub Ready : {A : Type 0} → A → Shell → Type 0
Ready a s = IsReady s

pub IsReady-blocked : {s : Shell} → IsReady s → signals_blocked s ≡ true
IsReady-blocked r = rw (r.valid.init, r.blocked)

pub emit-Ready : {s : Shell} (e : Effect) → IsReady s → Ensures Ready (emit e s)
unfolding emit
emit-Ready {s} e r = record { valid = IsValid-outside s.mask _ r.valid; blocked = r.blocked }

remove_child-Ready : {s : Shell} (jid : ℕ) → IsReady s → Ensures Ready (remove_child jid s)
unfolding remove_child
remove_child-Ready {s} jid r =
    Ensures-bind _ Ready (delete_job (pos jid) s) _
      (delete_job_lem s (pos jid) r.valid (IsReady-blocked r))
      λ done s' d.
        let r' : IsReady s' = record { valid = d.0; blocked = d.5 ∙ r.blocked } in
        elim done as (λ b. Ensures Ready ((if b then pure tt else emit delete_failed) s')) [
          | true ↦ r'
          | false ↦ emit-Ready delete_failed r'
        ]

pub job_from_pid-eq :
    {s : Shell} (pid : ℤ) → IsReady s → job_from_pid pid s ≡ ok (pid_jid pid s.jobs) s
unfolding job_from_pid check_blocked
job_from_pid-eq pid r = rw (IsReady-blocked r)

abbrev pub is_stop : Status → Bool
is_stop (by_stop sig) = true
is_stop (by_signal sig) = false
is_stop by_exit = false

-- One round of the loop, if a child that has stopped has a job.
reap_one-Ready :
    {s : Shell} (pid : ℤ) (status : Status)
    → IsReady s
    → (is_stop status ≡ true → pid_jid pid s.jobs ≢ 0)
    → Ensures Ready (reap_one pid status s)
unfolding reap_one
reap_one-Ready {s} pid (by_stop sig) r known = rw (job_from_pid-eq pid r) (
    Ensures-bind _ Ready (job_set_state (pos (pid_jid pid s.jobs)) st s) _
      (job_set_state_lem s (pos (pid_jid pid s.jobs)) st r.valid (IsReady-blocked r)
        (pid_jid-used s.jobs pid (known refl)) refl)
      λ _ s' d. emit-Ready _ (record { valid = d.0; blocked = d.2 ∙ r.blocked }))
reap_one-Ready {s} pid (by_signal sig) r known =
    rw (job_from_pid-eq pid r)
      (Ensures-bind Ready Ready (emit _ s) _ (emit-Ready _ r) λ _ s' r'. remove_child-Ready _ r')
reap_one-Ready {s} pid by_exit r known = rw (job_from_pid-eq pid r) (remove_child-Ready _ r)

-- Every child that `waitpid` reports as stopped has a job when the loop comes to it.
abbrev pub Tracked : List (ℤ × Status) → Shell → Type 0
Tracked [] s = Unit {0}
Tracked ((pid, status) ∷ rest) s =
    (is_stop status ≡ true → pid_jid pid s.jobs ≢ 0)
    × ((s' : Shell) → reap_one pid status s ≡ ok tt s' → Tracked rest s')

reap-Ready :
    (children : List (ℤ × Status)) {s : Shell}
    → IsReady s
    → Tracked children s
    → Ensures Ready (reap children s)
unfolding reap
reap-Ready [] r t = r
reap-Ready ((pid, status) ∷ rest) {s} r t =
    let (_, s', e, r') =
      Ensures-inv Ready (reap_one pid status s) (reap_one-Ready pid status r t.0) in
    rw e (reap-Ready rest r' (t.1 s' e))

-- sigchld_handler on a well-formed job list returns, whatever the mask is when it starts, leaves the
-- list well formed and puts the mask back, if every child that is reported as stopped has a job when
-- its turn comes. Children that ended need not have one.
pub sigchld_handler_lem :
    (children : List (ℤ × Status)) (s : Shell)
    → IsValid s
    → Tracked children (record s { mask = full })
    → Ensures (λ _ s'. IsValid s' × (s'.mask ≡ s.mask)) (sigchld_handler children s)
unfolding sigchld_handler block_all set_mask
sigchld_handler_lem children s v t =
    let ready : IsReady (record s { mask = full }) = record {
      valid = IsValid-outside full s.log v;
      blocked = refl;
    } in
    Ensures-bind Ready _ (reap children (record s { mask = full })) _ (reap-Ready children ready t)
      λ _ s' r. (IsValid-outside s.mask s'.log r.valid, refl)

-- A child that stops while the job list does not hold it, such as one that was started when the list
-- was full, makes sigchld_handler abort the shell.
pub sigchld_handler-stray_stop :
    (pid : ℤ) (sig : ℕ) (rest : List (ℤ × Status)) (s : Shell)
    → s.init ≡ true
    → pid_jid pid s.jobs ≡ 0
    → sigchld_handler ((pid, by_stop sig) ∷ rest) s ≡ aborted
unfolding sigchld_handler block_all reap reap_one job_from_pid check_blocked job_set_state
    require_job_exists job_exists
sigchld_handler-stray_stop pid sig rest s i e = rw (i, e)
