-- ===== src/Tsh/Wait.antt =====
-- sigint_handler, sigtstp_handler and the wait for the foreground job in tshlab-s20-bhxxzp/tsh.c.
use cmu.Common.{
  inl, inr, sym, ℕ, zero, suc, ◌<◌, ◌≡◌, refl, true, false, List, [], ◌∷◌, ◌++◌, arith, ◌==◌,
  Bool-cases, ==-false, ltb-true,
}
use cmu.Common.Int.{ℤ, pos, negsuc, lt_one, eqb_ℤ}
use cmu.Jobs.{
  Shell, Mask, ok, kill_group, JobState, undef, bg, fg, st, is_fg, is_undef, signals_blocked, used,
  fg_jid, fg_job, check_blocked, require_job_exists, job_exists, job_get_pid, get_job,
}
use cmu.Jobs.Valid.{
  IsValid, Ensures, Ensures-bind, Ensures-inv, IsValid-outside, fg_jid-eq, fg_jid-suc,
}
use cmu.Tsh.{
  full, block_all, set_mask, emit, neg, signal_foreground, forward_handler, Signal, chld, int, tstp,
  run_handler, suspend, wait_fg, sig_int, sig_tstp,
}
use cmu.Tsh.Reap.{IsReady, Ready, IsReady-blocked, Tracked, sigchld_handler_lem}

fg_live : (state : JobState) → is_fg state ≡ true → is_undef state ≡ false
fg_live undef f = cc
fg_live bg f = refl
fg_live fg f = refl
fg_live st f = refl

pid_ne_zero : (pid : ℤ) → lt_one pid ≡ false → eqb_ℤ pid (pos 0) ≡ false
pid_ne_zero (pos zero) h = cc
pid_ne_zero (pos (suc n)) h = ground arith
pid_ne_zero (negsuc n) h = refl

job_get_pid-eq :
    (i : ℕ) (s : Shell)
    → signals_blocked s ≡ true
    → i < 64
    → is_undef (s.jobs i).state ≡ false
    → job_get_pid (pos (suc i)) s ≡ ok (s.jobs i).pid s
unfolding job_get_pid check_blocked require_job_exists job_exists get_job
job_get_pid-eq i s b h live =
    let found : used s.jobs (pos (suc i)) ≡ true = rw (ltb-true i 64 h, live) in
    rw (b, found) (ground arith)

fg_job-eq : (s : Shell) → signals_blocked s ≡ true → fg_job s ≡ ok (fg_jid s.jobs) s
unfolding fg_job check_blocked
fg_job-eq s b = rw b

signal_foreground-eq :
    (sig i : ℕ) (s : Shell)
    → IsReady s
    → i < 64
    → is_fg (s.jobs i).state ≡ true
    → signal_foreground sig (suc i) s
      ≡ ok tt (record s { log = s.log ++ kill_group (neg (s.jobs i).pid) sig ∷ [] })
unfolding signal_foreground emit
signal_foreground-eq sig i s r h f =
    let live = fg_live (s.jobs i).state f in
    rw (
      ==-false (suc i) 0 (omega arith),
      job_get_pid-eq i s (IsReady-blocked r) h live,
      pid_ne_zero (s.jobs i).pid (r.valid.entry i h live).pid,
    )

-- On a well-formed list with a foreground job, the handlers of ctrl-c and ctrl-z send their signal
-- once, to the process group of that job, and change nothing else: the list and the mask are as
-- before.
pub forward_handler_fg :
    (sig i : ℕ) (s : Shell)
    → IsValid s
    → i < 64
    → is_fg (s.jobs i).state ≡ true
    → forward_handler sig s
      ≡ ok tt (record s { log = s.log ++ kill_group (neg (s.jobs i).pid) sig ∷ [] })
unfolding forward_handler block_all set_mask
forward_handler_fg sig i s v h f =
    let s' : Shell = record s { mask = full } in
    let r : IsReady s' = record { valid = IsValid-outside full s.log v; blocked = refl } in
    rw (fg_job-eq s' (IsReady-blocked r), fg_jid-eq v i h f, signal_foreground-eq sig i s' r h f)

-- With no foreground job they do nothing.
pub forward_handler_none :
    (sig : ℕ) (s : Shell) → s.init ≡ true → fg_jid s.jobs ≡ 0 → forward_handler sig s ≡ ok tt s
unfolding forward_handler block_all set_mask fg_job check_blocked signal_foreground
forward_handler_none sig s i e = rw (i, e)

-- What a signal's handler asks of the children that it is told of.
abbrev pub Heard : Signal → Shell → Type 0
Heard (chld children) s = Tracked children (record s { mask = full })
Heard int s = Unit
Heard tstp s = Unit

forward_handler-IsValid :
    (sig : ℕ) (s : Shell)
    → IsValid s
    → Ensures (λ _ s'. IsValid s' × (s'.mask ≡ s.mask)) (forward_handler sig s)
forward_handler-IsValid sig s v = go (fg_jid s.jobs) refl
  where
    go :
        (n : ℕ)
        → fg_jid s.jobs ≡ n
        → Ensures (λ _ s'. IsValid s' × (s'.mask ≡ s.mask)) (forward_handler sig s)
    go zero e = rw (forward_handler_none sig s v.init e) (v, refl)
    go (suc i) e =
        let (f, h) = fg_jid-suc s.jobs i e in
        rw (forward_handler_fg sig i s v h f) (IsValid-outside s.mask _ v, refl)

-- Each of the three handlers keeps the job list well formed and puts the mask back.
pub run_handler-IsValid :
    (sig : Signal) (s : Shell)
    → IsValid s
    → Heard sig s
    → Ensures (λ _ s'. IsValid s' × (s'.mask ≡ s.mask)) (run_handler sig s)
unfolding run_handler
run_handler-IsValid (chld children) s v t = sigchld_handler_lem children s v t
run_handler-IsValid int s v t = forward_handler-IsValid sig_int s v
run_handler-IsValid tstp s v t = forward_handler-IsValid sig_tstp s v

suspend-Ready :
    (prev : Mask) (sig : Signal) {s : Shell}
    → IsReady s
    → Heard sig (record s { mask = prev })
    → Ensures Ready (suspend prev sig s)
unfolding suspend set_mask
suspend-Ready prev sig {s} r t =
    Ensures-bind (λ _ s'. IsValid s' × (s'.mask ≡ prev)) Ready
      (run_handler sig (record s { mask = prev })) _
      (run_handler-IsValid sig (record s { mask = prev }) (IsValid-outside prev s.log r.valid) t)
      λ _ s' q. record { valid = IsValid-outside s.mask s'.log q.0; blocked = r.blocked }

-- While the loop waits, each arriving signal finds the children that it reports in the list.
abbrev pub Arrives : Mask → List Signal → Shell → Type 0
Arrives prev [] s = Unit {0}
Arrives prev (sig ∷ rest) s =
    Heard sig (record s { mask = prev })
    × ((s' : Shell) → suspend prev sig s ≡ ok tt s' → Arrives prev rest s')

-- From a well-formed list with every signal blocked, and where each signal that arrives finds the
-- stopped children that it reports in the list, the wait for the foreground job returns. The list is
-- then well formed with every signal blocked again, and the wait has ended exactly when the list holds
-- no foreground job.
pub wait_fg_lem :
    (prev : Mask) (arrivals : List Signal) (s : Shell)
    → IsReady s
    → Arrives prev arrivals s
    → Ensures (λ done s'. IsReady s' × (done ≡ (fg_jid s'.jobs == 0))) (wait_fg prev arrivals s)
unfolding wait_fg
wait_fg_lem prev [] s r t = rw (fg_job-eq s (IsReady-blocked r)) (r, refl)
wait_fg_lem prev (sig ∷ rest) s r t =
    rw (fg_job-eq s (IsReady-blocked r)) (elim (Bool-cases (fg_jid s.jobs == 0)) [
      | inl none ↦ rw none (r, sym none)
      | inr busy ↦
          let (_, s', e, r') =
            Ensures-inv Ready (suspend prev sig s) (suspend-Ready prev sig r t.0) in
          rw (busy, e) (wait_fg_lem prev rest s' r' (t.1 s' e))
    ])
