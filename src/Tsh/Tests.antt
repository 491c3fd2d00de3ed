-- ===== src/Tsh/Tests.antt =====
-- The theorems on the handlers of tshlab-s20-bhxxzp/tsh.c at concrete shells.
use cmu.Common.{◌≢◌, some, ◌≡◌, refl, List, [], ◌∷◌, ◌==◌, arith}
use cmu.Common.Int.{ℤ, pos, negsuc}
use cmu.Jobs.{bg, fg, Shell, ok, aborted, kill_group, fg_jid, pid_jid, first_jid}
use cmu.Jobs.Valid.{IsValid, IsValid-outside, Ensures}
use cmu.Jobs.Tests.{booted, one_job, one_job-IsValid, booted-IsValid, booted_free}
use cmu.Tsh.{
  do_bgfg, atoi, digits, Status, by_stop, by_signal, by_exit, full, sigchld_handler,
  forward_handler, wait_fg, chld, sig_int,
}
use cmu.Tsh.Reap.{IsReady, Tracked, sigchld_handler_lem, sigchld_handler-stray_stop}
use cmu.Tsh.Wait.{forward_handler_fg, wait_fg_lem}
use cmu.Tsh.Bgfg.{Settled, at_wait, do_bgfg_lem}
use cmu.Tsh.Race.{do_bgfg-ended}
use cmu.Tsh.Eval.{unblocked}

abbrev stop : List (ℤ × Status)
stop = (pos 7, by_stop 20) ∷ []

abbrev death : List (ℤ × Status)
death = (pos 7, by_exit) ∷ (pos 9, by_signal 9) ∷ []

stop-Tracked : Tracked stop (record one_job { mask = full })
unfolding pid_jid first_jid
stop-Tracked = (λ _ e. omega arith, λ s' e. tt)

death-Tracked : (s : Shell) → Tracked death s
death-Tracked s = (λ e. cc, λ s' h. (λ e. cc, λ s'' h'. tt))

unknown : pid_jid (pos 9) one_job.jobs ≡ 0
unfolding pid_jid first_jid
unknown = refl

ready : IsReady one_job
ready = record { valid = one_job-IsValid; blocked = refl }

sigchld_handler_lem_example :
    Ensures (λ _ s'. IsValid s' × (s'.mask ≡ one_job.mask)) (sigchld_handler stop one_job)
sigchld_handler_lem_example = sigchld_handler_lem stop one_job one_job-IsValid stop-Tracked

sigchld_handler-stray_stop_example : sigchld_handler ((pos 9, by_stop 20) ∷ []) one_job ≡ aborted
sigchld_handler-stray_stop_example = sigchld_handler-stray_stop (pos 9) 20 [] one_job refl unknown

forward_handler_fg_example :
    forward_handler sig_int one_job ≡ ok tt (record one_job { log = kill_group (negsuc 6) 2 ∷ [] })
forward_handler_fg_example = forward_handler_fg sig_int 0 one_job one_job-IsValid (omega arith) refl

wait_fg_lem_example :
    Ensures
      (λ done s'. IsReady s' × (done ≡ (fg_jid s'.jobs == 0)))
      (wait_fg one_job.mask (chld death ∷ []) one_job)
wait_fg_lem_example =
    wait_fg_lem one_job.mask (chld death ∷ []) one_job ready
      (death-Tracked (record one_job { mask = full }), λ s' e. tt)

-- A shell between two commands.
abbrev idle : Shell
idle = record booted { mask = unblocked }

idle-IsValid : IsValid idle
idle-IsValid = IsValid-outside unblocked [] booted-IsValid

idle_free : fg_jid idle.jobs ≡ 0
idle_free = booted_free

abbrev ending : List (ℤ × Status)
ending = (pos 7, by_exit) ∷ []

ending-Tracked : (s : Shell) → Tracked ending s
ending-Tracked s = (λ e. cc, λ s' h. tt)

do_bgfg_lem_example :
    Ensures
      (Settled idle.mask)
      (do_bgfg fg (some (b'%' ∷ b'1' ∷ [])) (at_wait [] (chld ending ∷ [])) idle)
do_bgfg_lem_example =
    do_bgfg_lem fg (some (b'%' ∷ b'1' ∷ [])) [] (chld ending ∷ []) idle idle-IsValid refl idle_free
      (λ s' r same. (ending-Tracked _, λ s'' e. tt))

known : pid_jid (pos 7) one_job.jobs ≢ 0
unfolding pid_jid first_jid
known e = omega arith

one_named : atoi (b'1' ∷ []) ≡ pos (pid_jid (pos 7) one_job.jobs)
unfolding pid_jid first_jid atoi digits
one_named = refl

do_bgfg-ended_example :
    do_bgfg bg
      (some (b'%' ∷ b'1' ∷ []))
      (record (at_wait [] []) { checked = chld ending ∷ [] })
      one_job
    ≡ aborted
do_bgfg-ended_example =
    do_bgfg-ended bg (b'1' ∷ []) (pos 7) (at_wait [] []) one_job one_job-IsValid known one_named
