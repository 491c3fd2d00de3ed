-- ===== src/Jobs/Add.antt =====
-- init_job_list and add_job of tshlab-s20-bhxxzp/tsh_helper.c.
use cmu.Common.{
  is_some, lt_of_ltb, le_of_ltb, ◌&&◌, sym, ℕ, zero, suc, ◌+◌, ◌-◌, ◌≤◌, ◌<◌, ◌≡◌, refl, ◌≢◌, ◌⊎◌,
  inl, inr, Bool, true, false, not, Option, none, some, arith, ◌==◌, ltb, Bool-cases, if◌then◌else◌,
  ltb-true, update, update_self, update_ne,
}
use cmu.Common.Int.{ℤ, lt_one}
use cmu.Jobs.{
  Text, Job, JobState, undef, bg, fg, st, Shell, ok, trapped, aborted, is_undef, is_fg,
  signals_blocked, maxjid_from, fg_jid, init_job_list, no_job, accepts, add_entry, add_job,
}
use cmu.Jobs.Loops.{maxjid_from-eq}
use cmu.Jobs.Valid.{IsValid, nextjid_bounds, free_above, fg_jid-zero, Ensures}

maxjid_from_free :
    (jobs : ℕ → Job) (n : ℕ)
    → ((i : ℕ) → i < n → is_undef (jobs i).state ≡ true)
    → maxjid_from jobs n ≡ 0
unfolding maxjid_from
maxjid_from_free jobs zero h = refl
maxjid_from_free jobs (suc n) h =
    ground (arith, h n (omega arith), maxjid_from_free jobs n (λ i lt. h i (omega arith)))

-- After init_job_list the list is well formed and every place is free, whatever was there before.
pub init_job_list-IsValid :
    (s : Shell)
    → Ensures
        (λ _ s'. IsValid s' × ((i : ℕ) → i < 64 → is_undef (s'.jobs i).state ≡ true))
        (init_job_list s)
unfolding init_job_list
init_job_list-IsValid s =
    let free : (i : ℕ) → i < 64 → is_undef (if ltb i 64 then no_job else s.jobs i).state ≡ true =
      λ i h. rw (ltb-true i 64 h) in
    (
      record {
        init = refl;
        next = omega (arith, maxjid_from_free (λ i. if ltb i 64 then no_job else s.jobs i) 64 free);
        entry = λ i h u. ground (arith, free i h);
        one_fg = λ i k h h' f f'. ground (arith, free i h);
      },
      free,
    )

-- What `add_job` leaves behind when there is room for the job.
pub record Added (s : Shell) (pid : ℤ) (state : JobState) (cmdline : Text) (id : ℕ) (s' : Shell)
    : Type 0 where
  pub fits : s.nextjid ≤ 64
  pub jid : id ≡ s.nextjid
  pub entry :
      s'.jobs (s.nextjid - 1)
      ≡ record { pid = pid; jid = s.nextjid; state = state; cmdline = some cmdline }
  pub others : (k : ℕ) → k ≢ s.nextjid - 1 → s'.jobs k ≡ s.jobs k
  pub next : s'.nextjid ≡ s.nextjid + 1
  pub mask : s'.mask ≡ s.mask

abbrev pub IsNewFg : JobState → ℕ → Type 0
IsNewFg state f = is_fg state ≡ true → f ≡ 0

pub accepts-fg :
    (state : JobState) (f : ℕ) → accepts state f ≡ true → (is_undef state ≡ false) × IsNewFg state f
accepts-fg undef f h = ground arith
accepts-fg bg f h = ground arith
accepts-fg fg f h = ground arith
accepts-fg st f h = ground arith

module _ {s : Shell} (v : IsValid s) (pid : ℤ) (state : JobState) (cmdline : Text)
    (room : s.nextjid ≤ 64) where
  abbrev new : Job
  new = record { pid = pid; jid = s.nextjid; state = state; cmdline = some cmdline }

  abbrev jobs' : ℕ → Job
  jobs' = update s.jobs (s.nextjid - 1) new

  jobs'_above : (k : ℕ) → s.nextjid - 1 < k → k < 64 → is_undef (jobs' k).state ≡ true
  jobs'_above k lo hi =
      rw (update_ne s.jobs (s.nextjid - 1) k new (omega arith)) (free_above v k (omega arith) hi)

  -- A foreground job is added only when there is none.
  old_fg :
      accepts state (fg_jid s.jobs) ≡ true
      → is_fg state ≡ true
      → (k : ℕ) → k < 64
      → is_fg (s.jobs k).state ≡ false
  old_fg a f k h = fg_jid-zero s.jobs ((accepts-fg state (fg_jid s.jobs) a).1 f) k h

  new-IsValid :
      lt_one pid ≡ false
      → accepts state (fg_jid s.jobs) ≡ true
      → IsValid (record s { jobs = jobs'; nextjid = s.nextjid + 1 })
  new-IsValid p a =
      let bounds = nextjid_bounds v in
      let live = (accepts-fg state (fg_jid s.jobs) a).0 in
      let top =
        maxjid_from-eq jobs' 64 (s.nextjid - 1) (omega arith) (omega arith)
          (rw (update_self s.jobs (s.nextjid - 1) new) live) jobs'_above in
      record {
        init = v.init;
        next = omega arith;
        entry = λ i h u. elim (Bool-cases (s.nextjid - 1 == i)) [
          | inl here ↦ rw here (record { jid = ground arith; pid = p; cmdline = refl })
          | inr there ↦ rw there (v.entry i h (rw there at u))
        ];
        one_fg = λ i k h h' f f'. elim (Bool-cases (s.nextjid - 1 == i)) [
          | inl here ↦ elim (Bool-cases (s.nextjid - 1 == k)) [
            | inl here' ↦ ground arith
            | inr there' ↦ absurd (clash (rw there' at f') (old_fg a (rw here at f) k h'))
          ]
          | inr there ↦ elim (Bool-cases (s.nextjid - 1 == k)) [
            | inl here' ↦ absurd (clash (rw there at f) (old_fg a (rw here' at f') i h))
            | inr there' ↦ v.one_fg i k h h' (rw there at f) (rw there' at f')
          ]
        ];
      }
    where
      clash : {b : Bool} → b ≡ true → b ≡ false → ⊥
      clash p q = cc

  -- `sio_assert(job->state == UNDEF)` holds.
  new_free : is_undef (s.jobs (s.nextjid - 1)).state ≡ true
  new_free =
      let bounds = nextjid_bounds v in free_above v (s.nextjid - 1) (omega arith) (omega arith)

  add_entry-eq :
      add_entry true pid state cmdline s
      ≡ ok s.nextjid (record s { jobs = jobs'; nextjid = s.nextjid + 1 })
  unfolding add_entry
  add_entry-eq = ground (arith, nextjid_bounds v, new_free)

add_entry_full :
    {s : Shell} (v : IsValid s) (pid : ℤ) (state : JobState) (cmdline : Text)
    → ltb 64 s.nextjid ≡ true
    → add_entry true pid state cmdline s ≡ ok 0 s
unfolding add_entry
add_entry_full v pid state cmdline full = ground arith

-- On a well-formed list with the signals blocked, an admissible state, a positive pid and memory for
-- the text, add_job returns (no assertion fails) and leaves the list well formed. With the next id
-- past 64 it answers 0 and changes nothing; otherwise the job stands in the place of the next id,
-- which is its answer, the other places and the mask are as before, and the next id is one more.
pub add_job_lem :
    (s : Shell) (pid : ℤ) (state : JobState) (cmdline : Text)
    → IsValid s
    → signals_blocked s ≡ true
    → accepts state (fg_jid s.jobs) ≡ true
    → lt_one pid ≡ false
    → Ensures
        (λ id s'.
          IsValid s' × ((s.nextjid ≡ 65) × (id ≡ 0) × (s' ≡ s) ⊎ Added s pid state cmdline id s'))
        (add_job true pid state (some cmdline) s)
unfolding add_job
add_job_lem s pid state cmdline v blocked a p =
    rw (blocked, a, p)
      (elim (Bool-cases (ltb 64 s.nextjid)) [
        | inl full ↦
            rw (add_entry-full full)
              (v, inl (omega (arith, lt_of_ltb 64 s.nextjid full, nextjid_bounds v), refl, refl))
        | inr room ↦
            let room' = le_of_ltb 64 s.nextjid room in
            rw (add_entry-eq v pid state cmdline room') (
              new-IsValid v pid state cmdline room' p a,
              inr (record {
                fits = room';
                jid = refl;
                entry = update_self s.jobs (s.nextjid - 1) _;
                others = λ k ne. update_ne s.jobs (s.nextjid - 1) k _ (λ e. ne (sym e));
                next = refl;
                mask = refl;
              }),
            )
      ])
  where
    add_entry-full : ltb 64 s.nextjid ≡ true → add_entry true pid state cmdline s ≡ ok 0 s
    add_entry-full full = add_entry_full v pid state cmdline full

-- The answers that need no well-formed list: without the mask the shell is trapped, a second
-- foreground job, an undefined state, a pid below 1 and a null text abort it.
pub add_job-refuses :
    (room : Bool) (pid : ℤ) (state : JobState) (cmdline : Option Text) (s : Shell)
    → (signals_blocked s
        && (accepts state (fg_jid s.jobs) && (not (lt_one pid) && is_some cmdline)))
      ≡ false
    → add_job room pid state cmdline s ≡ (if signals_blocked s then aborted else trapped)
unfolding add_job
add_job-refuses room pid state none s h = ground arith
add_job-refuses room pid state (some text) s h = ground arith
