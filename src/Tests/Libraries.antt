-- ===== src/Tests/Libraries.antt =====
-- The library with a kernel that tells a thread after a while, and with the module as its kernel
-- (src/lib).
use task_clock.Common.{
  ℕ, ◌+◌, ◌-◌, ◌/◌, ◌%◌, ◌^◌, ◌≤◌, ◌<◌, ◌≡◌, ◌⊎◌, refl, ap, Bool, true, false, some, List, [], ◌∷◌,
  arith, ltb, Result, ok, bug, out_of_bounds, out_of_fuel, length,
}
use task_clock.Group.{UserStatus, Machine, put_status, add64, sub64}
use task_clock.Handlers.{
  task_clock_entry_stop, task_clock_entry_wait, task_clock_entry_woke_up, task_clock_add_ticks,
  task_clock_entry_activate_other,
}
use task_clock.Handlers.Threads.{ActivatedOther}
use task_clock.Library.{
  Kernel, op_stop, Thread, Info, wait, woke_up, add_ticks, activate_other, put_disabled,
  determ_task_clock_read, ◌>>=◌,
}
use task_clock.Library.Waiting.{
  ask_to_wait, take_turn, spin, determ_task_clock_is_lowest_wait, determ_task_clock_activate_other,
}
use task_clock.Library.Sections.{
  determ_task_clock_start_no_notify, start_coarsened, determ_task_clock_end_coarsened_tx,
}
use task_clock.Library.Turns.{polls, polls_lem}
use task_clock.Library.Wait.{TurnCame, is_told, at_kernel, is_lowest_wait_lem}
use task_clock.Library.Coarsened.{
  no_section, then_section, started, section, sections_lem, section-turned, Delivers,
}
use task_clock.Library.Composed.{
  IsAnswer, IsDispatched, settled_at, clock_of, before_activation, end_coarsened-read,
  end_coarsened-back, activate_other_lem,
}
use task_clock.Estimate.{
  tx_estimate_init, tx_get_entry, tx_estimate_next_observation_guess, no_guess, min_observations,
}
use task_clock.Estimate.Ring.{
  IsRing, estimator_after, observed, estimator-IsRing, estimator-guess, tx_get_entry_shared,
}
use task_clock.Tests.Runs.{settled, is_ok, settled_lem}
use task_clock.Listarray.{foreach}
use task_clock.Search.{search_for_lowest_waiting, search_for_lowest_waiting_exclude_current}
use task_clock.Notify.{
  determine_lowest_and_notify_or_wait, settle, yield_to_lowest, wake_up_waiting_thread,
  set_current_thread_to_lowest,
}
use task_clock.Tests.State.{clean_status, two, two-IsWellFormed, caller, contended}

-- A kernel that tells the thread in the third round, and counts what the thread does.
abbrev pub patient : Kernel (UserStatus × ℕ)
patient = record {
  ioctl = λ r arg k. (true, k);
  task_clock_do = λ op k. k;
  make_clock = λ tid k. k;
  poll = λ k. k;
  rdpmc = λ index (u, n). (n % 2 ^ 48, (u, n));
  status = λ (u, n). u;
  put_status = λ u (_, n). (u, n);
  pass = λ (u, n). (record u { lowest_clock = ltb 1 n }, n + 1);
  open_shared_mem = λ k. some k;
  perf_event_open = λ period k. some k;
  x86_64 = true;
  instruction_counting = true;
  out_of_range = λ n. 0;
}

abbrev pub info : (coarsened : ℕ) → Info
info coarsened = record {
  tid = 0;
  started = true;
  disabled = false;
  last_clock_value = 0;
  coarsened_ticks_counter = coarsened;
  estimator = tx_estimate_init;
  in_coarsened_tx = false;
  last_raw_perf = 0;
  current_raw_perf = 0;
}

abbrev pub thread : Thread (UserStatus × ℕ)
thread = record { info = info 0; kernel = (clean_status, 0) }

polls_example :
    polls patient 5 thread
    ≡ (ask_to_wait patient thread >>= λ t₁. take_turn patient (spin patient 5 t₁))
polls_example = polls_lem patient 5 thread refl refl

wait_example :
    (k' : UserStatus × ℕ) × (determ_task_clock_is_lowest_wait patient thread
      ≡ some (false, put_disabled patient false (at_kernel patient thread k')))
    × TurnCame patient (λ r arg k. refl) (clean_status, 0) k'
    × (is_told patient k' ≡ false)
wait_example = is_lowest_wait_lem patient (λ r arg k. refl) (λ u k. refl) thread

abbrev count : UserStatus × ℕ → ℕ
count (u, n) = n

abbrev work : ℕ → UserStatus × ℕ → UserStatus × ℕ
work n (u, k) = (u, k + n)

counts_nine :
    (count (started patient count thread).kernel ≡ 0)
    × (count (work 9 (started patient count thread).kernel) ≡ 9)
unfolding determ_task_clock_start_no_notify start_coarsened
counts_nine = (refl, refl)

nine_delivered :
    Delivers patient count
      (count (started patient count thread).kernel)
      (count (work 9 (started patient count thread).kernel))
unfolding determ_task_clock_start_no_notify start_coarsened
nine_delivered low = refl

sections_example :
    (section patient count (work 9) 3 thread).info.coarsened_ticks_counter
    ≡ add64 0 (
        0
        + (count (work 9 (started patient count thread).kernel)
            - count (started patient count thread).kernel))
sections_example =
    sections_lem patient count (λ index k. refl) (ground arith)
      (then_section (work 9) 3 no_section (ground (arith, counts_nine))
        (ground (arith, counts_nine)) nine_delivered)

-- The thread shortly before its counter has counted 2^32 instructions
abbrev late : Thread (UserStatus × ℕ)
late = record { info = info 0; kernel = (clean_status, 4_294_967_292) }

turns_over :
    (count (work 9 (started patient count late).kernel) / 2 ^ 32
      ≡ count (started patient count late).kernel / 2 ^ 32 + 1)
    × (count (work 9 (started patient count late).kernel)
        < count (started patient count late).kernel + 2 ^ 32)
unfolding determ_task_clock_start_no_notify start_coarsened
turns_over = (refl, ground arith)

section-turned_example :
    (section patient count (work 9) 3 late).info.coarsened_ticks_counter
    ≡ add64 0 (
        count (work 9 (started patient count late).kernel)
        - count (started patient count late).kernel
        + (2 ^ 48 - 2 ^ 32))
section-turned_example =
    section-turned patient count (λ index k. refl) (work 9) 3 late refl turns_over.0 turns_over.1

abbrev answer : Machine → Result Machine → Bool × Machine
answer m (ok m') = (true, m')
answer m bug = (false, m)
answer m out_of_bounds = (false, m)
answer m out_of_fuel = (false, m)

-- The module as the kernel of thread 0, for the requests that the theorems need.
abbrev pub module_kernel : Kernel Machine
module_kernel = record {
  ioctl = λ r arg m. elim r [
    | add_ticks ↦ answer m (task_clock_add_ticks caller arg m)
    | activate_other ↦ answer m (task_clock_entry_activate_other caller arg m)
    | wait ↦ answer m (task_clock_entry_wait caller m)
    | woke_up ↦ (true, task_clock_entry_woke_up caller m)
    | _ ↦ (true, m)
  ];
  task_clock_do =
      λ op m. elim op [ op_stop ↦ (answer m (task_clock_entry_stop caller m)).1 | _ ↦ m ];
  make_clock = λ tid m. m;
  poll = λ m. m;
  rdpmc = λ index m. (0, m);
  status = λ m. m.status 0;
  put_status = λ u m. put_status m 0 u;
  pass = λ m. m;
  open_shared_mem = λ m. some m;
  perf_event_open = λ period m. some m;
  x86_64 = true;
  instruction_counting = true;
  out_of_range = λ n. 0;
}

pub module_kernel-IsDispatched : IsDispatched caller module_kernel
module_kernel-IsDispatched = record {
  adds = λ ticks m m' e. ap (answer m) e;
  activates = λ id m m' e. ap (answer m) e;
  waits = λ m m' e. ap (answer m) e;
  stops = λ m m' e. ap (λ r. (answer m r).1) e;
  wakes = λ m. refl;
  reads = λ m. refl;
  writes = λ u m. refl;
}

activate_other_library_example :
    (b : Bool) × (m' : Machine) × (t' : Thread Machine) × (determ_task_clock_activate_other
        module_kernel 5
        (record { info = info 0; kernel = contended })
      ≡ some (b, t'))
    × IsAnswer contended m' 5 b
    × ((t'.kernel.status 0).activated_lowest ≡ false)
    × (t'.kernel.group ≡ m'.group)
    × ActivatedOther caller
        (before_activation caller (record { info = info 0; kernel = contended }))
        two
        5
        m'
activate_other_library_example =
    activate_other_lem caller module_kernel module_kernel-IsDispatched
      (record { info = info 0; kernel = contended }) two 5 (two-IsWellFormed true (some 0) true)
      (ground arith) refl refl

-- Thread 0 at the end of a coarsened section, with its status record up to date.
abbrev synced : Machine
synced = put_status contended 0 (record (contended.status 0) { ticks = 100 })

abbrev worker : (coarsened : ℕ) → Thread Machine
worker coarsened = record { info = info coarsened; kernel = synced }

-- 2^31 + 5
abbrev many : ℕ
many = 2147483653

abbrev added : (coarsened : ℕ) → Machine
added coarsened = settled (task_clock_add_ticks caller coarsened synced)

both_add :
    (is_ok (task_clock_add_ticks caller 40 synced) ≡ true)
    × (is_ok (task_clock_add_ticks caller many synced) ≡ true)
unfolding task_clock_add_ticks determine_lowest_and_notify_or_wait search_for_lowest_waiting
    search_for_lowest_waiting_exclude_current foreach settle yield_to_lowest wake_up_waiting_thread
    set_current_thread_to_lowest
both_add = (refl, refl)

end_coarsened_example :
    (determ_task_clock_end_coarsened_tx module_kernel (worker 40)
      ≡ some (settled_at (worker 40) (added 40)))
    × (determ_task_clock_read module_kernel (settled_at (worker 40) (added 40))
        ≡ determ_task_clock_read module_kernel (worker 40))
    × (clock_of caller (settled_at (worker 40) (added 40))
        ≡ determ_task_clock_read module_kernel (worker 40))
end_coarsened_example =
    end_coarsened-read caller module_kernel module_kernel-IsDispatched (worker 40) (added 40)
      (settled_lem (task_clock_add_ticks caller 40 synced) both_add.0) (ground arith) (ground arith)
      refl

end_coarsened-back_example :
    (determ_task_clock_end_coarsened_tx module_kernel (worker many)
      ≡ some (settled_at (worker many) (added many)))
    × (determ_task_clock_read module_kernel (settled_at (worker many) (added many))
        ≡ sub64 (determ_task_clock_read module_kernel (worker many)) (2 ^ 32))
end_coarsened-back_example =
    end_coarsened-back caller module_kernel module_kernel-IsDispatched (worker many) (added many)
      (settled_lem (task_clock_add_ticks caller many synced) both_add.1) (ground arith)
      (ground arith) refl

-- Twelve observations of one kind and one of another, the latest first.
abbrev seen : List (ℕ × ℕ)
seen =
    (700, 12)
    ∷ (700, 11)
    ∷ (700, 10)
    ∷ (0, 99)
    ∷ (700, 9)
    ∷ (700, 8)
    ∷ (700, 7)
    ∷ (700, 6)
    ∷ (700, 5)
    ∷ (700, 4)
    ∷ (700, 3)
    ∷ (700, 2)
    ∷ (700, 1)
    ∷ []

ring_example : IsRing (observed 1 seen) (estimator_after (λ n. 0) seen 1)
ring_example = estimator-IsRing (λ n. 0) seen 1 (ground arith)

guess_example :
    let tx = estimator_after (λ n. 0) seen (tx_get_entry 700) in
    let n = length (observed (tx_get_entry 700) seen) in
    let guess = tx_estimate_next_observation_guess (estimator_after (λ n. 0) seen) 700 in
    ((n ≤ min_observations) × (guess ≡ no_guess))
    ⊎ ((min_observations < n) × (tx.ewma ≤ guess) × (guess ≤ tx.ewma + 99) × (tx.ewma ≤ 99))
guess_example = estimator-guess (λ n. 0) 99 seen 700 (ground arith) (ground arith) (ground arith)

shared_example : tx_get_entry 700 ≡ 1
shared_example = tx_get_entry_shared 700 (ground arith) (ground arith)
