-- ===== src/Tests/Notifications.antt =====
-- Thread 0 gives way to thread 1 (src/module/clock_main.c).
use task_clock.Common.{ℕ, ◌≡◌, refl, Bool, true, false, Option, some, [], ◌∷◌, arith, ok}
use task_clock.Listarray.{null}
use task_clock.Group.{Machine, wake_up_all, queue_irq_work}
use task_clock.Tests.State.{
  two, two_threads-Represents, two_small, two_lowest, two-IsListed, caller, interrupt, contended,
}
use task_clock.Search.{is_active}
use task_clock.Search.Fold.{IsLowestOf}
use task_clock.Notify.{determine_lowest_and_notify_or_wait, notify_waiting_threads}
use task_clock.Notify.Determine.{Determined, determine_lem}
use task_clock.Notify.Notified.{Notified, notify_waiting_threads_lem}
use task_clock.Handlers.{task_clock_entry_wait, task_clock_overflow_handler}
use task_clock.Handlers.Wait.{Waited, task_clock_entry_wait_lem}
use task_clock.Handlers.Interrupt.{overflow_handler-notify}

determine_example :
    (low tid : Option ℕ) × (m' : Machine) × (determine_lowest_and_notify_or_wait caller
        (λ _. 0)
        contended
      ≡ ok (tid, m'))
    × IsLowestOf contended.group (λ j. is_active (contended.group.clocks j)) two low
    × Determined caller contended low tid m'
determine_example =
    determine_lem caller contended (λ _. 0) two refl two_threads-Represents two_small refl

abbrev lone : Machine
lone = record contended {
  group = record (contended.group) {
    active_threads = record {
      entries = λ _. record { next = null; prev = null };
      head = 0;
      tail = 0;
      count = 1;
      max_index = 0;
    };
  };
}

task_clock_entry_wait_example :
    (low : Option ℕ) × (m' : Machine) × (task_clock_entry_wait caller contended ≡ ok m')
    × IsLowestOf contended.group (λ j. is_active (contended.group.clocks j)) two low
    × Waited caller contended low m'
task_clock_entry_wait_example =
    task_clock_entry_wait_lem caller contended two refl two_threads-Represents two_small refl refl

notify_waiting_threads_example :
    (low : Option ℕ) × (m' : Machine) × (notify_waiting_threads caller contended ≡ ok m')
    × IsLowestOf contended.group (λ j. is_active (contended.group.clocks j)) two low
    × Notified contended low m'
notify_waiting_threads_example =
    notify_waiting_threads_lem caller contended two refl two_threads-Represents two_small refl

overflow_handler-notify_example :
    (regs' : Bool) × (m₁ m₂ : Machine) × (task_clock_overflow_handler interrupt false contended
      ≡ ok (regs', m₁))
    × (notify_waiting_threads caller m₁ ≡ ok m₂)
    × (m₁.effects ≡ queue_irq_work ∷ [])
    × (m₂.group.lowest_tid ≡ some 1)
    × (true ≡ true → m₂.effects ≡ wake_up_all 1 ∷ queue_irq_work ∷ [])
    × (true ≡ false → (m₂.status 1).lowest_clock ≡ true)
overflow_handler-notify_example =
    overflow_handler-notify interrupt contended two 1 false caller refl refl
      (two-IsListed true (some 0) true)
      (record {
        listed = two_threads-Represents;
        recorded = refl;
        lowest = two_lowest true (some 0) true;
        other = ground arith;
        waits = refl;
      })
      refl two_small refl
