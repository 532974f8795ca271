-- ===== src/Notify/Wake.antt =====
-- Telling the lowest thread: `__wake_up_waiting_thread`, and the call after the group lock has been
-- released.
use task_clock.Common.{ℕ, ◌≡◌, ◌≢◌, true, false, some, ◌∷◌, arith, ◌==◌, if◌then◌else◌, ok}
use task_clock.Group.{Machine, wake_up_all}
use task_clock.Notify.{wake_up_waiting_thread}

-- Thread `t` is told that it is the lowest: woken if it sleeps, or by its flag in shared memory.
pub record Told (m : Machine) (t : ℕ) (m' : Machine) : Type 0 where
  pub asleep : (m.group.clocks t).sleeping ≡ true → m'.effects ≡ wake_up_all t ∷ m.effects
  pub by_event : (m.group.clocks t).sleeping ≡ true → m'.status ≡ m.status
  pub awake : (m.group.clocks t).sleeping ≡ false → (m'.status t).lowest_clock ≡ true
  pub by_flag :
      (m.group.clocks t).sleeping ≡ false
      → (m'.status t ≡ record (m.status t) { lowest_clock = true }) × (m'.effects ≡ m.effects)
  pub group_same : m'.group ≡ m.group

module _ (m : Machine) (t : ℕ) where
  abbrev flagged : Machine
  flagged =
      if (m.group.clocks t).sleeping
      then record m { effects = wake_up_all t ∷ m.effects }
      else record m {
        status = λ j. if t == j then record (m.status t) { lowest_clock = true } else m.status j;
      }

  -- Called for the recorded lowest thread, with the status records mapped, the function tells it:
  -- woken if it sleeps, or by its flag. No other thread's status changes, nor does the group.
  pub wake_up_waiting_thread_lem :
      m.group.lowest_tid ≡ some t
      → m.group.user_status_arr ≡ true
      → (m' : Machine) × (wake_up_waiting_thread t m ≡ ok m')
        × Told m t m'
        × ((j : ℕ) → t ≢ j → m'.status j ≡ m.status j)
  unfolding wake_up_waiting_thread
  wake_up_waiting_thread_lem low mapped =
      (flagged, ground arith, ground arith, λ j ne. ground arith)
