-- ===== src/Handlers/GroupInit.antt =====
-- `task_clock_group_init` and `__init_task_clock_entries`.
use task_clock.Common.{
  ℕ, zero, suc, ◌+◌, ◌<◌, ◌≤◌, ◌≡◌, refl, false, [], arith, ◌==◌, update, ◌∙◌, inl, inr, Bool-cases,
}
use task_clock.Listarray.Insert.{init-Represents}
use task_clock.Group.{Entry}
use task_clock.Handlers.{init_task_clock_entries, task_clock_group_init}
use task_clock.Listarray.Represents.{Represents}

-- An entry as the initialisation leaves it.
pub record IsCleared (e : Entry) : Type 0 where
  pub initialized : e.initialized ≡ false
  pub waiting : e.waiting ≡ false
  pub sleeping : e.sleeping ≡ false
  pub inactive : e.inactive ≡ false
  pub ticks : e.ticks ≡ 0

abbrev clear_one : (ℕ → Entry) → ℕ → ℕ → Entry
clear_one clocks i = update clocks i (record (clocks i) {
  initialized = false;
  waiting = false;
  sleeping = false;
  inactive = false;
  ticks = 0;
})

untouched :
    (rounds i : ℕ) (clocks : ℕ → Entry) (j : ℕ)
    → j < i
    → init_task_clock_entries rounds i clocks j ≡ clocks j
unfolding init_task_clock_entries
untouched zero i clocks j lt = refl
untouched (suc rounds) i clocks j lt =
    untouched rounds (i + 1) (clear_one clocks i) j (omega arith) ∙ ground arith

cleared :
    (rounds i : ℕ) (clocks : ℕ → Entry) (j : ℕ)
    → i ≤ j
    → j < i + rounds
    → IsCleared (init_task_clock_entries rounds i clocks j)
unfolding init_task_clock_entries
cleared zero i clocks j le lt = absurd (omega arith)
cleared (suc rounds) i clocks j le lt = elim (Bool-cases (i == j)) [
  | inl here ↦ rw (untouched rounds (i + 1) (clear_one clocks i) j (ground arith)) (ground arith)
  | inr later ↦ cleared rounds (i + 1) (clear_one clocks i) j (ground arith) (omega arith)
]

beyond :
    (rounds i : ℕ) (clocks : ℕ → Entry) (j : ℕ)
    → i + rounds ≤ j
    → init_task_clock_entries rounds i clocks j ≡ clocks j
unfolding init_task_clock_entries
beyond zero i clocks j le = refl
beyond (suc rounds) i clocks j le =
    beyond rounds (i + 1) (clear_one clocks i) j (omega arith) ∙ ground arith

-- A new group, whatever the allocated memory held, has an empty list of active threads, and each
-- entry below the number of threads is cleared: not initialised, waiting, sleeping or inactive, with
-- no ticks. The entries beyond are not written.
pub task_clock_group_init_lem :
    (max_threads : ℕ) (memory : ℕ → Entry)
    → Represents (task_clock_group_init max_threads memory).active_threads []
      × ((i : ℕ)
          → i < max_threads
          → IsCleared ((task_clock_group_init max_threads memory).clocks i))
      × ((i : ℕ) → max_threads ≤ i → (task_clock_group_init max_threads memory).clocks i ≡ memory i)
unfolding task_clock_group_init
task_clock_group_init_lem max_threads memory = (
  init-Represents,
  λ i lt. cleared max_threads 0 memory i (omega arith) (omega arith),
  λ i le. beyond max_threads 0 memory i (omega arith),
)
