-- ===== src/Tests/Startups.antt =====
-- Three threads that start their clocks (src/lib/determ_clock.c).
use task_clock.Common.{ℕ, true, List, [], ◌∷◌}
use task_clock.Group.{UserStatus}
use task_clock.Library.{Thread}
use task_clock.Library.Startup.{Shared}
use task_clock.Tests.State.{clean_status}
use task_clock.Tests.Libraries.{thread}

abbrev shared : Shared
shared = record { id_counter = 4; event_debugging = λ _. 0; event_tick_debugging = λ _. 0 }

-- A thread whose status record has been in use
abbrev used : Thread (UserStatus × ℕ)
used = record thread { kernel = (record clean_status { lowest_clock = true; ticks = 77 }, 3) }

abbrev threads : List (Thread (UserStatus × ℕ))
threads = thread ∷ used ∷ thread ∷ []
