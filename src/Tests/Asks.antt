-- ===== src/Tests/Asks.antt =====
-- Thread 0 asks for its turn, which is that of thread 1 (src/lib/determ_clock.c).
use task_clock.Common.{ℕ, ◌≡◌, refl, false, not, Option, some, is_tid}
use task_clock.Search.{is_active}
use task_clock.Search.Fold.{IsLowestOf}
use task_clock.Group.{Machine}
use task_clock.Library.{Thread}
use task_clock.Library.Waiting.{determ_task_clock_is_lowest}
use task_clock.Library.Granted.{is_lowest_lem}
use task_clock.Tests.Libraries.{info, module_kernel, module_kernel-IsDispatched}
use task_clock.Tests.State.{two, two_small, two_threads-Represents, caller, contended}

abbrev asker : Thread Machine
asker = record { info = info 0; kernel = contended }

is_lowest_example :
    (low : Option ℕ) × (t' : Thread Machine) × (determ_task_clock_is_lowest module_kernel asker
      ≡ some (is_tid low 0, t'))
    × IsLowestOf contended.group (λ j. is_active (contended.group.clocks j)) two low
    × (t'.info.disabled ≡ not (is_tid low 0))
    × ((t'.kernel.status 0).lowest_clock ≡ false)
is_lowest_example =
    is_lowest_lem caller module_kernel module_kernel-IsDispatched asker two refl
      two_threads-Represents two_small refl refl refl refl
