-- ===== src/Tests/Lists.antt =====
-- `listarray` at a list of two (src/module/listarray.h).
use task_clock.Common.{◌≡◌, refl, [], ◌∷◌, ◌++◌, arith, erase, ok}
use task_clock.Listarray.{Listarray}
use task_clock.Listarray.Represents.{Represents}
use task_clock.Tests.State.{two, two_threads, two_threads-Represents}
use task_clock.Listarray.{insert, remove}
use task_clock.Listarray.Insert.{insert-append}
use task_clock.Listarray.Remove.{remove-erase}

remove-erase_example :
    (la : Listarray) × (remove two_threads 0 ≡ ok la) × Represents la (erase 0 two)
remove-erase_example = remove-erase two_threads two 0 two_threads-Represents refl

insert-append_example :
    (la : Listarray) × (insert two_threads 7 ≡ ok la) × Represents la (two ++ (7 ∷ []))
insert-append_example = insert-append two_threads two 7 two_threads-Represents (ground arith) refl
