-- ===== src/Tests/Searches.antt =====
-- The searches among two threads (src/module/search_entries.h).
use task_clock.Common.{
  ◌≡◌, refl, true, false, some, [], ◌∷◌, arith, ◌==◌, if◌then◌else◌, ok, out_of_bounds,
}
use task_clock.Listarray.Represents.{Represents}
use task_clock.Listarray.{Listarray, null, dead}
use task_clock.Group.{Group}
use task_clock.Tests.State.{two, two_threads-Represents, two_small, two-IsListed, clocks, contended}
use task_clock.Search.{search_for_lowest, search_for_lowest_waiting}
use task_clock.Search.Lowest.{lowest, search_for_lowest_nmi}
use task_clock.Search.Waiting.{
  waiting_result, search_for_lowest_waiting_lem, search_for_lowest_waiting_beyond,
}

abbrev g : Group
g = contended.group

search_for_lowest_nmi_example : search_for_lowest true g ≡ search_for_lowest false g
search_for_lowest_nmi_example =
    search_for_lowest_nmi g two two_threads-Represents (two-IsListed true (some 0) true)

search_for_lowest_waiting_example :
    search_for_lowest_waiting false (λ _. 1) g ≡ ok (waiting_result g (λ _. 1) (lowest g two))
search_for_lowest_waiting_example =
    search_for_lowest_waiting_lem g two two_threads-Represents (λ _. 1) two_small

-- Thread 200 alone, waiting.
abbrev far : Listarray
far = record {
  entries = λ i.
      if i == 200 then record { next = null; prev = null } else record { next = dead; prev = dead };
  head = 200;
  tail = 200;
  count = 1;
  max_index = 200;
}

far-Represents : Represents far (200 ∷ [])
far-Represents = record {
  chain = ground arith;
  last = refl;
  distinct = (refl, tt);
  others = λ i lt out. ground arith;
  counted = refl;
  bounded = λ i m. ground arith;
}

abbrev far_group : Group
far_group = record g { clocks = λ _. clocks true 1; active_threads = far }

search_for_lowest_waiting_beyond_example :
    search_for_lowest_waiting false (λ _. 0) far_group ≡ out_of_bounds
search_for_lowest_waiting_beyond_example =
    search_for_lowest_waiting_beyond far_group (200 ∷ []) far-Represents (λ _. 0) 200 refl refl
      (ground arith)
