-- ===== src/Search/Printing.antt =====
-- The searches that print what they visit (src/module/search_entries.h). The lines that are handed to
-- `printk` are a result, latest first.
use task_clock.Common.{
  ℕ, ◌≡◌, refl, Bool, true, false, ◌&&◌, Option, none, some, List, [], ◌∷◌, ltb, ◌==◌,
  if◌then◌else◌, Bool-cases, inl, inr, Result, ok, bug, out_of_fuel, out_of_bounds, ◌>>=◌,
}
use task_clock.Listarray.{foreach, foreach_allelements}
use task_clock.Listarray.Represents.{Represents}
use task_clock.Listarray.Foreach.{run_over, foreach-run_over}
use task_clock.Group.{Group, get_clock_ticks, clock_is_lower}
use task_clock.Search.{
  thread_arr_size, scan, is_active, keep_lower, mark_waiting, search_for_lowest,
  search_for_lowest_waiting,
}

-- The lines of the two searches. -1 is `none`.
pub data Line : Type 0 where
  starting_search : Line
  looking_at : (i : ℕ) → (min : Option ℕ) → Line
  comparing : (clock min : ℕ) → (result waiting sleeping : Bool) → Line
  setting_min : (i : ℕ) → Line
  search_result : (low returned : Option ℕ) → Line

-- What is printed of a thread before the test.
abbrev pub look : Group → ℕ → Option ℕ → List Line → List Line
look g i none lines = looking_at i none ∷ lines
look g i (some min) lines =
    comparing (get_clock_ticks g i) (get_clock_ticks g min) (clock_is_lower g i min)
      (g.clocks i).waiting (g.clocks i).sleeping
    ∷ looking_at i (some min)
    ∷ lines

-- The test for a lower clock among active threads.
abbrev pub is_lower : Group → ℕ → Option ℕ → Bool
is_lower g i none = is_active (g.clocks i)
is_lower g i (some min) = is_active (g.clocks i) && clock_is_lower g i min

unfoldable pub print_round : Group → ℕ → Option ℕ × List Line → Result (Option ℕ × List Line)
print_round g i (min, lines) =
    if is_lower g i min
    then ok (some i, setting_min i ∷ look g i min lines)
    else ok (min, look g i min lines)

unfoldable pub search_for_lowest_print : Bool → Group → Result (Option ℕ × List Line)
search_for_lowest_print in_nmi g =
    if in_nmi
    then (foreach_allelements g.active_threads
          (λ i low. ok (keep_lower g (λ j. is_active (g.clocks j)) i low)) none
        >>= λ low. ok (low, starting_search ∷ []))
    else foreach g.active_threads (print_round g) (none, starting_search ∷ [])

-- What follows the two loops of the search for the lowest waiting thread.
abbrev pub print_result : (thread_arr : ℕ → ℕ) → Option ℕ → Result (Option ℕ × List Line)
print_result thread_arr none = ok (none, search_result none none ∷ [])
print_result thread_arr (some l) =
    let returned = if thread_arr l == 1 then some l else none in
    if ltb l thread_arr_size
    then ok (returned, search_result (some l) returned ∷ [])
    else out_of_bounds

unfoldable pub search_for_lowest_waiting_print :
    Bool → (stack : ℕ → ℕ) → Group → Result (Option ℕ × List Line)
search_for_lowest_waiting_print in_nmi stack g = do
  thread_arr ← foreach g.active_threads (mark_waiting g) stack
  low ← search_for_lowest in_nmi g
  print_result thread_arr low

-- The thread that a search with output returns.
abbrev pub found : Result (Option ℕ × List Line) → Result (Option ℕ)
found (ok (low, lines)) = ok low
found bug = bug
found out_of_bounds = out_of_bounds
found out_of_fuel = out_of_fuel

-- A round is that of the search without output.
print_round-keep_lower :
    (g : Group) (i : ℕ) (min : Option ℕ) (lines : List Line)
    → (lines' : List Line) × (print_round g i (min, lines)
        ≡ ok (keep_lower g (λ j. is_active (g.clocks j)) i min, lines'))
unfolding print_round
print_round-keep_lower g i none lines = elim (Bool-cases (is_active (g.clocks i))) [
  | inl active ↦ (setting_min i ∷ look g i none lines, rw active refl)
  | inr idle ↦ (look g i none lines, rw idle refl)
]
print_round-keep_lower g i (some min) lines =
    elim (Bool-cases (is_active (g.clocks i) && clock_is_lower g i min)) [
      | inl lower ↦ (setting_min i ∷ look g i (some min) lines, rw lower refl)
      | inr higher ↦ (look g i (some min) lines, rw higher refl)
    ]

found-run_over :
    (g : Group) (xs : List ℕ) (min : Option ℕ) (lines : List Line)
    → found (run_over (print_round g) xs (min, lines))
      ≡ run_over (λ i low. ok (keep_lower g (λ j. is_active (g.clocks j)) i low)) xs min
unfolding run_over
found-run_over g [] min lines = refl
found-run_over g (x ∷ xs) min lines =
    let (lines', round) = print_round-keep_lower g x min lines in
    rw round (found-run_over g xs (keep_lower g (λ j. is_active (g.clocks j)) x min) lines')

found-printed :
    (r : Result (Option ℕ)) (lines : List Line) → found (r >>= λ low. ok (low, lines)) ≡ r
found-printed (ok low) lines = refl
found-printed bug lines = refl
found-printed out_of_bounds lines = refl
found-printed out_of_fuel lines = refl

-- The search that prints finds what the search without output finds, in any context.
pub search_for_lowest_print_lem :
    (in_nmi : Bool) (g : Group) (xs : List ℕ)
    → Represents g.active_threads xs
    → found (search_for_lowest_print in_nmi g) ≡ search_for_lowest in_nmi g
unfolding search_for_lowest_print search_for_lowest scan
search_for_lowest_print_lem true g xs r = found-printed _ (starting_search ∷ [])
search_for_lowest_print_lem false g xs r =
    rw
      (
        foreach-run_over g.active_threads (print_round g) xs (none, starting_search ∷ []) r,
        foreach-run_over g.active_threads
            (λ i low. ok (keep_lower g (λ j. is_active (g.clocks j)) i low)) xs none r,
      )
      (found-run_over g xs none (starting_search ∷ []))

found-print_result :
    (thread_arr : ℕ → ℕ) (low : Option ℕ)
    → found (print_result thread_arr low) ≡ (elim low [
      | none ↦ ok none
      | some l ↦
          if ltb l thread_arr_size
          then ok (if thread_arr l == 1 then some l else none)
          else out_of_bounds
    ])
found-print_result thread_arr none = refl
found-print_result thread_arr (some l) = elim (Bool-cases (ltb l thread_arr_size)) [
  | inl room ↦ rw room refl
  | inr beyond ↦ rw beyond refl
]

-- The same for a step and the next ones.
found-bind :
    {X : Type 0} (r : Result X) (f : X → Result (Option ℕ × List Line)) (h : X → Result (Option ℕ))
    → ((x : X) → found (f x) ≡ h x)
    → found (r >>= f) ≡ (r >>= h)
found-bind (ok x) f h each = each x
found-bind bug f h each = refl
found-bind out_of_bounds f h each = refl
found-bind out_of_fuel f h each = refl

-- So does the one for the lowest waiting thread, faults included, whatever the array holds.
pub search_for_lowest_waiting_print_lem :
    (in_nmi : Bool) (stack : ℕ → ℕ) (g : Group)
    → found (search_for_lowest_waiting_print in_nmi stack g)
      ≡ search_for_lowest_waiting in_nmi stack g
unfolding search_for_lowest_waiting_print search_for_lowest_waiting
search_for_lowest_waiting_print_lem in_nmi stack g =
    found-bind (foreach g.active_threads (mark_waiting g) stack) _ _ (λ thread_arr.
      found-bind (search_for_lowest in_nmi g) _ _ (λ low. found-print_result thread_arr low))
