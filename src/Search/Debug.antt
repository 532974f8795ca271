-- ===== src/Search/Debug.antt =====
-- `__search_for_lowest_waiting_debug`, which notes each thread that it visits
-- (src/module/search_entries.h).
use task_clock.Common.{
  ℕ, zero, suc, ◌+◌, ◌%◌, ◌^◌, ◌≤◌, ◌<◌, ◌≡◌, refl, ◌∙◌, Bool, true, Option, none, some, List, [],
  ◌∷◌, arith, ltb, ◌==◌, if◌then◌else◌, update, length, ◌⊎◌, inl, inr, Bool-cases, get_or, Result,
  ok, bug, out_of_fuel, out_of_bounds, ◌>>=◌,
}
use task_clock.Listarray.{foreach}
use task_clock.Listarray.Represents.{Represents}
use task_clock.Listarray.Foreach.{run_over, foreach-run_over}
use task_clock.Group.{Group}
use task_clock.Search.{
  thread_arr_size, is_active, mark_waiting, search_for_lowest, search_for_lowest_waiting,
}

-- The size of `active` in `struct clock_debug`, which is what is passed as `debug_arr`
abbrev pub active_size : ℕ
active_size = 32

-- What is noted of a thread: its id if it is active, and 100 more otherwise, as a byte.
abbrev pub debug_note : Group → ℕ → ℕ
debug_note g i = if is_active (g.clocks i) then i % 2 ^ 8 else (i + 100) % 2 ^ 8

-- `debug_arr`, and the number `j` of threads noted in it
pub record Notes : Type 0 where
  pub debug_arr : ℕ → ℕ
  pub j : ℕ

unfoldable pub debug_round : Group → ℕ → (ℕ → ℕ) × Notes → Result ((ℕ → ℕ) × Notes)
debug_round g i (thread_arr, notes) = mark_waiting g i thread_arr >>= λ thread_arr'.
    if ltb notes.j active_size
    then ok (
      thread_arr',
      record { debug_arr = update notes.debug_arr notes.j (debug_note g i); j = notes.j + 1 },
    )
    else out_of_bounds

-- What follows the loop
abbrev pub lowest_marked : Bool → Group → (thread_arr : ℕ → ℕ) → Result (Option ℕ)
lowest_marked in_nmi g thread_arr = search_for_lowest in_nmi g >>= λ low. elim low [
  | none ↦ ok none
  | some l ↦
      if ltb l thread_arr_size
      then ok (if thread_arr l == 1 then some l else none)
      else out_of_bounds
]

-- The result is that of the search, and the notes.
unfoldable pub search_for_lowest_waiting_debug :
    Bool → (stack : ℕ → ℕ) → (debug_arr : ℕ → ℕ) → Group → Result (Option ℕ × Notes)
search_for_lowest_waiting_debug in_nmi stack debug_arr g =
    foreach g.active_threads (debug_round g) (stack, record { debug_arr = debug_arr; j = 0 })
    >>= λ (thread_arr, notes). lowest_marked in_nmi g thread_arr >>= λ low. ok (low, notes)

mark_cases :
    (g : Group) (i : ℕ) (arr : ℕ → ℕ)
    → (mark_waiting g i arr ≡ out_of_bounds) ⊎ ((arr' : ℕ → ℕ) × (mark_waiting g i arr ≡ ok arr'))
unfolding mark_waiting
mark_cases g i arr = elim (Bool-cases ((g.clocks i).waiting)) [
  | inl waits ↦ elim (Bool-cases (ltb i thread_arr_size)) [
    | inl small ↦ inr (update arr i 1, rw (waits, small) refl)
    | inr large ↦ inl (rw (waits, large) refl)
  ]
  | inr idle ↦ inr (arr, rw idle refl)
]

abbrev noted : Group → ℕ → Notes → Notes
noted g i notes = record {
  debug_arr = update notes.debug_arr notes.j (debug_note g i);
  j = notes.j + 1;
}

-- The rounds over more threads than the array has room for
run_over-full :
    (g : Group) (xs : List ℕ) (thread_arr : ℕ → ℕ) (notes : Notes)
    → active_size < notes.j + length xs
    → notes.j ≤ active_size
    → run_over (debug_round g) xs (thread_arr, notes) ≡ out_of_bounds
unfolding run_over debug_round
run_over-full g [] thread_arr notes many le = ground arith
run_over-full g (x ∷ xs) thread_arr notes many le = elim (mark_cases g x thread_arr) [
  | inl beyond ↦ rw beyond refl
  | inr (arr, marks) ↦ elim (Bool-cases (ltb notes.j active_size)) [
    | inl room ↦
        rw (marks, room)
          (run_over-full g xs arr (noted g x notes) (omega (arith, many)) (ground arith))
    | inr full ↦ rw (marks, full) refl
  ]
]

-- With more than 32 threads in the list the search writes outside one of its arrays, in any context and
-- whatever the threads do.
pub search_for_lowest_waiting_debug_beyond :
    (in_nmi : Bool) (stack debug_arr : ℕ → ℕ) (g : Group) (xs : List ℕ)
    → Represents g.active_threads xs
    → active_size < length xs
    → search_for_lowest_waiting_debug in_nmi stack debug_arr g ≡ out_of_bounds
unfolding search_for_lowest_waiting_debug
search_for_lowest_waiting_debug_beyond in_nmi stack debug_arr g xs r many =
    rw
      (
        foreach-run_over g.active_threads (debug_round g) xs
            (stack, record { debug_arr = debug_arr; j = 0 }) r,
        run_over-full g xs stack (record { debug_arr = debug_arr; j = 0 }) (omega (arith, many))
            (omega arith),
      )
      refl

abbrev pub noted_all : Group → List ℕ → Notes → Notes
noted_all g [] notes = notes
noted_all g (x ∷ xs) notes = noted_all g xs (noted g x notes)

-- Where the array has room the notes do not disturb the marks.
run_over-noted :
    (g : Group) (xs : List ℕ) (thread_arr : ℕ → ℕ) (notes : Notes)
    → notes.j + length xs ≤ active_size
    → run_over (debug_round g) xs (thread_arr, notes)
      ≡ (run_over (mark_waiting g) xs thread_arr >>= λ arr. ok (arr, noted_all g xs notes))
unfolding run_over debug_round
run_over-noted g [] thread_arr notes room = refl
run_over-noted g (x ∷ xs) thread_arr notes room = elim (mark_cases g x thread_arr) [
  | inl beyond ↦ rw beyond refl
  | inr (arr, marks) ↦
      let fits : ltb notes.j active_size ≡ true = ground (arith, room) in
      rw (marks, fits) (run_over-noted g xs arr (noted g x notes) (omega (arith, room)))
]

noted_before :
    (g : Group) (xs : List ℕ) (notes : Notes) (i : ℕ)
    → i < notes.j
    → (noted_all g xs notes).debug_arr i ≡ notes.debug_arr i
noted_before g [] notes i lt = refl
noted_before g (x ∷ xs) notes i lt =
    noted_before g xs (noted g x notes) i (omega (arith, lt)) ∙ ground arith

noted_here :
    (g : Group) (xs : List ℕ) (notes : Notes) (i : ℕ)
    → i < length xs
    → (noted_all g xs notes).debug_arr (notes.j + i) ≡ debug_note g (get_or 0 xs i)
noted_here g [] notes i lt = ground arith
noted_here g (x ∷ xs) notes zero lt =
    noted_before g xs (noted g x notes) (notes.j + 0) (omega arith) ∙ ground arith
noted_here g (x ∷ xs) notes (suc i) lt =
    let e : notes.j + suc i ≡ notes.j + 1 + i = omega arith in
    rw e (noted_here g xs (noted g x notes) i (omega (arith, lt)))

same_end :
    (marks : Result (ℕ → ℕ)) (find : (ℕ → ℕ) → Result (Option ℕ)) (notes : Notes)
    → ◌≡◌ {A = Result (Option ℕ × Notes)}
        (◌>>=◌ {Y = (ℕ → ℕ) × Notes} marks (λ arr. ok (arr, notes)) >>= λ r.
          find r.0 >>= λ low. ok (low, r.1))
        ((marks >>= find) >>= λ low. ok (low, notes))
same_end (ok arr) find notes = refl
same_end bug find notes = refl
same_end out_of_bounds find notes = refl
same_end out_of_fuel find notes = refl

-- With at most 32 threads in the list the result is that of the search without notes, faults included,
-- and in the order of the list each thread's id is noted, or 100 more if it is not active, as a byte.
pub search_for_lowest_waiting_debug_lem :
    (in_nmi : Bool) (stack debug_arr : ℕ → ℕ) (g : Group) (xs : List ℕ)
    → Represents g.active_threads xs
    → length xs ≤ active_size
    → (notes : Notes) × (search_for_lowest_waiting_debug in_nmi stack debug_arr g
        ≡ (search_for_lowest_waiting in_nmi stack g >>= λ low. ok (low, notes)))
      × ((i : ℕ) → i < length xs → notes.debug_arr i ≡ debug_note g (get_or 0 xs i))
unfolding search_for_lowest_waiting_debug search_for_lowest_waiting
search_for_lowest_waiting_debug_lem in_nmi stack debug_arr g xs r few =
    let notes : Notes = record { debug_arr = debug_arr; j = 0 } in
    (
      noted_all g xs notes,
      rw
          (
            foreach-run_over g.active_threads (debug_round g) xs (stack, notes) r,
            foreach-run_over g.active_threads (mark_waiting g) xs stack r,
            run_over-noted g xs stack notes (omega (arith, few)),
          )
          (same_end (run_over (mark_waiting g) xs stack) (lowest_marked in_nmi g)
            (noted_all g xs notes)),
      λ i lt. ground (arith, noted_here g xs notes i lt),
    )
