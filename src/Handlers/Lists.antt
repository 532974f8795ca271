-- ===== src/Handlers/Lists.antt =====
-- The handlers that add threads to the list of active threads and remove them from it.
use task_clock.Common.{
  ℕ, ◌<◌, ◌≡◌, refl, Bool, true, false, List, [], ◌∷◌, ◌++◌, arith, ◌==◌, if◌then◌else◌, length,
  ◌∈◌, ◌∉◌, erase, has-erase, has-append, ok, bug, out_of_bounds,
}
use task_clock.Listarray.{max_size}
use task_clock.Listarray.Represents.{Represents}
use task_clock.Listarray.Remove.{remove-erase, remove_absent}
use task_clock.Listarray.Insert.{insert-append}
use task_clock.Group.{Machine, entry, put_entry, mark_as_inactive, mark_as_active}

-- The list holds the threads `xs`, and none of them is marked inactive.
pub record IsWellFormed (m : Machine) (xs : List ℕ) : Type 0 where
  pub listed : Represents m.group.active_threads xs
  pub active : (i : ℕ) → i ∈ xs → (entry m i).inactive ≡ false

module _ (m : Machine) (xs : List ℕ) where
  -- What marking a thread leaves alone.
  pub record Marked (id : ℕ) (b : Bool) (m' : Machine) : Type 0 where
    pub entries :
        (i : ℕ) → entry m' i ≡ (if id == i then record (entry m id) { inactive = b } else entry m i)
    pub mapped : m'.group.user_status_arr ≡ m.group.user_status_arr
    pub lowest : m'.group.lowest_tid ≡ m.group.lowest_tid
    pub status : m'.status ≡ m.status
    pub needed : m'.group.notification_needed ≡ m.group.notification_needed
    pub effects : m'.effects ≡ m.effects

  pub mark_as_inactive-erase :
      (id : ℕ)
      → IsWellFormed m xs
      → id ∈ xs
      → (m' : Machine) × (mark_as_inactive id m ≡ ok m')
        × IsWellFormed m' (erase id xs)
        × Marked id true m'
  unfolding mark_as_inactive
  mark_as_inactive-erase id w mem =
      let (la, runs, rep) = remove-erase m.group.active_threads xs id w.listed mem in
      (
        record m {
          group = record ((put_entry m id (record (entry m id) { inactive = true })).group) {
            active_threads = la;
          };
        },
        rw runs refl,
        record {
          listed = rep;
          active = λ i here. ground (arith, has-erase id i xs w.listed.distinct, w.active i);
        },
        record {
          entries = λ i. refl;
          mapped = refl;
          lowest = refl;
          status = refl;
          needed = refl;
          effects = refl;
        },
      )

  pub mark_as_active-append :
      (id : ℕ)
      → IsWellFormed m xs
      → id < max_size
      → id ∉ xs
      → (m' : Machine) × (mark_as_active id m ≡ ok m')
        × IsWellFormed m' (xs ++ (id ∷ []))
        × Marked id false m'
  unfolding mark_as_active
  mark_as_active-append id w lt out =
      let (la, runs, rep) = insert-append m.group.active_threads xs id w.listed lt out in
      (
        record m {
          group = record ((put_entry m id (record (entry m id) { inactive = false })).group) {
            active_threads = la;
          };
        },
        rw runs refl,
        record {
          listed = rep;
          active = λ i here. ground (arith, has-append i xs (id ∷ []), w.active i);
        },
        record {
          entries = λ i. refl;
          mapped = refl;
          lowest = refl;
          status = refl;
          needed = refl;
          effects = refl;
        },
      )

  -- A thread that is not listed cannot be halted: the removal faults.
  pub mark_as_inactive_absent :
      (id : ℕ)
      → IsWellFormed m xs
      → id < max_size
      → id ∉ xs
      → mark_as_inactive id m ≡ (if length xs == 0 then bug else out_of_bounds)
  unfolding mark_as_inactive
  mark_as_inactive_absent id w lt out =
      rw (remove_absent m.group.active_threads xs id w.listed lt out) (ground arith)
