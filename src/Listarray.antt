-- ===== src/Listarray.antt =====
-- The array-based doubly linked list of active threads (src/module/listarray.h). An index is
-- stored as an `int16_t`, which is kept here as its bit pattern below `2 ^ 16`: -1 is 65535. Only
-- equality of such values is ever tested. An access outside `entries` is `out_of_bounds`.
pub mod Represents
pub mod Insert
pub mod Foreach
pub mod Remove
use task_clock.Common.{
  ℕ, zero, suc, ◌+◌, ◌-◌, ◌%◌, ◌^◌, Bool, not, ◌&&◌, ltb, leb, ◌==◌, if◌then◌else◌, update, Result,
  ok, bug, out_of_bounds, out_of_fuel, ◌>>=◌,
}

abbrev pub max_size : ℕ
max_size = 4096

-- LISTARRAY_ENTRY_NULL, (int16_t) -1
abbrev pub null : ℕ
null = 65535

-- LISTARRAY_ENTRY_DEAD
abbrev pub dead : ℕ
dead = max_size + 1

pub record ListarrayEntry : Type 0 where
  pub next : ℕ
  pub prev : ℕ

pub record Listarray : Type 0 where
  pub entries : ℕ → ListarrayEntry
  pub head : ℕ
  pub tail : ℕ
  pub count : ℕ
  pub max_index : ℕ

-- The conversion of an `int` index to `listarray_entry_ptr_t`.
abbrev pub to_ptr : ℕ → ℕ
to_ptr index = index % 2 ^ 16

-- A read of `la->entries[index]`.
unfoldable pub getentry : Listarray → ℕ → Result ListarrayEntry
getentry la index = if ltb index max_size then ok (la.entries index) else out_of_bounds

-- `la->entries[index].next = v`
unfoldable pub set_next : Listarray → ℕ → ℕ → Result Listarray
set_next la index v =
    if ltb index max_size
    then ok (record la {
      entries = update la.entries index (record { next = v; prev = (la.entries index).prev });
    })
    else out_of_bounds

-- `la->entries[index].prev = v`
unfoldable pub set_prev : Listarray → ℕ → ℕ → Result Listarray
set_prev la index v =
    if ltb index max_size
    then ok (record la {
      entries = update la.entries index (record { next = (la.entries index).next; prev = v });
    })
    else out_of_bounds

-- `init` writes every field, so what the allocated memory held does not matter.
unfoldable pub init : Listarray
init = record {
  entries = λ i. record { next = dead; prev = dead };
  head = null;
  tail = null;
  count = 0;
  max_index = 0;
}

unfoldable pub count : Listarray → ℕ
count la = la.count

-- The entry is linked behind the tail: the part of `insert` between its two tests.
unfoldable pub link : Listarray → ℕ → Result Listarray
unfolding set_next set_prev
link la index =
    if la.tail == null
    then set_prev (record la { head = to_ptr index; tail = to_ptr index }) index null
    else do
      la' ← set_next la la.tail (to_ptr index)
      la' ← set_prev la' index la'.tail
      ok (record la' { tail = to_ptr index })

unfoldable pub insert : Listarray → ℕ → Result Listarray
unfolding getentry set_next link
insert la index = do
  e ← getentry la index
  if not ((e.next == dead) && (e.prev == dead)) then bug else do
    la' ← link la index
    la' ← set_next la' index null
    let la'' = record la' { count = la'.count + 1 }
    ok (if ltb la''.max_index index then record la'' { max_index = index } else la'')

-- The four cases of `remove`: the only item, the head, the tail, and the middle of the list.
unfoldable pub unlink : Listarray → ListarrayEntry → Result Listarray
unfolding set_next set_prev
unlink la e =
    if (e.prev == null) && (e.next == null)
    then ok (record la { head = null; tail = null })
    else if e.prev == null
    then set_prev (record la { head = e.next }) e.next null
    else if e.next == null
    then set_next (record la { tail = e.prev }) e.prev null
    else do la' ← set_next la e.prev e.next; set_prev la' e.next e.prev

unfoldable pub remove : Listarray → ℕ → Result Listarray
unfolding getentry set_next set_prev unlink
remove la index = if leb la.count 0 then bug else do
  e ← getentry la index
  la' ← unlink la e
  la' ← set_next la' index dead
  la' ← set_prev la' index dead
  ok (record la' { count = la'.count - 1 })

unfoldable pub in_list : Listarray → ℕ → Result Bool
unfolding getentry
in_list la index = do e ← getentry la index; ok (not (e.next == dead) && not (e.prev == dead))

module _ {S : Type 0} (la : Listarray) (body : ℕ → S → Result S) where
  -- `listarray_foreach`, with the loop variable at `p`.
  unfoldable pub foreach_from : ℕ → ℕ → S → Result S
  unfolding getentry
  foreach_from zero p s = out_of_fuel
  foreach_from (suc fuel) p s =
      if p == null then ok s else do s' ← body p s; e ← getentry la p; foreach_from fuel e.next s'

  -- A list of `count` entries takes `count + 1` tests of the loop.
  unfoldable pub foreach : S → Result S
  unfolding foreach_from
  foreach s = foreach_from (la.count + 1) la.head s

  -- `listarray_foreach_allelements`, with `rounds` indices left from `i` on.
  unfoldable pub foreach_all_from : ℕ → ℕ → S → Result S
  foreach_all_from zero i s = ok s
  foreach_all_from (suc rounds) i s = do s' ← body i s; foreach_all_from rounds (i + 1) s'

  unfoldable pub foreach_allelements : S → Result S
  unfolding foreach_all_from
  foreach_allelements s = foreach_all_from (la.max_index + 1) 0 s
