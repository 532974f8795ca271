-- ===== src/ClockCache/Replay.antt =====
-- A run that records clock values and the run after it (src/lib/debug_clock_cache.c).
use task_clock.Common.{
  ℕ, ◌+◌, ◌-◌, ◌*◌, ◌^◌, ◌≤◌, ◌<◌, ◌≡◌, refl, sym, ap, ◌∙◌, true, ◌&&◌, List, [], ◌∷◌, inl, inr,
  ltb, arith, update, ◌⊎◌, rounded, rounded_upper, Bool-cases,
}
use task_clock.Group.{add64}
use task_clock.ClockCache.{
  ClockCache, Outcome, done, exited, beyond, ◌>>=◌, arr_size, adjustment, last_value, diff_of,
  debug_clock_cache_insert, debug_clock_cache_get,
}

double_upper : (n : ℕ) → 2 ^ 53 * rounded (2 ^ 52) n ≤ 2 ^ 53 * n + n
double_upper n = elim (rounded_upper (2 ^ 52) n) [
  | inl same ↦ omega (arith, same)
  | inr (unit, fits, near) ↦ omega (arith, fits, near)
]

-- The adjustment is at most the difference.
adjustment_upper : (n : ℕ) → adjustment n ≤ n
unfolding adjustment
adjustment_upper n =
    omega (arith, double_upper n, double_upper (rounded (2 ^ 52) n * 7205759403792794))

-- A run that inserts one clock value after another.
unfoldable pub insert_all : List ℕ → ClockCache → Outcome ClockCache
insert_all [] clocks = done clocks
insert_all (v ∷ vs) clocks = do
  (clocks', _) ← debug_clock_cache_insert clocks v
  insert_all vs clocks'

-- A run that asks for one value after another, and the values it gets.
unfoldable pub get_all : List ℕ → ClockCache → Outcome (List ℕ)
get_all [] clocks = done []
get_all (v ∷ vs) clocks = do
  (w, clocks', _) ← debug_clock_cache_get clocks v
  ws ← get_all vs clocks'
  done (w ∷ ws)

-- What the file holds from an index on.
abbrev pub values_from : (file : ℕ → ℕ) → (index : ℕ) → List ℕ → List ℕ
values_from file index [] = []
values_from file index (v ∷ vs) = file index ∷ values_from file (index + 1) vs

-- Each value is at least the one asked with, and at most twice that.
abbrev pub AllInRange : List ℕ → List ℕ → Type 0
AllInRange [] ws = Unit
AllInRange (v ∷ vs) [] = ⊥
AllInRange (v ∷ vs) (w ∷ ws) = (v ≤ w) × (w ≤ 2 * v) × AllInRange vs ws

abbrev pub AllBelow : ℕ → List ℕ → Type 0
AllBelow top [] = Unit
AllBelow top (v ∷ vs) = (v < top) × AllBelow top vs

abbrev pub inserted : ClockCache → ℕ → ClockCache
inserted c v = record c {
  clock_arr = update c.clock_arr c.count (add64 v (diff_of c v));
  count = c.count + 1;
}

-- An insertion does this, or does not return.
insert_cases :
    (c : ClockCache) (v : ℕ)
    → (debug_clock_cache_insert c v ≡ exited)
      ⊎ (debug_clock_cache_insert c v ≡ beyond)
      ⊎ ((c.count < arr_size) × (debug_clock_cache_insert c v ≡ done (inserted c v, diff_of c v)))
unfolding debug_clock_cache_insert
insert_cases c v = elim (Bool-cases (ltb 0 c.count && ltb v (last_value c))) [
  | inl lower ↦ inl (rw lower refl)
  | inr higher ↦ elim (Bool-cases (ltb c.count arr_size)) [
    | inl room ↦ inr (inr (ground arith, rw (higher, room) refl))
    | inr full ↦ inr (inl (rw (higher, full) refl))
  ]
]

get_hit :
    (c : ClockCache) (v : ℕ)
    → c.count < arr_size
    → v ≤ c.clock_arr c.count
    → debug_clock_cache_get c v
      ≡ done (c.clock_arr c.count, record c { count = c.count + 1 }, c.clock_arr c.count - v)
unfolding debug_clock_cache_get
get_hit c v room le = ground arith

diff_of_upper : (c : ClockCache) (v : ℕ) → diff_of c v ≤ v
diff_of_upper c v = elim (Bool-cases (ltb 0 c.count)) [
  | inl some_before ↦ rw some_before (omega (arith, adjustment_upper (v - last_value c)))
  | inr none_before ↦ rw none_before (adjustment_upper v)
]

-- What is stored for a value is in range.
stored_range :
    (c : ClockCache) (v : ℕ)
    → v < 2 ^ 63
    → (v ≤ add64 v (diff_of c v)) × (add64 v (diff_of c v) ≤ 2 * v)
stored_range c v small =
    (omega (arith, diff_of_upper c v, small), omega (arith, diff_of_upper c v, small))

-- A run that has inserted its values leaves the earlier ones, and a run that asks with the same
-- values gets what it has stored.
abbrev Replays : List ℕ → ClockCache → ClockCache → Type 0
Replays vs c c' =
    ((i : ℕ) → i < c.count → c'.clock_arr i ≡ c.clock_arr i)
    × (get_all vs (record c' { count = c.count }) ≡ done (values_from c'.clock_arr c.count vs))
    × AllInRange vs (values_from c'.clock_arr c.count vs)

first_value :
    (c c' : ClockCache) (v : ℕ) (vs : List ℕ)
    → v < 2 ^ 63
    → c.count < arr_size
    → Replays vs (inserted c v) c'
    → Replays (v ∷ vs) c c'
unfolding get_all
first_value c c' v vs small room (before, gets, range) =
    let here : c'.clock_arr c.count ≡ add64 v (diff_of c v) =
      before c.count (omega arith) ∙ ground arith in
    let (low, high) = stored_range c v small in
    let hit = get_hit (record c' { count = c.count }) v room (omega (arith, here, low)) in
    (
      λ i lt. before i (omega (arith, lt)) ∙ ground arith,
      rw hit (rw gets refl),
      (omega (arith, here, low), omega (arith, here, high), range),
    )

abbrev then_all : List ℕ → Outcome (ClockCache × ℕ) → Outcome ClockCache
then_all vs r = r >>= λ (c, d). insert_all vs c

same_file :
    (c c' : ClockCache)
    → ◌≡◌ {A = Outcome ClockCache} (done c) (done c')
    → c'.clock_arr ≡ c.clock_arr
same_file c c' e = ap (λ r. file_of r) (sym e)
  where
    file_of : Outcome ClockCache → ℕ → ℕ
    file_of (done c₁) = c₁.clock_arr
    file_of exited = c.clock_arr
    file_of beyond = c.clock_arr

insert_all-Replays :
    (vs : List ℕ) (c c' : ClockCache)
    → AllBelow (2 ^ 63) vs
    → insert_all vs c ≡ done c'
    → Replays vs c c'
unfolding insert_all get_all
insert_all-Replays [] c c' below runs =
    (λ i lt. ap (λ (f : ℕ → ℕ). f i) (same_file c c' runs), refl, tt)
insert_all-Replays (v ∷ vs) c c' (small, below) runs = elim (insert_cases c v) [
  | inl exits ↦ let e = sym (ap (then_all vs) exits) ∙ runs in cc
  | inr (inl leaves) ↦ let e = sym (ap (then_all vs) leaves) ∙ runs in cc
  | inr (inr (room, returns)) ↦
      first_value c c' v vs small room
        (insert_all-Replays vs (inserted c v) c' below (sym (ap (then_all vs) returns) ∙ runs))
]

-- Clock values that a run has inserted, each below 2^63, are answered in a run that asks with the same
-- values from the place where the first began: by what was stored in the file, at least the value
-- asked with and at most twice that, and no request fails.
pub replay_lem :
    (vs : List ℕ) (c c' : ClockCache)
    → AllBelow (2 ^ 63) vs
    → insert_all vs c ≡ done c'
    → (get_all vs (record c' { count = c.count }) ≡ done (values_from c'.clock_arr c.count vs))
      × AllInRange vs (values_from c'.clock_arr c.count vs)
replay_lem vs c c' below runs =
    let (before, gets, range) = insert_all-Replays vs c c' below runs in (gets, range)

-- After a value below 2^63 was inserted, and stored with its adjustment, inserting a value that is below
-- the adjusted one ends the program.
pub insert-exited :
    (c : ClockCache) (v v' : ℕ)
    → v < 2 ^ 63
    → v' < v + diff_of c v
    → debug_clock_cache_insert (inserted c v) v' ≡ exited
unfolding debug_clock_cache_insert
insert-exited c v v' small less =
    let last : last_value (inserted c v) ≡ add64 v (diff_of c v) =
      update_last c.clock_arr c.count (add64 v (diff_of c v)) in
    let lower : (ltb 0 (c.count + 1) && ltb v' (last_value (inserted c v))) ≡ true =
      rw last (below_last c.count v v' (diff_of c v) less (diff_of_upper c v) small) in
    rw lower refl
  where
    update_last : (f : ℕ → ℕ) (n x : ℕ) → update f n x (n + 1 - 1) ≡ x
    update_last f n x = ground arith

    below_last :
        (n v v' d : ℕ)
        → v' < v + d
        → d ≤ v
        → v < 2 ^ 63
        → (ltb 0 (n + 1) && ltb v' (add64 v d)) ≡ true
    below_last n v v' d less le small = ground arith
