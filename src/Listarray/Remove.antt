-- ===== src/Listarray/Remove.antt =====
-- listarray_remove and listarray_in_list against the list that the entries stand for.
use mathlib.Core.Path.{subst}
use task_clock.Common.{
  ap, sym, ℕ, ◌-◌, ◌<◌, ◌≡◌, ◌≢◌, ◌⊎◌, true, false, inl, inr, List, [], ◌∷◌, arith, ◌==◌,
  if◌then◌else◌, update, length, length-erase, has, ◌∈◌, ◌∉◌, Distinct, last_or, erase, has-erase,
  Distinct-erase, ok, bug, out_of_bounds, Bool-cases,
}
use task_clock.Listarray.{max_size, null, dead, ListarrayEntry, Listarray, remove, in_list}
use task_clock.Listarray.Represents.{
  Linked, Linked-lt, Linked-next, Linked-prev, not-mem_of_le, Linked-frame, IsDead, Represents,
}

module _ (e : ℕ → ListarrayEntry) (a : ℕ) where
  Linked-first :
      (before p : ℕ) (xs : List ℕ) → Linked e before p xs → a ∈ xs → p ≡ a → (e a).prev ≡ before
  Linked-first before p [] l m h = ground arith
  Linked-first before p (x ∷ xs) l m h = ground arith

  -- The pointers of a member are NULL or lead to members.
  prev_bounds :
      (before p : ℕ) (xs : List ℕ)
      → Linked e before p xs
      → a ∈ xs
      → ((e a).prev ≡ before) ⊎ ((e a).prev < max_size)
  prev_bounds before p [] l m = ground arith
  prev_bounds before p (x ∷ xs) l m = ground (arith, prev_bounds x (e x).next xs)

  next_bounds :
      (before p : ℕ) (xs : List ℕ)
      → Linked e before p xs
      → a ∈ xs
      → ((e a).next ≡ null) ⊎ ((e a).next < max_size)
  next_bounds before p [] l m = ground arith
  next_bounds before p (x ∷ []) l m = ground arith
  next_bounds before p (x ∷ y ∷ ys) l m = ground (arith, next_bounds x (e x).next (y ∷ ys))

  -- The list ends where it did, unless `a` was its end.
  last_or-erase :
      (before p : ℕ) (xs : List ℕ)
      → Linked e before p xs
      → Distinct xs
      → a ∈ xs
      → last_or before (erase a xs) ≡ (if (e a).next == null then (e a).prev else last_or before xs)
  unfolding erase
  last_or-erase before p [] l d m = ground arith
  last_or-erase before p (x ∷ []) l d m = ground arith
  last_or-erase before p (x ∷ y ∷ ys) l d m = ground (arith, last_or-erase x (e x).next (y ∷ ys))

  -- `e'` differs from `e` as it must for `a` to be taken out.
  module _ (e' : ℕ → ListarrayEntry) where
    abbrev NextCut : ℕ → Type 0
    NextCut j = (e' j).next ≡ (if (e a).prev == j then (e a).next else (e j).next)

    abbrev PrevCut : ℕ → Type 0
    PrevCut j = (e' j).prev ≡ (if (e a).next == j then (e a).prev else (e j).prev)

    Linked-skip :
        (before : ℕ) (xs : List ℕ)
        → Linked e a (e a).next xs
        → Distinct xs
        → before ∉ xs
        → (e a).prev ≡ before
        → ((j : ℕ) → j ∈ xs → NextCut j × PrevCut j)
        → Linked e' before (e a).next xs
    Linked-skip before [] l d out h cuts = l
    Linked-skip before (y ∷ ys) l d out h cuts =
        let next_same : (e' y).next ≡ (e y).next = ground (arith, cuts y) in
        (
          l.0,
          l.1,
          ground (arith, cuts y),
          rw next_same (Linked-frame e e' y (e y).next ys l.3 (λ j m. ground (arith, cuts j))),
        )

    Linked-cut :
        (before p : ℕ) (xs : List ℕ)
        → Linked e before p xs
        → Distinct xs
        → before ∉ xs
        → a ∈ xs
        → ((j : ℕ) → j ∈ xs → j ≢ a → NextCut j × PrevCut j)
        → Linked e' before (if p == a then (e a).next else p) (erase a xs)
    unfolding erase
    Linked-cut before p [] l d out m cuts = ground arith
    Linked-cut before p (x ∷ xs) l d out m cuts = elim (Bool-cases (x == a)) [
      | inl hit ↦
          let same : x ≡ a = ground arith in
          let start : (p == a) ≡ true = ground arith in
          rw (hit, start)
            (Linked-skip before xs (rw same at (l.3)) d.1 (ground arith) (ground arith)
              (λ j k. cuts j (ground arith) (ground arith)))
      | inr miss ↦
          let m' : a ∈ xs = ground arith in
          let prev_same : (e' x).prev ≡ before =
            ground (arith, cuts x, Linked-next e x (e x).next xs a x l.3 m') in
          let next_cut : (e' x).next ≡ (if (e x).next == a then (e a).next else (e x).next) =
            ground (
              arith,
              cuts x,
              Linked-first x (e x).next xs l.3 m',
              Linked-prev e x (e x).next xs a l.3 m',
            ) in
          let start : (p == a) ≡ false = ground arith in
          rw (miss, start)
            (
              l.0,
              l.1,
              prev_same,
              rw next_cut
                  (Linked-cut x (e x).next xs l.3 d.1 d.0 m' (λ j k ne. cuts j (ground arith) ne)),
            )
    ]

-- What `remove` makes of a list with `a` in it.
abbrev link_next : (ℕ → ListarrayEntry) → (p n : ℕ) → ℕ → ListarrayEntry
link_next e p n j = if p == j then record { next = n; prev = (e p).prev } else e j

abbrev link_prev : (ℕ → ListarrayEntry) → (n p : ℕ) → ℕ → ListarrayEntry
link_prev e n p j = if n == j then record { next = (e n).next; prev = p } else e j

abbrev cut : Listarray → ℕ → (ℕ → ListarrayEntry) → Listarray
cut la a e =
    let p = (la.entries a).prev in
    let n = (la.entries a).next in
    let e₁ = update e a (record { next = dead; prev = (e a).prev }) in
    record {
      entries = update e₁ a (record { next = (e₁ a).next; prev = dead });
      head = if p == null then n else la.head;
      tail = if n == null then p else la.tail;
      count = la.count - 1;
      max_index = la.max_index;
    }

-- The entries after the neighbours of `a` have been linked.
abbrev bridged : (ℕ → ListarrayEntry) → ℕ → ℕ → ListarrayEntry
bridged e a =
    let p = (e a).prev in
    let n = (e a).next in
    if p == null
    then (if n == null then e else link_prev e n p)
    else (if n == null then link_next e p n else link_prev (link_next e p n) n p)

module _ (la : Listarray) (a : ℕ) (small : a < max_size) (some_left : 0 < la.count)
    (prev_ok : ((la.entries a).prev ≡ null) ⊎ ((la.entries a).prev < max_size))
    (next_ok : ((la.entries a).next ≡ null) ⊎ ((la.entries a).next < max_size)) where
  remove-cut : remove la a ≡ ok (cut la a (bridged la.entries a))
  unfolding remove
  remove-cut = ground arith

bridged-cuts :
    (la : Listarray) (a j : ℕ)
    → j < max_size
    → j ≢ a
    → NextCut la.entries a (cut la a (bridged la.entries a)).entries j
      × PrevCut la.entries a (cut la a (bridged la.entries a)).entries j
bridged-cuts la a j lt ne = ground arith

bridged_others :
    (la : Listarray) (a j : ℕ)
    → j ≢ a
    → (la.entries a).prev ≢ j
    → (la.entries a).next ≢ j
    → (cut la a (bridged la.entries a)).entries j ≡ la.entries j
bridged_others la a j ne h k = ground arith

module _ (la : Listarray) (xs : List ℕ) (a : ℕ) (r : Represents la xs) (m : a ∈ xs) where
  small : a < max_size
  small = Linked-lt la.entries null la.head xs a r.chain m

  prev-ne : (i : ℕ) → i < max_size → i ∉ xs → (la.entries a).prev ≢ i
  prev-ne i lt out = ground (
    arith,
    Linked-first la.entries a null la.head xs r.chain m,
    Linked-prev la.entries null la.head xs a r.chain m,
  )

  head_test : ((la.entries a).prev == null) ≡ (la.head == a)
  head_test = ground (
    arith,
    Linked-first la.entries a null la.head xs r.chain m,
    Linked-prev la.entries null la.head xs a r.chain m,
    Linked-lt la.entries null la.head xs (la.entries a).prev r.chain,
  )

  cut-others :
      (i : ℕ) → i < max_size → i ∉ erase a xs → IsDead ((cut la a (bridged la.entries a)).entries i)
  cut-others i lt out = elim (Bool-cases (a == i)) [
    | inl hit ↦ ground arith
    | inr miss ↦
        let out' : i ∉ xs = ground (arith, has-erase a i xs r.distinct) in
        let p_ne : (la.entries a).prev ≢ i = prev-ne i lt out' in
        let n_ne = Linked-next la.entries null la.head xs a i r.chain m (omega arith) out' in
        rw (bridged_others la a i (ground arith) p_ne n_ne) (r.others i lt out')
  ]

  cut-Represents : Represents (cut la a (bridged la.entries a)) (erase a xs)
  cut-Represents = record {
    chain =
        subst (λ h. Linked (cut la a (bridged la.entries a)).entries null h (erase a xs))
          (ap (λ b. if b then (la.entries a).next else la.head) (sym head_test))
          (Linked-cut la.entries a (cut la a (bridged la.entries a)).entries null la.head xs r.chain
            r.distinct (not-mem_of_le la.entries null la.head xs null r.chain (omega arith)) m
            (λ j k ne. bridged-cuts la a j (Linked-lt la.entries null la.head xs j r.chain k) ne));
    last = ground (arith, last_or-erase la.entries a null la.head xs r.chain r.distinct m);
    distinct = Distinct-erase a xs r.distinct;
    others = cut-others;
    counted = ground (arith, length-erase a xs m);
    bounded = λ i k. ground (arith, has-erase a i xs r.distinct, r.bounded i);
  }

-- Removing a member takes it out of the list, keeps the order of the others, and faults at nothing.
pub remove-erase :
    (la : Listarray) (xs : List ℕ) (a : ℕ)
    → Represents la xs
    → a ∈ xs
    → (la' : Listarray) × (remove la a ≡ ok la') × Represents la' (erase a xs)
remove-erase la xs a r m = (
  cut la a (bridged la.entries a),
  remove-cut la a (small la xs a r m) (ground (arith, length-erase a xs m))
      (prev_bounds la.entries a null la.head xs r.chain m)
      (next_bounds la.entries a null la.head xs r.chain m),
  cut-Represents la xs a r m,
)

-- Removing an index that is not in a list with members writes outside the array, since the mark of
-- a dead entry is taken for an index; on an empty list it is a `BUG_ON`.
pub remove_absent :
    (la : Listarray) (xs : List ℕ) (a : ℕ)
    → Represents la xs
    → a < max_size
    → a ∉ xs
    → remove la a ≡ (if length xs == 0 then bug else out_of_bounds)
unfolding remove
remove_absent la xs a r lt out = ground (arith, r.others a)

-- `listarray_in_list` decides membership.
pub in_list-has :
    (la : Listarray) (xs : List ℕ) (a : ℕ)
    → Represents la xs
    → a < max_size
    → in_list la a ≡ ok (has a xs)
unfolding in_list
in_list-has la xs a r lt = elim (Bool-cases (has a xs)) [
  | inl m ↦
      let next_ok = next_bounds la.entries a null la.head xs r.chain m in
      let prev_ok = prev_bounds la.entries a null la.head xs r.chain m in rw m (ground arith)
  | inr out ↦ rw out (ground (arith, r.others a))
]
