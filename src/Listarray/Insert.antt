-- ===== src/Listarray/Insert.antt =====
-- listarray_init and listarray_insert against the list that the entries stand for.
use task_clock.Common.{
  ℕ, ◌+◌, ◌<◌, ◌≡◌, refl, ◌≢◌, List, [], ◌∷◌, ◌++◌, arith, ltb, if◌then◌else◌, update,
  length-append, has-append, ◌∈◌, ◌∉◌, Distinct, Distinct-append, last_or, has-last_or,
  last_or-append, ok, bug,
}
use task_clock.Listarray.{max_size, null, dead, to_ptr, ListarrayEntry, Listarray, init, insert}
use task_clock.Listarray.Represents.{
  Linked, Linked-lt, Linked-next, not-mem_of_le, IsDead, Represents,
}

pub init-Represents : Represents init []
unfolding init
init-Represents = record {
  chain = refl;
  last = refl;
  distinct = tt;
  others = λ i lt out. (refl, refl);
  counted = refl;
  bounded = λ i m. ground arith;
}

-- The list grown by `a` at its end, given how the entries differ.
module _ (e e' : ℕ → ListarrayEntry) (a : ℕ) (small : a < max_size) where
  Linked-snoc :
      (before p x : ℕ) (xs : List ℕ)
      → Linked e before p (x ∷ xs)
      → Distinct (x ∷ xs)
      → ((j : ℕ) → j ∈ x ∷ xs → (e' j).prev ≡ (e j).prev)
      → ((j : ℕ) → j ∈ x ∷ xs → j ≢ last_or x xs → (e' j).next ≡ (e j).next)
      → (e' (last_or x xs)).next ≡ a
      → (e' a).prev ≡ last_or x xs
      → (e' a).next ≡ null
      → Linked e' before p (x ∷ (xs ++ (a ∷ [])))
  Linked-snoc before p x [] l d prevs nexts n1 n2 n3 =
      (l.0, l.1, ground (arith, prevs x), (n1, small, n2, n3))
  Linked-snoc before p x (y ∷ ys) l d prevs nexts n1 n2 n3 =
      let away : x ≢ last_or y ys = ground (arith, has-last_or y ys) in
      let same : (e' x).next ≡ (e x).next = nexts x (ground arith) away in
      (
        l.0,
        l.1,
        ground (arith, prevs x),
        rw same (
            Linked-snoc x (e x).next y ys l.3 d.1 (λ j m. prevs j (ground arith))
              (λ j m ne. nexts j (ground arith) ne) n1 n2 n3),
      )

-- What `insert` makes of an empty list, and of one with a tail.
abbrev first : Listarray → ℕ → Listarray
first la a =
    let e₁ = update la.entries a (record { next = (la.entries a).next; prev = null }) in
    record {
      entries = update e₁ a (record { next = null; prev = (e₁ a).prev });
      head = to_ptr a;
      tail = to_ptr a;
      count = la.count + 1;
      max_index = if ltb la.max_index a then a else la.max_index;
    }

abbrev grown : Listarray → ℕ → Listarray
grown la a =
    let e₁ =
      update la.entries la.tail (record { next = to_ptr a; prev = (la.entries la.tail).prev }) in
    let e₂ = update e₁ a (record { next = (e₁ a).next; prev = la.tail }) in
    record {
      entries = update e₂ a (record { next = null; prev = (e₂ a).prev });
      head = la.head;
      tail = to_ptr a;
      count = la.count + 1;
      max_index = if ltb la.max_index a then a else la.max_index;
    }

module _ (la : Listarray) (a : ℕ) (small : a < max_size) (unused : IsDead (la.entries a)) where
  insert-first : la.tail ≡ null → insert la a ≡ ok (first la a)
  unfolding insert
  insert-first e = ground arith

  insert-grown : la.tail < max_size → insert la a ≡ ok (grown la a)
  unfolding insert
  insert-grown lt = ground arith

first-Represents :
    (la : Listarray) (a : ℕ) → Represents la [] → a < max_size → Represents (first la a) (a ∷ [])
first-Represents la a r small = record {
  chain = ground arith;
  last = ground arith;
  distinct = ground arith;
  others = λ i lt out. ground (arith, r.others i);
  counted = ground arith;
  bounded = λ i m. ground arith;
}

grown-Represents :
    (la : Listarray) (x : ℕ) (xs : List ℕ) (a : ℕ)
    → Represents la (x ∷ xs)
    → a < max_size
    → a ∉ x ∷ xs
    → Represents (grown la a) (x ∷ (xs ++ (a ∷ [])))
grown-Represents la x xs a r small out =
    let tail_in : la.tail ∈ x ∷ xs = ground (arith, has-last_or x xs) in
    record {
      chain =
          Linked-snoc la.entries (grown la a).entries a small null la.head x xs r.chain r.distinct
            (λ j m. ground arith) (λ j m ne. ground arith) (ground arith) (ground arith)
            (ground arith);
      last = ground (arith, last_or-append x a xs);
      distinct = Distinct-append a (x ∷ xs) r.distinct out;
      others = λ i lt not_in. ground (arith, r.others i, has-append i xs (a ∷ []));
      counted = ground (arith, length-append {0} xs (a ∷ []));
      bounded = λ i m. ground (arith, r.bounded i, has-append i xs (a ∷ []));
    }

-- Inserting an index that is not in the list appends it, and faults at nothing.
pub insert-append :
    (la : Listarray) (xs : List ℕ) (a : ℕ)
    → Represents la xs
    → a < max_size
    → a ∉ xs
    → (la' : Listarray) × (insert la a ≡ ok la') × Represents la' (xs ++ (a ∷ []))
insert-append la [] a r small out = (
  first la a,
  insert-first la a small (r.others a small out) r.last,
  first-Represents la a r small,
)
insert-append la (x ∷ xs) a r small out =
    let lt : la.tail < max_size =
      ground (arith, Linked-lt la.entries null la.head (x ∷ xs) la.tail, has-last_or x xs) in
    (
      grown la a,
      insert-grown la a small (r.others a small out) lt,
      grown-Represents la x xs a r small out,
    )

-- Inserting what is in the list already is a `BUG_ON`.
pub insert-bug :
    (la : Listarray) (xs : List ℕ) (a : ℕ) → Represents la xs → a ∈ xs → insert la a ≡ bug
unfolding insert
insert-bug la xs a r m =
    let lt = Linked-lt la.entries null la.head xs a r.chain m in
    let out =
      Linked-next la.entries null la.head xs a dead r.chain m (omega arith)
        (not-mem_of_le la.entries null la.head xs dead r.chain (omega arith)) in
    ground arith
