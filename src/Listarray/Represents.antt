-- ===== src/Listarray/Represents.antt =====
-- What it means for the linked entries of listarray.h to stand for a list of indices.
use task_clock.Common.{
  ℕ, ◌≤◌, ◌<◌, ◌≡◌, ◌≢◌, List, [], ◌∷◌, arith, ◌==◌, length, ◌∈◌, ◌∉◌, Distinct, last_or,
  has-last_or,
}
use task_clock.Listarray.{max_size, null, dead, ListarrayEntry, Listarray}

-- From `p` the `next` pointers lead through `xs` to NULL, and each `prev` points back; `before` is
-- what the first `prev` holds.
abbrev pub Linked : (ℕ → ListarrayEntry) → (before p : ℕ) → List ℕ → Type 0
Linked e before p [] = p ≡ null
Linked e before p (x ∷ xs) =
    (p ≡ x) × (x < max_size) × ((e x).prev ≡ before) × Linked e x (e x).next xs

-- An entry outside the list is marked on both sides.
abbrev pub IsDead : ListarrayEntry → Type 0
IsDead entry = (entry.next ≡ dead) × (entry.prev ≡ dead)

pub record Represents (la : Listarray) (xs : List ℕ) : Type 0 where
  pub chain : Linked la.entries null la.head xs
  pub last : la.tail ≡ last_or null xs
  pub distinct : Distinct xs
  pub others : (i : ℕ) → i < max_size → i ∉ xs → IsDead (la.entries i)
  pub counted : la.count ≡ length xs
  pub bounded : (i : ℕ) → i ∈ xs → i ≤ la.max_index

module _ (e : ℕ → ListarrayEntry) where
  pub Linked-lt :
      (before p : ℕ) (xs : List ℕ) (i : ℕ) → Linked e before p xs → i ∈ xs → i < max_size
  Linked-lt before p [] i l m = ground arith
  Linked-lt before p (x ∷ xs) i l m = ground (arith, Linked-lt x (e x).next xs i)

  pub not-mem_of_le :
      (before p : ℕ) (xs : List ℕ) (i : ℕ) → Linked e before p xs → max_size ≤ i → i ∉ xs
  not-mem_of_le before p xs i l big = ground (arith, Linked-lt before p xs i)

  -- A `next` pointer of the list never leads out of it, but to NULL.
  pub Linked-next :
      (before p : ℕ) (xs : List ℕ) (i j : ℕ)
      → Linked e before p xs
      → i ∈ xs
      → j ≢ null
      → j ∉ xs
      → (e i).next ≢ j
  Linked-next before p [] i j l m ne out = ground arith
  Linked-next before p (x ∷ []) i j l m ne out = ground arith
  Linked-next before p (x ∷ y ∷ ys) i j l m ne out =
      ground (arith, Linked-next x (e x).next (y ∷ ys) i j)

  -- A `prev` pointer leads into the list, but for that of the first member.
  pub Linked-prev :
      (before p : ℕ) (xs : List ℕ) (i : ℕ) → Linked e before p xs → i ∈ xs → p ≢ i → (e i).prev ∈ xs
  Linked-prev before p [] i l m ne = ground arith
  Linked-prev before p (x ∷ []) i l m ne = ground arith
  Linked-prev before p (x ∷ y ∷ ys) i l m ne = ground (arith, Linked-prev x (e x).next (y ∷ ys) i)

  -- The member with a NULL behind it is the last one.
  pub Linked-last :
      (before p : ℕ) (xs : List ℕ) (i : ℕ)
      → Linked e before p xs
      → Distinct xs
      → i ∈ xs
      → ((e i).next == null) ≡ (last_or before xs == i)
  Linked-last before p [] i l d m = ground arith
  Linked-last before p (x ∷ []) i l d m = ground arith
  Linked-last before p (x ∷ y ∷ ys) i l d m =
      ground (arith, Linked-last x (e x).next (y ∷ ys) i, has-last_or y ys)

  pub Linked-frame :
      (e' : ℕ → ListarrayEntry) (before p : ℕ) (xs : List ℕ)
      → Linked e before p xs
      → ((i : ℕ) → i ∈ xs → e' i ≡ e i)
      → Linked e' before p xs
  Linked-frame e' before p [] l same = l
  Linked-frame e' before p (x ∷ xs) l same =
      let here : e' x ≡ e x = same x (ground arith) in
      (
        l.0,
        l.1,
        rw here l.2,
        rw here (Linked-frame e' x (e x).next xs l.3 (λ i m. same i (ground arith))),
      )
