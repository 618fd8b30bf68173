-- ===== src/Store/Batches.antt =====
-- Batches of rows, oldest first, as the workers of order-service/internal/worker take them.
use microservice_architectur.Base.{
  ℕ, zero, suc, ◌+◌, ◌≤◌, ◌≡◌, ◌≢◌, Bool, true, false, List, [], ◌∷◌, ◌==◌, take, select,
  oldest_first, count, length, All, arith, Bool-cases, inl, inr, ==_iff, ==_refl,
}
use microservice_architectur.Store.Rows.{All-imp}
use microservice_architectur.Store.Keys.{count_zero}

pub All-select {ℓ κ} :
    {A : Type ℓ} (P : A → Type κ) (q : A → Bool) (xs : List A) → All P xs → All P (select q xs)
All-select P q [] h = tt
All-select P q (x ∷ xs) h = elim (Bool-cases (q x)) [
  | inl e ↦ rw e (h.0, All-select P q xs h.1)
  | inr e ↦ rw e (All-select P q xs h.1)
]

pub All-selected {ℓ κ} :
    {A : Type ℓ} (P : A → Type κ) (q : A → Bool) (xs : List A)
    → All P (select q xs)
    → All (λ x. q x ≡ true → P x) xs
All-selected P q [] h = tt
All-selected P q (x ∷ xs) h = elim (Bool-cases (q x)) [
  | inl e ↦ let h' = rw e at h in (λ t. h'.0, All-selected P q xs h'.1)
  | inr e ↦ let h' = rw e at h in (λ t. absurd (cc), All-selected P q xs h')
]

pub select-true {ℓ} :
    {A : Type ℓ} (q : A → Bool) (xs : List A) → All (λ x. q x ≡ true) (select q xs)
select-true q [] = tt
select-true q (x ∷ xs) = elim (Bool-cases (q x)) [
  | inl e ↦ rw e (e, select-true q xs)
  | inr e ↦ rw e (select-true q xs)
]

module _ {ℓ} {A : Type ℓ} where
  -- ORDER BY id LIMIT n of the rows with `p`
  abbrev pub batch : ℕ → (A → Bool) → List A → List A
  batch n p xs = take n (oldest_first (select p xs) [])

  All-take {κ} : (P : A → Type κ) (n : ℕ) (xs : List A) → All P xs → All P (take n xs)
  All-take P zero xs h = tt
  All-take P (suc n) [] h = tt
  All-take P (suc n) (x ∷ xs) h = (h.0, All-take P n xs h.1)

  All-oldest_first {κ} :
      (P : A → Type κ) (xs done : List A) → All P xs → All P done → All P (oldest_first xs done)
  All-oldest_first P [] done h k = k
  All-oldest_first P (x ∷ xs) done h k = All-oldest_first P xs (x ∷ done) h.1 (h.0, k)

  pub All-batch {κ} :
      (P : A → Type κ) (n : ℕ) (p : A → Bool) (xs : List A)
      → All P (select p xs)
      → All P (batch n p xs)
  All-batch P n p xs h = All-take P n _ (All-oldest_first P (select p xs) [] h tt)

  count-take : (q : A → Bool) (n : ℕ) (xs : List A) → count q (take n xs) ≤ count q xs
  count-take q zero xs = omega arith
  count-take q (suc n) [] = omega arith
  count-take q (suc n) (x ∷ xs) = omega (arith, count-take q n xs)

  count-oldest_first :
      (q : A → Bool) (xs done : List A) → count q (oldest_first xs done) ≡ count q xs + count q done
  count-oldest_first q [] done = omega arith
  count-oldest_first q (x ∷ xs) done = omega (arith, count-oldest_first q xs (x ∷ done))

  count-select : (q p : A → Bool) (xs : List A) → count q (select p xs) ≤ count q xs
  count-select q p [] = omega arith
  count-select q p (x ∷ xs) = ground (arith, count-select q p xs)

  pub count-batch :
      (q : A → Bool) (n : ℕ) (p : A → Bool) (xs : List A) → count q (batch n p xs) ≤ count q xs
  count-batch q n p xs = omega (
    arith,
    count-take q n (oldest_first (select p xs) []),
    count-oldest_first q (select p xs) [],
    count-select q p xs,
  )

  All-take_all {κ} :
      (P : A → Type κ) (n : ℕ) (xs : List A) → length xs ≤ n → All P (take n xs) → All P xs
  All-take_all P n [] le h = tt
  All-take_all P zero (x ∷ xs) le h = absurd (omega arith)
  All-take_all P (suc n) (x ∷ xs) le h = (h.0, All-take_all P n xs (omega (arith, le)) h.1)

  All-oldest_first_back {κ} :
      (P : A → Type κ) (xs done : List A) → All P (oldest_first xs done) → All P xs × All P done
  All-oldest_first_back P [] done h = (tt, h)
  All-oldest_first_back P (x ∷ xs) done h =
      let (rest, more) = All-oldest_first_back P xs (x ∷ done) h in ((more.0, rest), more.1)

  length-oldest_first : (xs done : List A) → length (oldest_first xs done) ≡ length xs + length done
  length-oldest_first [] done = omega arith
  length-oldest_first (x ∷ xs) done = omega (arith, length-oldest_first xs (x ∷ done))

  pub length-select : (p : A → Bool) (xs : List A) → length (select p xs) ≡ count p xs
  length-select p [] = omega arith
  length-select p (x ∷ xs) = ground (arith, length-select p xs)

  -- A batch for which there is room holds every row with `p`.
  pub batch-All {κ} :
      (P : A → Type κ) (n : ℕ) (p : A → Bool) (xs : List A)
      → count p xs ≤ n
      → All P (batch n p xs)
      → All (λ x. p x ≡ true → P x) xs
  batch-All P n p xs room h = All-selected P p xs (
      (All-oldest_first_back P (select p xs) [] (
        All-take_all P n (oldest_first (select p xs) [])
          (omega (arith, length-oldest_first (select p xs) [], length-select p xs)) h)).0)

  -- No two rows have the same value in a column.
  abbrev pub Differ : (A → ℕ) → List A → Type 0
  Differ f [] = Unit
  Differ f (x ∷ xs) = All (λ y. f y ≢ f x) xs × Differ f xs

  pub count-Differ :
      (f : A → ℕ) (xs : List A) → ((k : ℕ) → count (λ x. f x == k) xs ≤ 1) → Differ f xs
  count-Differ f [] h = tt
  count-Differ f (x ∷ xs) h = (
    All-imp (λ y. (f y == f x) ≡ false) (λ y. f y ≢ f x) xs
        (λ y no e. absurd (ground (arith, (==_iff (f y) (f x)).1 e)))
        (count_zero (λ y. f y == f x) xs (ground (arith, h (f x), ==_refl (f x)))),
    count-Differ f xs (λ k. ground (arith, h k)),
  )
