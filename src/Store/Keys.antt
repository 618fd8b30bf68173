-- ===== src/Store/Keys.antt =====
-- Rows that a key or a count tells apart, on the list operations of Base/Tables.antt.
use microservice_architectur.Base.{
  ℕ, ◌≤◌, ◌<◌, ◌≡◌, refl, Bool, true, false, some, List, [], ◌∷◌, ◌==◌, find, update, any, count,
  All, arith, Bool-cases, inl, inr, ==_iff, ==_refl,
}
use microservice_architectur.Store.Rows.{Below, All-imp, All-and, All-of_Below, All-find}

module _ {ℓ} {A : Type ℓ} where
  pub All-always {κ} : (P : A → Type κ) (xs : List A) → ((x : A) → P x) → All P xs
  All-always P [] f = tt
  All-always P (x ∷ xs) f = (f x, All-always P xs f)

  pub count_zero : (q : A → Bool) (xs : List A) → count q xs ≡ 0 → All (λ x. q x ≡ false) xs
  count_zero q [] h = tt
  count_zero q (x ∷ xs) h = ground (arith, count_zero q xs)

  pub any-false : (q : A → Bool) (xs : List A) → any q xs ≡ false → All (λ x. q x ≡ false) xs
  any-false q [] h = tt
  any-false q (x ∷ xs) h = ground (arith, any-false q xs)

  -- The one row with a tested property is the row that is found.
  pub count_one :
      (id : A → ℕ) (q : A → Bool) (k : ℕ) (xs : List A) (r : A)
      → count q xs ≤ 1
      → find (λ x. id x == k) xs ≡ some r
      → q r ≡ true
      → All (λ x. q x ≡ true → id x ≡ k) xs
  count_one id q k [] r le found t = tt
  count_one id q k (x ∷ xs) r le found t = elim (Bool-cases (id x == k)) [
    | inl e ↦
        let found' = rw e at found in
        let same : x ≡ r = cc in
        let tested : q x ≡ true = cc in
        let others = count_zero q xs (ground arith) in
        (
          λ _. (==_iff (id x) k).0 e,
          All-imp (λ y. q y ≡ false) _ xs (λ y no yes. absurd (cc)) others,
        )
    | inr e ↦
        let found' = rw e at found in
        elim (Bool-cases (q x)) [
          | inl tested ↦
              let none_else = count_zero q xs (ground arith) in
              let no = All-find (λ y. q y ≡ false) (λ y. id y == k) xs r none_else found' in
              absurd (cc)
          | inr untested ↦ (λ yes. absurd (cc), count_one id q k xs r (ground arith) found' t)
        ]
  ]

  pub any-update :
      (q p : A → Bool) (f : A → A) (xs : List A)
      → ((x : A) → q x ≡ true → q (f x) ≡ true)
      → any q xs ≡ true
      → any q (update p f xs) ≡ true
  any-update q p f [] h e = e
  any-update q p f (x ∷ xs) h e = ground (arith, h x, any-update q p f xs h)

  -- Rows with the same id are the same row.
  pub All-unique :
      (id : A → ℕ) (n : ℕ) (xs : List A)
      → Below id n xs
      → All (λ x. All (λ y. id y ≡ id x → y ≡ x) xs) xs
  All-unique id n [] b = tt
  All-unique id n (x ∷ xs) b =
      let older = All-of_Below id (id x) xs b.1 in
      (
        (λ e. refl, All-imp (λ y. id y < id x) _ xs (λ y lt e. absurd (omega arith)) older),
        All-imp (λ y. (id y < id x) × All (λ z. id z ≡ id y → z ≡ y) xs) _ xs
            (λ y h. (λ e. absurd (omega (arith, h.0)), h.1))
            (All-and (λ y. id y < id x) (λ y. All (λ z. id z ≡ id y → z ≡ y) xs) xs older
              (All-unique id (id x) xs b.1)),
      )

  -- Every row is found by its id.
  pub find_self :
      (id : A → ℕ) (n : ℕ) (xs : List A)
      → Below id n xs
      → All (λ x. find (λ y. id y == id x) xs ≡ some x) xs
  find_self id n [] b = tt
  find_self id n (x ∷ xs) b = (
    rw (==_refl (id x)) refl,
    All-imp (λ y. (id y < id x) × (find (λ z. id z == id y) xs ≡ some y)) _ xs
        (λ y h. ground (arith, h))
        (All-and (λ y. id y < id x) (λ y. find (λ z. id z == id y) xs ≡ some y) xs
          (All-of_Below id (id x) xs b.1) (find_self id (id x) xs b.1)),
  )

  below_none :
      (id : A → ℕ) (n k : ℕ) (xs : List A) → Below id n xs → n ≤ k → count (λ x. id x == k) xs ≡ 0
  below_none id n k [] b le = refl
  below_none id n k (x ∷ xs) b le = ground (arith, below_none id (id x) k xs b.1)

  pub Below-count :
      (id : A → ℕ) (n k : ℕ) (xs : List A) → Below id n xs → count (λ x. id x == k) xs ≤ 1
  Below-count id n k [] b = omega arith
  Below-count id n k (x ∷ xs) b = elim (Bool-cases (id x == k)) [
    | inl e ↦ rw e (omega (arith, (==_iff (id x) k).0 e, below_none id (id x) k xs b.1))
    | inr e ↦ rw e (omega (arith, Below-count id (id x) k xs b.1))
  ]
