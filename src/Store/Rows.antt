-- ===== src/Store/Rows.antt =====
-- Laws of the list operations of Base/Tables.antt on rows with ids, the newest row first.
use microservice_architectur.Base.{
  ℕ, ◌≤◌, ◌<◌, ◌≡◌, refl, Bool, true, false, none, some, List, [], ◌∷◌, arith, ◌==◌, if◌then◌else◌,
  find, update, count, any, All, Bool-cases, inl, inr, subst,
}

module _ {ℓ} {A : Type ℓ} where
  -- The ids fall strictly from below `n`: every row is older than the one before it.
  abbrev pub Below : (A → ℕ) → ℕ → List A → Type 0
  Below id n [] = Unit
  Below id n (x ∷ xs) = (id x < n) × Below id (id x) xs

  pub Below-weaken : (id : A → ℕ) (n m : ℕ) (xs : List A) → n ≤ m → Below id n xs → Below id m xs
  Below-weaken id n m [] h b = tt
  Below-weaken id n m (x ∷ xs) h b = (omega arith, b.1)

  -- An update that keeps the ids keeps their order.
  pub Below-update :
      (id : A → ℕ) (n : ℕ) (p : A → Bool) (f : A → A) (xs : List A)
      → ((x : A) → id (f x) ≡ id x)
      → Below id n xs
      → Below id n (update p f xs)
  Below-update id n p f [] h b = tt
  Below-update id n p f (x ∷ xs) h b = elim (Bool-cases (p x)) [
    | inl e ↦ rw e (rw h (b.0, Below-update id (id x) p f xs h b.1))
    | inr e ↦ rw e (b.0, Below-update id (id x) p f xs h b.1)
  ]

  pub All-imp {κ μ} :
      (P : A → Type κ) (Q : A → Type μ) (xs : List A) → ((x : A) → P x → Q x) → All P xs → All Q xs
  All-imp P Q [] f h = tt
  All-imp P Q (x ∷ xs) f h = (f x h.0, All-imp P Q xs f h.1)

  pub All-unit : (xs : List A) → All (λ x. Unit {0}) xs
  All-unit [] = tt
  All-unit (x ∷ xs) = (tt, All-unit xs)

  pub All-and {κ μ} :
      (P : A → Type κ) (Q : A → Type μ) (xs : List A)
      → All P xs
      → All Q xs
      → All (λ x. P x × Q x) xs
  All-and P Q [] h k = tt
  All-and P Q (x ∷ xs) h k = ((h.0, k.0), All-and P Q xs h.1 k.1)

  pub All-of_Below : (id : A → ℕ) (n : ℕ) (xs : List A) → Below id n xs → All (λ x. id x < n) xs
  All-of_Below id n [] b = tt
  All-of_Below id n (x ∷ xs) b = (
    b.0,
    All-imp (λ y. id y < id x) (λ y. id y < n) xs (λ y h. omega arith)
        (All-of_Below id (id x) xs b.1),
  )

  pub find-holds : (p : A → Bool) (xs : List A) (r : A) → find p xs ≡ some r → p r ≡ true
  find-holds p [] r e = cc
  find-holds p (x ∷ xs) r e = ground (arith, find-holds p xs r)

  pub All-find {κ} :
      (P : A → Type κ) (p : A → Bool) (xs : List A) (r : A) → All P xs → find p xs ≡ some r → P r
  All-find P p [] r h e = absurd (cc)
  All-find P p (x ∷ xs) r h e = elim (Bool-cases (p x)) [
    | inl t ↦ let e' = rw t at e in let same : x ≡ r = cc in subst P same h.0
    | inr f ↦ All-find P p xs r h.1 (rw f at e)
  ]

  -- The row that is found by its id is the only one with that id.
  pub find_unique :
      (id : A → ℕ) (n k : ℕ) (xs : List A) (r : A)
      → Below id n xs
      → find (λ x. id x == k) xs ≡ some r
      → All (λ x. id x ≡ k → x ≡ r) xs
  find_unique id n k [] r b e = tt
  find_unique id n k (x ∷ xs) r b e = elim (Bool-cases (id x == k)) [
    | inl t ↦ (
      λ _. let e' = rw t at e in cc,
      All-imp (λ y. id y < id x) (λ y. id y ≡ k → y ≡ r) xs (λ y lt same. absurd (ground arith))
          (All-of_Below id (id x) xs b.1),
    )
    | inr f ↦ (λ same. absurd (ground arith), find_unique id (id x) k xs r b.1 (rw f at e))
  ]

  pub All-update {κ} :
      (Q : A → Type κ) (p : A → Bool) (f : A → A) (xs : List A)
      → All (λ x. (p x ≡ true → Q (f x)) × (p x ≡ false → Q x)) xs
      → All Q (update p f xs)
  All-update Q p f [] h = tt
  All-update Q p f (x ∷ xs) h = elim (Bool-cases (p x)) [
    | inl t ↦ rw t (h.0.0 t, All-update Q p f xs h.1)
    | inr e ↦ rw e (h.0.1 e, All-update Q p f xs h.1)
  ]

  -- An update that moves no row into `q` does not raise the number of rows in `q`.
  pub count-update-le :
      (q p : A → Bool) (f : A → A) (xs : List A)
      → All (λ x. p x ≡ true → q (f x) ≡ true → q x ≡ true) xs
      → count q (update p f xs) ≤ count q xs
  count-update-le q p f [] h = omega arith
  count-update-le q p f (x ∷ xs) h = ground (arith, count-update-le q p f xs h.1)

  pub any-false-count : (p : A → Bool) (xs : List A) → any p xs ≡ false → count p xs ≡ 0
  any-false-count p [] e = refl
  any-false-count p (x ∷ xs) e = ground (arith, any-false-count p xs)

  pub find-update :
      (id : A → ℕ) (k : ℕ) (f : A → A) (xs : List A) (r : A)
      → ((x : A) → id (f x) ≡ id x)
      → find (λ x. id x == k) xs ≡ some r
      → find (λ x. id x == k) (update (λ x. id x == k) f xs) ≡ some (f r)
  find-update id k f [] r h e = cc
  find-update id k f (x ∷ xs) r h e = ground (arith, h x, find-update id k f xs r h)

  pub any-false-find : (p : A → Bool) (xs : List A) → any p xs ≡ false → find p xs ≡ none
  any-false-find p [] e = refl
  any-false-find p (x ∷ xs) e = ground (arith, any-false-find p xs)

  -- An update that leaves the tested columns alone changes a row that is found, and not which one.
  pub find-update_elsewhere :
      (q p : A → Bool) (f : A → A) (xs : List A) (r : A)
      → ((x : A) → q (f x) ≡ q x)
      → find q xs ≡ some r
      → find q (update p f xs) ≡ some (if p r then f r else r)
  find-update_elsewhere q p f [] r h e = cc
  find-update_elsewhere q p f (x ∷ xs) r h e =
      ground (arith, h x, find-update_elsewhere q p f xs r h)

  pub find-any : (p : A → Bool) (xs : List A) (r : A) → find p xs ≡ some r → any p xs ≡ true
  find-any p [] r e = cc
  find-any p (x ∷ xs) r e = ground (arith, find-any p xs r)
