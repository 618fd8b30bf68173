-- ===== src/UserService/Login.antt =====
-- Registration, then login, in user-service/main.go.
use microservice_architectur.Base.{
  ℕ, ◌+◌, ◌≡◌, ◌↔◌, refl, Bool, true, false, Option, none, some, List, [], ◌∷◌, ◌++◌, find, length,
  arith, inl, inr, Option-cases, ==_refl,
}
use microservice_architectur.UserService.{
  User, Bcrypt, register, login, same_text, registered, token, unauthorized,
}

same_text_refl : (xs : List ℕ) → same_text xs xs ≡ true
same_text_refl [] = refl
same_text_refl (x ∷ xs) = rw (==_refl x) (same_text_refl xs)

find-append-here {ℓ} :
    {A : Type ℓ} (p : A → Bool) (xs : List A) (x : A)
    → find p xs ≡ none
    → p x ≡ true
    → find p (xs ++ (x ∷ [])) ≡ some x
find-append-here p [] x e h = rw h refl
find-append-here p (y ∷ ys) x e h = ground (arith, find-append-here p ys x)

find-append-before {ℓ} :
    {A : Type ℓ} (p : A → Bool) (xs ys : List A) (r : A)
    → find p xs ≡ some r
    → find p (xs ++ ys) ≡ some r
find-append-before p [] ys r e = absurd (cc)
find-append-before p (x ∷ xs) ys r e = ground (arith, find-append-before p xs ys r)

abbrev pub named : List ℕ → List User → Option User
named name users = find (λ (u : User). same_text u.user_name name) users

-- A request to register.
pub record Registration : Type 0 where
  pub salt : ℕ
  pub name : List ℕ
  pub password : List ℕ

module _ (bcrypt : Bcrypt) where
  abbrev pub registers : List Registration → List User → List User
  registers [] users = users
  registers (r ∷ rs) users = registers rs (register bcrypt r.salt r.name r.password users).1

  register-named :
      (r : Registration) (name : List ℕ) (u : User) (users : List User)
      → named name users ≡ some u
      → named name (register bcrypt r.salt r.name r.password users).1 ≡ some u
  unfolding register
  register-named r name u users e =
      elim (Option-cases (bcrypt.generate_from_password r.salt r.password)) [
        | inl failed ↦ rw (failed, register) e
        | inr (hash, made) ↦ rw (made, register) (find-append-before _ users _ u e)
      ]

  registers-named :
      (rs : List Registration) (name : List ℕ) (u : User) (users : List User)
      → named name users ≡ some u
      → named name (registers rs users) ≡ some u
  registers-named [] name u users e = e
  registers-named (r ∷ rs) name u users e =
      registers-named rs name u _ (register-named r name u users e)

  -- Who registers under a name that nobody has, and whose password can be hashed, is registered, with
  -- the id that follows the number of users before. From then on, whoever registers later and under
  -- whatever names, a login under that name is decided by this registration's hash alone: it gets a
  -- token for that id and name exactly if bcrypt accepts the password that is given for that hash, and
  -- is refused otherwise; with the password of the registration it gets the token.
  pub login-register :
      (salt : ℕ) (name password hash given : List ℕ) (users : List User) (rs : List Registration)
      → named name users ≡ none
      → bcrypt.generate_from_password salt password ≡ some hash
      → let (answer, users') = register bcrypt salt name password users in
        let later = registers rs users' in
        let accepted = bcrypt.compare_hash_and_password hash given in
        (answer ≡ registered)
        × (login bcrypt true name password later ≡ token (length users + 1) name)
        × ((login bcrypt true name given later ≡ token (length users + 1) name) ↔ (accepted ≡ true))
        × ((login bcrypt true name given later ≡ unauthorized) ↔ (accepted ≡ false))
  unfolding register login
  login-register salt name password hash given users rs free made =
      let u : User = record { id = length users + 1; user_name = name; password = hash } in
      let here : named name (users ++ (u ∷ [])) ≡ some u =
        find-append-here (λ (x : User). same_text x.user_name name) users u free
          (same_text_refl name) in
      let later = registers-named rs name u (users ++ (u ∷ [])) here in
      let right = bcrypt.matches salt password hash made in
      rw (made, register)
        (
          refl,
          rw (later, login) (rw right refl),
          rw (later, login) (grind arith),
          rw (later, login) (grind arith),
        )
