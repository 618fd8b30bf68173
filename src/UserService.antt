-- ===== src/UserService.antt =====
-- user-service/main.go: registration and login.
--
-- bcrypt and the signing of tokens are not part of the repository: they are parameters. Names and
-- passwords are texts, lists of bytes; a token is the claims that were signed. Requests are served one
-- after another.
use microservice_architectur.Base.{
  ℕ, suc, ◌+◌, ◌≡◌, Bool, true, false, not, Option, none, some, List, [], ◌∷◌, ◌++◌, ◌==◌, ◌&&◌,
  find, length, if◌then◌else◌,
}
pub mod Login

pub record User : Type 0 where
  pub id : ℕ
  pub user_name : List ℕ
  pub password : List ℕ

-- The comparison of two texts.
abbrev pub same_text : List ℕ → List ℕ → Bool
same_text [] [] = true
same_text [] (y ∷ ys) = false
same_text (x ∷ xs) [] = false
same_text (x ∷ xs) (y ∷ ys) = x == y && same_text xs ys

-- golang.org/x/crypto/bcrypt. `salt` stands for the random bytes of one call; a hash can fail.
pub record Bcrypt : Type 0 where
  pub generate_from_password : ℕ → List ℕ → Option (List ℕ)
  pub compare_hash_and_password : List ℕ → List ℕ → Bool
  -- a hash matches the password that it was made from
  pub matches :
      (salt : ℕ) (password hash : List ℕ)
      → generate_from_password salt password ≡ some hash
      → compare_hash_and_password hash password ≡ true

-- The answers of the two handlers: a status, and for a login the claims in the token.
pub data Answer : Type 0 where
  registered unauthorized internal_error : Answer
  token : ℕ → List ℕ → Answer

module _ (bcrypt : Bcrypt) where
  -- registerHandler
  unfoldable pub register : ℕ → List ℕ → List ℕ → List User → Answer × List User
  register salt name password users = elim (bcrypt.generate_from_password salt password) [
    | none ↦ (internal_error, users)
    | some hash ↦ (
      registered,
      users ++ (record { id = length users + 1; user_name = name; password = hash } ∷ []),
    )
  ]

  -- loginHandler; `signs` says whether the token could be signed.
  unfoldable pub login : Bool → List ℕ → List ℕ → List User → Answer
  login signs name password users = elim (find (λ (u : User). same_text u.user_name name) users) [
    | none ↦ unauthorized
    | some u ↦
        if not (bcrypt.compare_hash_and_password u.password password)
        then unauthorized
        else if signs
        then token u.id u.user_name
        else internal_error
  ]
