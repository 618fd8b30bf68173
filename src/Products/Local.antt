-- ===== src/Products/Local.antt =====
-- order-service/internal/repository/l1_product_repo.go: the process's own cache in front of Redis.
--
-- The expirable LRU is a parameter: a record of its operations on a state of its own, with what its
-- documentation says of them. What it evicts, and when, is up to that record.
use microservice_architectur.Base.{
  ℕ, ◌≡◌, ◌⊎◌, Option, none, some, List, [], ◌∷◌, Error, Result, ok, err,
}
use microservice_architectur.Domain.Order.{Product}
use microservice_architectur.Cache.Client.{Redis, Json, Moment}
use microservice_architectur.Products.Cached.{CachedProductRepo}
use microservice_architectur.Products.Cached

pub record Lru (L V : Type 0) : Type 0 where
  pub get : ℕ → L → Option V × L
  pub add : ℕ → V → L → L
  pub remove : ℕ → L → L
  -- what is held under a key
  pub held : L → ℕ → Option V
  pub get_held : (k : ℕ) (l : L) (v : V) → (get k l).0 ≡ some v → held l k ≡ some v
  pub get_keeps :
      (k : ℕ) (l : L) (k' : ℕ) (v : V) → held (get k l).1 k' ≡ some v → held l k' ≡ some v
  pub add_holds :
      (k : ℕ) (v : V) (l : L) (k' : ℕ) (x : V)
      → held (add k v l) k' ≡ some x
      → ((k' ≡ k) × (x ≡ v)) ⊎ (held l k' ≡ some x)
  pub remove_keeps :
      (k : ℕ) (l : L) (k' : ℕ) (v : V) → held (remove k l) k' ≡ some v → held l k' ≡ some v
  pub remove_removes : (k : ℕ) (l : L) → held (remove k l) k ≡ none

-- L1ProductRepo, with the repository behind it.
pub record L1ProductRepo (L R : Type 0) : Type 0 where
  pub cache : L
  pub repo : CachedProductRepo R

-- What surrounds one look-up: the moments of the two commands of Redis, and the end of the caller's
-- own context.
pub record Weather : Type 0 where
  pub get_at : Moment
  pub set_at : Moment
  pub left : Option Error

module _ {L R : Type 0} (lru : Lru L Product) (redis : Redis R) (json : Json Product) where
  -- The part behind the repository's answer.
  unfoldable pub keep_local :
      ℕ → Result Product → L1ProductRepo L R → Result Product × L1ProductRepo L R
  keep_local id (err e) c = (err e, c)
  keep_local id (ok p) c = (ok p, record c { cache = lru.add id p c.cache })

  unfoldable pub after_local :
      Weather
      → (ℕ → Result Product)
      → ℕ
      → Option Product
      → L1ProductRepo L R
      → Result Product × L1ProductRepo L R
  unfolding keep_local
  after_local f read id (some p) c = (ok p, c)
  after_local f read id none c =
      let (r, repo') =
        Cached.get_product_by_id redis json f.get_at f.set_at f.left read id c.repo in
      keep_local id r (record c { repo = repo' })

  -- GetProductByID
  unfoldable pub get_product_by_id :
      Weather → (ℕ → Result Product) → ℕ → L1ProductRepo L R → Result Product × L1ProductRepo L R
  unfolding after_local
  get_product_by_id f read id c =
      let (p, cache') = lru.get id c.cache in after_local f read id p (record c { cache = cache' })

  -- InvalidateByID
  unfoldable pub invalidate_by_id : ℕ → L1ProductRepo L R → L1ProductRepo L R
  invalidate_by_id id c = record {
    cache = lru.remove id c.cache;
    repo = Cached.invalidate_by_id redis id c.repo;
  }

  -- The loop over the products of an order that CreateOrder and CancelOrder end with.
  unfoldable pub invalidate_all : List ℕ → L1ProductRepo L R → L1ProductRepo L R
  unfolding invalidate_by_id
  invalidate_all [] c = c
  invalidate_all (id ∷ ids) c = invalidate_all ids (invalidate_by_id id c)
