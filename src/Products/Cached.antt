-- ===== src/Products/Cached.antt =====
-- order-service/internal/repository/cached_product_repo.go: Redis in front of the table.
--
-- `read` is the storage behind the cache. One caller is modelled that is alone under its key or leads
-- the others, who get its result; `left` is the error of its own context, if that ends before the
-- leader does. The logs and the metrics are left out.
use microservice_architectur.Base.{ℕ, suc, Option, none, some, Error, Result, ok, err}
use microservice_architectur.Domain.Order.{Product}
use microservice_architectur.Cache.{Reply, value, error}
use microservice_architectur.Cache.Client.{Redis, Json, RedisCache, Moment, get, set, delete}

-- CachedProductRepo
pub record CachedProductRepo (R : Type 0) : Type 0 where
  pub cache : RedisCache R
  pub db_calls : ℕ

-- What the `select` gives to a caller: the leader's result, or its own context's error.
abbrev pub await {ℓ} : {A : Type ℓ} → Option Error → Result A → Result A
await none r = r
await (some e) r = err e

module _ {R : Type 0} (redis : Redis R) (json : Json Product) where
  -- What the leader does behind its look into the database.
  unfoldable pub keep_read :
      Moment → ℕ → Result Product → CachedProductRepo R → Result Product × CachedProductRepo R
  keep_read m id (err e) c = (err e, c)
  keep_read m id (ok p) c = (ok p, record c { cache = (set redis json m id p c.cache).1 })

  -- The function that the leader runs.
  unfoldable pub lead :
      Moment → (ℕ → Result Product) → ℕ → CachedProductRepo R → Result Product × CachedProductRepo R
  unfolding keep_read
  lead m read id c = keep_read m id (read id) (record c { db_calls = suc c.db_calls })

  -- What GetProductByID does behind the cache's answer.
  unfoldable pub after_get :
      Moment
      → Option Error
      → (ℕ → Result Product)
      → ℕ
      → Reply Product
      → CachedProductRepo R
      → Result Product × CachedProductRepo R
  unfolding lead
  after_get m left read id (value p) c = (ok p, c)
  after_get m left read id (error e) c = let (r, c') = lead m read id c in (await left r, c')

  -- GetProductByID
  unfoldable pub get_product_by_id :
      Moment
      → Moment
      → Option Error
      → (ℕ → Result Product)
      → ℕ
      → CachedProductRepo R
      → Result Product × CachedProductRepo R
  unfolding after_get
  get_product_by_id m n left read id c =
      let (r, cache') = get redis json m id c.cache in
      after_get n left read id r (record c { cache = cache' })

-- InvalidateByID: it returns nil whatever Redis answers.
unfoldable pub invalidate_by_id :
    {R : Type 0} → Redis R → ℕ → CachedProductRepo R → CachedProductRepo R
invalidate_by_id redis id c = record c { cache = (delete redis id c.cache).1 }
