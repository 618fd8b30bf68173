-- ===== src/Products/Coherence.antt =====
-- Reading products through the two caches of order-service/internal/repository, against the table.
pub mod Shared
use microservice_architectur.Base.{
  ℕ, suc, ◌≡◌, ◌≢◌, refl, sym, ap, ◌∙◌, subst, Bool, true, false, ◌⊎◌, inl, inr, Option, none, some,
  List, ◌==◌, find, Error, Result, ok, err, arith, Option-cases, Bool-cases, ==_iff, Result-cases,
}
use microservice_architectur.Domain.Order.{Product}
use microservice_architectur.Store.{Db}
use microservice_architectur.Breaker.{Breaker}
use microservice_architectur.Cache.{CacheError, Reply, value, error, guard}
use microservice_architectur.Cache.Client.{
  Redis, Json, RedisCache, Moment, guarded, decoded, get, set, delete,
}
use microservice_architectur.Products.Cached.{CachedProductRepo, keep_read, lead, after_get, await}
use microservice_architectur.Products.Cached
use microservice_architectur.Products.Local.{Lru, L1ProductRepo, Weather, keep_local, after_local}
use microservice_architectur.Products.Local
use microservice_architectur.Products.Table
use microservice_architectur.Products.Coherence.Shared.{
  Agrees, get-value, get-Agrees, delete-Agrees, keep_read-Agrees,
}

module _ {L R : Type 0} (lru : Lru L Product) (redis : Redis R) (json : Json Product) where
  -- Both caches hold nothing but what `may` allows under a key.
  pub record IsCoherent (may : ℕ → Product → Type 0) (c : L1ProductRepo L R) : Type 0 where
    pub local : (k : ℕ) (p : Product) → lru.held c.cache k ≡ some p → may k p
    pub shared : Agrees redis json may c.repo.cache.client

  pub IsCoherent-imp :
      (may may' : ℕ → Product → Type 0) (c : L1ProductRepo L R)
      → ((k : ℕ) (p : Product) → may k p → may' k p)
      → IsCoherent may c
      → IsCoherent may' c
  IsCoherent-imp may may' c weaker v = record {
    local = λ k p there. weaker k p (v.local k p there);
    shared = λ k b p there read. weaker k p (v.shared k b p there read);
  }

  -- A storage whose successful answers are allowed.
  abbrev pub Reads : (ℕ → Product → Type 0) → (ℕ → Result Product) → Type 0
  Reads may read = (id : ℕ) (p : Product) → read id ≡ ok p → may id p

  keep_read-result :
      (m : Moment) (id : ℕ) (r : Result Product) (c : CachedProductRepo R)
      → (keep_read redis json m id r c).0 ≡ r
  unfolding keep_read
  keep_read-result m id (err e) c = refl
  keep_read-result m id (ok p) c = refl

  -- What a look-up through the caches answers: something that is allowed, or what the storage
  -- answers, or the error of the caller's own context.
  abbrev pub Answers :
      (ℕ → Product → Type 0) → (ℕ → Result Product) → Option Error → ℕ → Result Product → Type 0
  Answers may read left id r =
      ((p : Product) × (r ≡ ok p) × (may id p)) ⊎ (r ≡ await left (read id))

  after_get-Answers :
      (m : Moment) (left : Option Error) (may : ℕ → Product → Type 0) (read : ℕ → Result Product)
      (id : ℕ) (r : Reply Product) (c : CachedProductRepo R)
      → ((p : Product) → r ≡ value p → may id p)
      → Reads may read
      → Agrees redis json may c.cache.client
      → Answers may read left id (after_get redis json m left read id r c).0
        × Agrees redis json may (after_get redis json m left read id r c).1.cache.client
  unfolding after_get lead
  after_get-Answers m left may read id (value p) c hit reads agrees =
      (inl (p, refl, hit p refl), agrees)
  after_get-Answers m left may read id (error e) c hit reads agrees = (
    inr (
        ap (await left) (keep_read-result m id (read id) (record c { db_calls = suc c.db_calls }))),
    keep_read-Agrees redis json m may id (read id) (record c { db_calls = suc c.db_calls })
        (reads id) agrees,
  )

  cached-Answers :
      (m n : Moment) (left : Option Error) (may : ℕ → Product → Type 0) (read : ℕ → Result Product)
      (id : ℕ) (c : CachedProductRepo R)
      → Reads may read
      → Agrees redis json may c.cache.client
      → Answers may read left id (Cached.get_product_by_id redis json m n left read id c).0
        × Agrees redis json may
            (Cached.get_product_by_id redis json m n left read id c).1.cache.client
  unfolding Cached.get_product_by_id
  cached-Answers m n left may read id c reads agrees =
      after_get-Answers n left may read id (get redis json m id c.cache).0
        (record c { cache = (get redis json m id c.cache).1 })
        (λ p e. get-value redis json m id c.cache p may agrees e) reads
        (get-Agrees redis json m id c.cache may agrees)

  answered-row :
      (may : ℕ → Product → Type 0) (read : ℕ → Result Product) (left : Option Error) (id : ℕ)
      (r : Result Product) (p : Product)
      → Reads may read
      → Answers may read left id r
      → r ≡ ok p
      → may id p
  answered-row may read left id r p reads (inl (q, e, here)) same =
      let p_q : q ≡ p = ground arith in subst (λ x. may id x) p_q here
  answered-row may read none id r p reads (inr e) same = reads id p (sym e ∙ same)
  answered-row may read (some x) id r p reads (inr e) same = absurd (ground arith)

  keep_local-IsCoherent :
      (may : ℕ → Product → Type 0) (id : ℕ) (r : Result Product) (c : L1ProductRepo L R)
      → ((p : Product) → r ≡ ok p → may id p)
      → IsCoherent may c
      → ((keep_local lru redis json id r c).0 ≡ r)
        × IsCoherent may (keep_local lru redis json id r c).1
  unfolding keep_local
  keep_local-IsCoherent may id (err e) c here v = (refl, v)
  keep_local-IsCoherent may id (ok p) c here v = (
    refl,
    record {
      local = λ k q there. elim (lru.add_holds id p c.cache k q there) [
        | inr before ↦ v.local k q before
        | inl (same_key, same) ↦
            subst (λ (i : ℕ). may i q) (sym same_key)
              (subst (λ x. may id x) (sym same) (here p refl))
      ];
      shared = v.shared;
    },
  )

  after_local-Answers :
      (f : Weather) (may : ℕ → Product → Type 0) (read : ℕ → Result Product) (id : ℕ)
      (held : Option Product) (c : L1ProductRepo L R)
      → ((p : Product) → held ≡ some p → may id p)
      → Reads may read
      → IsCoherent may c
      → Answers may read f.left id (after_local lru redis json f read id held c).0
        × IsCoherent may (after_local lru redis json f read id held c).1
  unfolding after_local
  after_local-Answers f may read id (some p) c hit reads v = (inl (p, refl, hit p refl), v)
  after_local-Answers f may read id none c hit reads v =
      let (answers, shared) =
        cached-Answers f.get_at f.set_at f.left may read id c.repo reads v.shared in
      let (r, repo') =
        Cached.get_product_by_id redis json f.get_at f.set_at f.left read id c.repo in
      let (same, coherent) =
        keep_local-IsCoherent may id r (record c { repo = repo' })
          (λ p e. answered-row may read f.left id r p reads answers e)
          (record { local = v.local; shared = shared }) in
      (subst (Answers may read f.left id) (sym same) answers, coherent)

  pub local-Answers :
      (f : Weather) (may : ℕ → Product → Type 0) (read : ℕ → Result Product) (id : ℕ)
      (c : L1ProductRepo L R)
      → Reads may read
      → IsCoherent may c
      → Answers may read f.left id (Local.get_product_by_id lru redis json f read id c).0
        × IsCoherent may (Local.get_product_by_id lru redis json f read id c).1
  unfolding Local.get_product_by_id
  local-Answers f may read id c reads v =
      after_local-Answers f may read id (lru.get id c.cache).0
        (record c { cache = (lru.get id c.cache).1 })
        (λ p e. v.local id p (lru.get_held id c.cache p e)) reads
        (record {
          local = λ k p there. v.local k p (lru.get_keeps id c.cache k p there);
          shared = v.shared;
        })
