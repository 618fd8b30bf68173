-- ===== src/Products/Fresh.antt =====
-- The two caches of order-service/internal/repository and the table of products: look-ups, and the
-- invalidations behind a cancelled order.
use microservice_architectur.Base.{
  ℕ, ◌≡◌, refl, sym, ◌∙◌, false, ◌⊎◌, inl, inr, Option, none, some, List, [], ◌∷◌, ◌==◌, find, any,
  Error, ok, arith, Bool-cases, ==_iff,
}
use microservice_architectur.Domain.Order.{Product}
use microservice_architectur.Store.{Db}
use microservice_architectur.Cache.{value}
use microservice_architectur.Cache.Client.{Redis, Json, delete}
use microservice_architectur.Products.Cached.{CachedProductRepo, await}
use microservice_architectur.Products.Cached
use microservice_architectur.Products.Local.{Lru, L1ProductRepo, Weather, invalidate_all}
use microservice_architectur.Products.Local
use microservice_architectur.Products.Table
use microservice_architectur.Products.Coherence.{IsCoherent, local-Answers}
use microservice_architectur.Products.Coherence.Shared.{delete-Agrees}

-- The table's own product.
abbrev pub InTable : Db → ℕ → Product → Type 0
InTable db id p = find (λ (p : Product). p.id == id) db.products ≡ some p

pub get_product_by_id-InTable :
    (fault : Option Error) (id : ℕ) (db : Db) (p : Product)
    → Table.get_product_by_id fault id db ≡ ok p
    → InTable db id p
unfolding Table.get_product_by_id
get_product_by_id-InTable fault id db p e = ground arith

InTable-get_product_by_id :
    (id : ℕ) (db : Db) (p : Product) → InTable db id p → Table.get_product_by_id none id db ≡ ok p
unfolding Table.get_product_by_id
InTable-get_product_by_id id db p e = ground arith

module _ {L R : Type 0} (lru : Lru L Product) (redis : Redis R) (json : Json Product) where
  -- A product that is read through the two caches is the table's, whatever Redis answers or fails to
  -- answer, whatever the caches forget, and in every state of the breaker. If the caches hold nothing
  -- but the table's products, then so they do after the look-up, and it answers what the table answers,
  -- or what the query on the table answers with its failure, or the error of the caller's own context.
  pub get_product_by_id-Table :
      (f : Weather) (fault : Option Error) (id : ℕ) (db : Db) (c : L1ProductRepo L R)
      → IsCoherent lru redis json (InTable db) c
      → let out =
          Local.get_product_by_id lru redis json f (λ k. Table.get_product_by_id fault k db) id c in
        ((out.0 ≡ Table.get_product_by_id none id db)
          ⊎ (out.0 ≡ await f.left (Table.get_product_by_id fault id db)))
        × IsCoherent lru redis json (InTable db) out.1
  get_product_by_id-Table f fault id db c v =
      let (answers, v') =
        local-Answers lru redis json f (InTable db) (λ k. Table.get_product_by_id fault k db) id c
          (λ k p e. get_product_by_id-InTable fault k db p e) v in
      elim answers [
        | inl (p, e, here) ↦ (inl (e ∙ sym (InTable-get_product_by_id id db p here)), v')
        | inr e ↦ (inr e, v')
      ]

  -- DEL is answered for each of these keys in turn.
  abbrev pub Answered : List ℕ → L1ProductRepo L R → Type 0
  Answered [] c = Unit
  Answered (id ∷ ids) c =
      ((delete redis id c.repo.cache).0 ≡ value tt)
      × Answered ids (Local.invalidate_by_id lru redis json id c)

  invalidate_by_id-IsCoherent :
      (id : ℕ) (c : L1ProductRepo L R) (may may' : ℕ → Product → Type 0)
      → IsCoherent lru redis json may c
      → ((k : ℕ) (p : Product) → (k == id) ≡ false → may k p → may' k p)
      → (delete redis id c.repo.cache).0 ≡ value tt
      → IsCoherent lru redis json may' (Local.invalidate_by_id lru redis json id c)
  unfolding Local.invalidate_by_id Cached.invalidate_by_id
  invalidate_by_id-IsCoherent id c may may' v weaker answered = record {
    local = λ k p there. elim (Bool-cases (k == id)) [
      | inl e ↦
          let gone : lru.held (lru.remove id c.cache) k ≡ none =
            rw ((==_iff k id).0 e) (lru.remove_removes id c.cache) in
          absurd (cc)
      | inr e ↦ weaker k p e (v.local k p (lru.remove_keeps id c.cache k p there))
    ];
    shared = delete-Agrees redis json id c.repo.cache may may' v.shared weaker answered;
  }

  -- What may be held besides the keys of a list.
  abbrev pub Off : List ℕ → (ℕ → Product → Type 0) → ℕ → Product → Type 0
  Off ids may k p = any (λ i. k == i) ids ≡ false → may k p

  pub invalidate_all-IsCoherent :
      (ids : List ℕ) (c : L1ProductRepo L R) (may : ℕ → Product → Type 0)
      → IsCoherent lru redis json (Off ids may) c
      → Answered ids c
      → IsCoherent lru redis json may (invalidate_all lru redis json ids c)
  unfolding invalidate_all
  invalidate_all-IsCoherent [] c may v a = record {
    local = λ k p there. v.local k p there refl;
    shared = λ k b p there read. v.shared k b p there read refl;
  }
  invalidate_all-IsCoherent (id ∷ ids) c may v a =
      invalidate_all-IsCoherent ids (Local.invalidate_by_id lru redis json id c) may
        (invalidate_by_id-IsCoherent id c (Off (id ∷ ids) may) (Off ids may) v
          (λ k p other h rest. h (rw other (rest))) a.0)
        a.1
