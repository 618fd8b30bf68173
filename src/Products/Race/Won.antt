-- ===== src/Products/Race/Won.antt =====
-- When the look-ups of order-service/internal/repository/cached_product_repo.go find the product of
-- the table, though it changes.
use microservice_architectur.Base.{
  ℕ, zero, suc, ◌≡◌, refl, sym, ◌∙◌, some, List, [], ◌∷◌, ◌==◌, find, All, arith, ==_iff, subst,
  Option-cases, inl, inr,
}
use microservice_architectur.Domain.Order.{Product}
use microservice_architectur.Store.{Db}
use microservice_architectur.Store.Rows.{All-imp}
use microservice_architectur.Cache.{value}
use microservice_architectur.Cache.Client.{Redis, Json, Moment, get, delete}
use microservice_architectur.Products.Cached.{CachedProductRepo, keep_read}
use microservice_architectur.Products.Cached
use microservice_architectur.Products.Coherence.Shared.{
  get-value, get-Agrees, delete-Agrees, keep_read-Agrees,
}
use microservice_architectur.Products.Fresh.{InTable, get_product_by_id-InTable}
use microservice_architectur.Products.Race.{
  Leader, Scene, Event, looks, begins, ends, drops, commits, nth, without, act, acts, May,
  IsCurrent, IsFresh, Keeps, Unchanged,
}

nth-All :
    (P : Leader → Type 0) (n : ℕ) (ls : List Leader) (l : Leader)
    → All P ls
    → nth n ls ≡ some l
    → P l
nth-All P n [] l h e = absurd (cc)
nth-All P zero (x ∷ ls) l h e = let same : x ≡ l = cc in subst P same h.0
nth-All P (suc n) (x ∷ ls) l h e = nth-All P n ls l h.1 e

without-All : (P : Leader → Type 0) (n : ℕ) (ls : List Leader) → All P ls → All P (without n ls)
without-All P n [] h = tt
without-All P zero (x ∷ ls) h = h.1
without-All P (suc n) (x ∷ ls) h = (h.0, without-All P n ls h.1)

module _ {R : Type 0} (redis : Redis R) (json : Json Product) where
  May-kept :
      (k j : ℕ) (p : Product) (db db' : Db)
      → find (λ (p : Product). p.id == k) db'.products
        ≡ find (λ (p : Product). p.id == k) db.products
      → May redis json k db j p
      → May redis json k db' j p
  May-kept k j p db db' same h mine =
      subst (λ i. InTable db' i p) (sym mine) (same ∙ subst (λ i. InTable db i p) mine (h mine))

  ended-IsFresh :
      (k n : ℕ) (m : Moment) (s : Scene R)
      → IsFresh redis json k s
      → IsFresh redis json k (act redis json (ends n m) s)
  unfolding act
  ended-IsFresh k n m s v = elim (Option-cases (nth n s.leaders)) [
    | inl e ↦ rw (e, act) v
    | inr (l, e) ↦
        rw (e, act)
          (record {
            cached =
                keep_read-Agrees redis json m (May redis json k s.db) l.id l.result s.repo
                  (nth-All (IsCurrent redis json k s.db) n s.leaders l v.running e) v.cached;
            running = without-All (IsCurrent redis json k s.db) n s.leaders v.running;
          })
  ]

  act-IsFresh :
      (k : ℕ) (e : Event) (s : Scene R)
      → Keeps redis json k e s
      → IsFresh redis json k s
      → IsFresh redis json k (act redis json e s)
  unfolding act Cached.invalidate_by_id delete
  act-IsFresh k (looks m id) s keeps v = record {
    cached = get-Agrees redis json m id s.repo.cache (May redis json k s.db) v.cached;
    running = v.running;
  }
  act-IsFresh k (begins fault id) s keeps v = record {
    cached = v.cached;
    running = ((λ p e mine. get_product_by_id-InTable fault id s.db p e), v.running);
  }
  act-IsFresh k (ends n m) s keeps v = ended-IsFresh k n m s v
  act-IsFresh k (drops id) s keeps v = record {
    cached =
        λ j b p there read. v.cached j b p (redis.del_keeps id s.repo.cache.client j b there) read;
    running = v.running;
  }
  act-IsFresh k (commits db) s keeps v = record {
    cached = λ j b p there read. May-kept k j p s.db db keeps (v.cached j b p there read);
    running =
        All-imp (IsCurrent redis json k s.db) (IsCurrent redis json k db) s.leaders
          (λ l h p e. May-kept k l.id p s.db db keeps (h p e)) v.running;
  }

  acts-IsFresh :
      (k : ℕ) (es : List Event) (s : Scene R)
      → Unchanged redis json k es s
      → IsFresh redis json k s
      → IsFresh redis json k (acts redis json es s)
  unfolding acts
  acts-IsFresh k [] s same v = v
  acts-IsFresh k (e ∷ es) s same v =
      acts-IsFresh k es (act redis json e s) same.1 (act-IsFresh k e s same.0 v)

  dropped-IsFresh :
      (k : ℕ) (s : Scene R)
      → All (IsCurrent redis json k s.db) s.leaders
      → (delete redis k s.repo.cache).0 ≡ value tt
      → IsFresh redis json k (act redis json (drops k) s)
  unfolding act Cached.invalidate_by_id
  dropped-IsFresh k s current answered = record {
    cached =
        delete-Agrees redis json k s.repo.cache (λ j p. Unit {0}) (May redis json k s.db)
          (λ j b p there read. tt)
          (λ j p other h mine. absurd (ground (arith, (==_iff j k).1 mine))) answered;
    running = current;
  }

  -- The race between a look-up that fills the cache and the invalidation of its key, in any order of
  -- their halves. If Redis answers the DEL of a key at a moment when no leader under that key is about
  -- to put a product that is no longer the table's, then after any further look-ups, leaders,
  -- invalidations and transactions that leave this product as it is, what Get hits under the key is
  -- the product of the table.
  pub acts-InTable :
      (k : ℕ) (es : List Event) (s : Scene R) (m : Moment) (p : Product)
      → All (IsCurrent redis json k s.db) s.leaders
      → (delete redis k s.repo.cache).0 ≡ value tt
      → Unchanged redis json k es (act redis json (drops k) s)
      → (get redis json m k (acts redis json es (act redis json (drops k) s)).repo.cache).0
        ≡ value p
      → InTable (acts redis json es (act redis json (drops k) s)).db k p
  acts-InTable k es s m p current answered same hit =
      let s' = acts redis json es (act redis json (drops k) s) in
      get-value redis json m k s'.repo.cache p (May redis json k s'.db)
        (acts-IsFresh k es (act redis json (drops k) s) same
          (dropped-IsFresh k s current answered)).cached
        hit refl
