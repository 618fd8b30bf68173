-- ===== src/Products/Race.antt =====
-- The look-ups of order-service/internal/repository/cached_product_repo.go while products change.
--
-- A look-up that misses starts a leader, which reads the table and later puts what it has read into
-- Redis; between the two, transactions may commit and keys be dropped. Redis is shared, so the leaders
-- may be those of any process.
pub mod Won
use microservice_architectur.Base.{
  ℕ, zero, suc, ◌≡◌, refl, ap, ◌∙◌, Bool, false, Option, none, some, List, [], ◌∷◌, ◌==◌, find, All,
  Error, Result, ok, err, arith, ==_iff,
}
use microservice_architectur.Domain.Order.{Product}
use microservice_architectur.Store.{Db}
use microservice_architectur.Cache.{value}
use microservice_architectur.Cache.Client.{Redis, Json, Moment, get, delete}
use microservice_architectur.Products.Cached.{CachedProductRepo, keep_read, lead}
use microservice_architectur.Products.Cached
use microservice_architectur.Products.Table
use microservice_architectur.Products.Coherence.Shared.{
  Agrees, get-value, get-Agrees, set-Agrees, delete-Agrees,
}
use microservice_architectur.Products.Fresh.{InTable}

-- A leader that has read and has not put yet.
pub record Leader : Type 0 where
  pub id : ℕ
  pub result : Result Product

pub record Scene (R : Type 0) : Type 0 where
  pub db : Db
  pub repo : CachedProductRepo R
  pub leaders : List Leader

pub data Event : Type 0 where
  -- the look into Redis
  looks : Moment → ℕ → Event
  -- the two halves of a leader; the second is of the n-th in the list
  begins : Option Error → ℕ → Event
  ends : ℕ → Moment → Event
  -- InvalidateByID, and a transaction that leaves this store
  drops : ℕ → Event
  commits : Db → Event

abbrev pub nth : ℕ → List Leader → Option Leader
nth n [] = none
nth zero (l ∷ ls) = some l
nth (suc n) (l ∷ ls) = nth n ls

abbrev pub without : ℕ → List Leader → List Leader
without n [] = []
without zero (l ∷ ls) = ls
without (suc n) (l ∷ ls) = l ∷ without n ls

module _ {R : Type 0} (redis : Redis R) (json : Json Product) where
  unfoldable pub act : Event → Scene R → Scene R
  unfolding keep_read Cached.invalidate_by_id
  act (looks m id) s = record s {
    repo = record s.repo { cache = (get redis json m id s.repo.cache).1 };
  }
  act (begins fault id) s = record s {
    repo = record s.repo { db_calls = suc s.repo.db_calls };
    leaders = record { id = id; result = Table.get_product_by_id fault id s.db } ∷ s.leaders;
  }
  act (ends n m) s = elim (nth n s.leaders) [
    | none ↦ s
    | some l ↦ record s {
      repo = (keep_read redis json m l.id l.result s.repo).1;
      leaders = without n s.leaders;
    }
  ]
  act (drops id) s = record s { repo = Cached.invalidate_by_id redis id s.repo }
  act (commits db) s = record s { db = db }

  unfoldable pub acts : List Event → Scene R → Scene R
  unfolding act
  acts [] s = s
  acts (e ∷ es) s = acts es (act e s)

  -- A leader that nothing interrupts is `lead`.
  pub act-lead :
      (fault : Option Error) (m : Moment) (id : ℕ) (s : Scene R)
      → (act (ends 0 m) (act (begins fault id) s)).repo
        ≡ (lead redis json m (λ k. Table.get_product_by_id fault k s.db) id s.repo).1
  unfolding act lead
  act-lead fault m id s = refl

  -- What is in the table, for one key.
  abbrev pub May : ℕ → Db → ℕ → Product → Type 0
  May k db j p = j ≡ k → InTable db j p

  -- A leader under the key has read what is in the table.
  abbrev pub IsCurrent : ℕ → Db → Leader → Type 0
  IsCurrent k db l = (p : Product) → l.result ≡ ok p → May k db l.id p

  pub record IsFresh (k : ℕ) (s : Scene R) : Type 0 where
    pub cached : Agrees redis json (May k s.db) s.repo.cache.client
    pub running : All (IsCurrent k s.db) s.leaders

  -- The event does not change the product of that key.
  abbrev pub Keeps : ℕ → Event → Scene R → Type 0
  Keeps k (commits db) s =
      find (λ (p : Product). p.id == k) db.products
      ≡ find (λ (p : Product). p.id == k) s.db.products
  Keeps k e s = Unit

  abbrev pub Unchanged : ℕ → List Event → Scene R → Type 0
  Unchanged k [] s = Unit
  Unchanged k (e ∷ es) s = Keeps k e s × Unchanged k es (act e s)
