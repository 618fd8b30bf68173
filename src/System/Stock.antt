-- ===== src/System/Stock.antt =====
-- The keys of the tables and the balance of each product over the committed transactions of
-- order-service.
use microservice_architectur.Base.{ℕ, ◌≡◌, refl, ◌∙◌, List, Io, ok, ap}
use microservice_architectur.Store.{Db}
use microservice_architectur.Orders.Cancel.{cancel_body, set_cancelled}
use microservice_architectur.System.Balance.{balance}
use microservice_architectur.System.Stocked.{
  IsStocked, Change-IsLike, IsLike-IsStocked, IsLike-balance,
}
use microservice_architectur.System.Cancelled.{
  cancel_body-found, refund_order-IsBeside, cancelled-IsStocked, cancelled-fair,
}
use microservice_architectur.System.{Reach}
use microservice_architectur.System.Committed.{Reach-Effects}
use microservice_architectur.System.Effect.{Effect, Effects-keep, changed, created, called_off}

-- The keys hold, and every product has the balance that it has in `db0`.
pub record IsConserved (db0 db : Db) : Type 0 where
  pub stocked : IsStocked db
  pub same_balance : (k : ℕ) → balance k db ≡ balance k db0

called_off-IsConserved :
    (db0 : Db) (io : Io) (id now : ℕ) (db : Db) (r : (ℕ × List ℕ) × Db)
    → cancel_body io id now db ≡ ok r
    → IsConserved db0 db
    → IsConserved db0 r.1
called_off-IsConserved db0 io id now db r e v =
    let (o, found, can, free, db1, refunded, same) = cancel_body-found io id now db r e in
    let beside = refund_order-IsBeside (io 4) o.status id now (set_cancelled id db) db1 refunded in
    rw (ap (λ r. r.1) same) (record {
      stocked = cancelled-IsStocked id o db db1 found can beside v.stocked;
      same_balance =
          λ k. cancelled-fair id o db db1 found can beside v.stocked k ∙ v.same_balance k;
    })

pub Effect-IsConserved :
    (db0 db db' : Db) → Effect db db' → IsConserved db0 db → IsConserved db0 db'
Effect-IsConserved db0 db db' (changed c) v =
    let like = Change-IsLike db db' c v.stocked in
    record {
      stocked = IsLike-IsStocked db db' like v.stocked;
      same_balance = λ k. IsLike-balance k db db' like ∙ v.same_balance k;
    }
Effect-IsConserved db0 db db' (created m) v = record {
  stocked = m.stocked v.stocked;
  same_balance = λ k. m.fair v.stocked k ∙ v.same_balance k;
}
Effect-IsConserved db0 db db' (called_off io id now answer e) v =
    called_off-IsConserved db0 io id now db (answer, db') e v

-- No piece of a product is made or lost. Whatever requests and workers do one after the other, in any
-- order, with any failures, any answers of the provider and any retries: if the store has its keys, it
-- keeps them, and of each product what is in stock and what the orders hold that are not cancelled
-- add up to the same number as before (and a product is there if it was there before).
pub Reach-IsConserved : (db db' : Db) → IsStocked db → Reach db db' → IsConserved db db'
Reach-IsConserved db db' v r =
    Effects-keep (IsConserved db) (Effect-IsConserved db) (Reach-Effects r)
      (record { stocked = v; same_balance = λ k. refl })
