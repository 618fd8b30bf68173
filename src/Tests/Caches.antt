-- ===== src/Tests/Caches.antt =====
-- Caches of products at concrete inputs.
use microservice_architectur.Base.{
  ℕ, ◌≡◌, ◌⊎◌, refl, false, Option, none, some, List, [], ◌∷◌, ◌==◌, if◌then◌else◌, arith, inl, inr,
  subst, sym, Bool-cases, ==_iff, Error, healthy,
}
use microservice_architectur.Domain.Order.{Product, can_transition}
use microservice_architectur.Store.{Db}
use microservice_architectur.Cache.{CacheError, Reply, value, error}
use microservice_architectur.Cache.Client.{Redis, Json, Moment, delete}
use microservice_architectur.Orders.Cancel.{cancel_order}
use microservice_architectur.Products.Cached.{await}
use microservice_architectur.Products.Local.{Lru, L1ProductRepo, Weather, invalidate_all}
use microservice_architectur.Products.Local
use microservice_architectur.Products.Table
use microservice_architectur.Products.Coherence.{IsCoherent}
use microservice_architectur.Products.Fresh.{InTable, get_product_by_id-Table}
use microservice_architectur.Products.Cancelled.{cancel_order-IsCoherent}
use microservice_architectur.Tests.Stores.{no_payments}

-- A store that forgets nothing.
abbrev pub Slots : Type 0 → Type 0
Slots V = ℕ → Option V

abbrev pub put : {V : Type 0} → ℕ → Option V → Slots V → Slots V
put k v s i = if i == k then v else s i

pub put-there :
    {V : Type 0} (k : ℕ) (v : V) (s : Slots V) (i : ℕ) (x : V)
    → put k (some v) s i ≡ some x
    → ((i ≡ k) × (x ≡ v)) ⊎ (s i ≡ some x)
put-there k v s i x e = elim (Bool-cases (i == k)) [
  | inl same ↦ inl ((==_iff i k).0 same, ground arith)
  | inr other ↦ inr (ground arith)
]

pub put-gone :
    {V : Type 0} (k : ℕ) (s : Slots V) (i : ℕ) (x : V) → put k none s i ≡ some x → s i ≡ some x
put-gone k s i x e = ground arith

pub put-none : {V : Type 0} (k : ℕ) (s : Slots V) → put k none s k ≡ none
put-none k s = ground arith

abbrev pub answer : Option (List ℕ) → Reply (List ℕ)
answer none = error CacheError.redis_nil
answer (some b) = value b

pub answer-value : (o : Option (List ℕ)) (b : List ℕ) → answer o ≡ value b → o ≡ some b
answer-value none b e = absurd (ground arith)
answer-value (some x) b e = ground arith

abbrev pub a_redis : Redis (Slots (List ℕ))
a_redis = record {
  get = λ k r. (answer (r k), r);
  set = λ k v r. (value tt, put k (some v) r);
  del = λ k r. (value tt, put k none r);
  stored = λ r k. r k;
  get_stored = λ k r b e. answer-value (r k) b e;
  get_keeps = λ k r k' b e. e;
  set_stores = λ k v r k' b e. put-there k v r k' b e;
  del_keeps = λ k r k' b e. put-gone k r k' b e;
  del_removes = λ k r e. put-none k r;
}

abbrev an_lru : Lru (Slots Product) Product
an_lru = record {
  get = λ k l. (l k, l);
  add = λ k v l. put k (some v) l;
  remove = λ k l. put k none l;
  held = λ l k. l k;
  get_held = λ k l v e. e;
  get_keeps = λ k l k' v e. e;
  add_holds = λ k v l k' x e. put-there k v l k' x e;
  remove_keeps = λ k l k' v e. put-gone k l k' v e;
  remove_removes = λ k l. put-none k l;
}

abbrev pub read_product : List ℕ → Option Product
read_product (a ∷ b ∷ c ∷ d ∷ []) = some (record { id = a; name = b; price = c; stock = d })
read_product _ = none

pub written :
    (v : Product) (b : List ℕ)
    → ◌≡◌ {A = Option (List ℕ)} (some (v.id ∷ v.name ∷ v.price ∷ v.stock ∷ [])) (some b)
    → read_product b ≡ some v
written v b e =
    let same : ◌≡◌ {A = List ℕ} (v.id ∷ v.name ∷ v.price ∷ v.stock ∷ []) b = ground arith in
    subst (λ l. read_product l ≡ some v) same refl

abbrev pub a_json : Json Product
a_json = record {
  marshal = λ p. some (p.id ∷ p.name ∷ p.price ∷ p.stock ∷ []);
  unmarshal = read_product;
  round_trip = written;
}

-- One product, which both caches hold, and a pending order of it.
abbrev pub a_product : Product
a_product = record { id = 9; name = 4; price = 100; stock = 3 }

abbrev pub a_shop : Db
a_shop = record no_payments { products = a_product ∷ [] }

abbrev pub warm : L1ProductRepo (Slots Product) (Slots (List ℕ))
warm = record {
  cache = put 9 (some a_product) (λ k. none);
  repo = record {
    cache = record { client = put 9 (some (9 ∷ 4 ∷ 100 ∷ 3 ∷ [])) (λ k. none); breaker = none };
    db_calls = 1;
  };
}

abbrev pub calm : Moment
calm = record { ctx_over = false; start = 0; end = 1 }

abbrev fair : Weather
fair = record { get_at = calm; set_at = calm; left = none }

warm-local :
    (k : ℕ) (p : Product) → put 9 (some a_product) (λ k. none) k ≡ some p → InTable a_shop k p
warm-local k p e = ground arith

warm-shared :
    (k : ℕ) (b : List ℕ) (p : Product)
    → put 9 (some (9 ∷ 4 ∷ 100 ∷ 3 ∷ [])) (λ k. none) k ≡ some b
    → read_product b ≡ some p
    → InTable a_shop k p
warm-shared k b p e r = elim (Bool-cases (k == 9)) [
  | inr other ↦ absurd (ground arith)
  | inl same ↦
      let e' = rw same at e in
      let bytes : ◌≡◌ {A = List ℕ} (9 ∷ 4 ∷ 100 ∷ 3 ∷ []) b = ground arith in
      let read : ◌≡◌ {A = Option Product} (some a_product) (some p) =
        subst (λ l. read_product l ≡ some p) (sym bytes) r in
      warm-local k p (rw same read)
]

warm-IsCoherent : IsCoherent an_lru a_redis a_json (InTable a_shop) warm
warm-IsCoherent = record { local = warm-local; shared = warm-shared }

get_product_by_id-Table_example :
    let out =
      Local.get_product_by_id an_lru a_redis a_json fair
        (λ k. Table.get_product_by_id (some Error.deadline_exceeded) k a_shop)
        9
        warm in
    ((out.0 ≡ Table.get_product_by_id none 9 a_shop)
      ⊎ (out.0 ≡ await none (Table.get_product_by_id (some Error.deadline_exceeded) 9 a_shop)))
    × IsCoherent an_lru a_redis a_json (InTable a_shop) out.1
get_product_by_id-Table_example =
    get_product_by_id-Table an_lru a_redis a_json fair (some Error.deadline_exceeded) 9 a_shop warm
      warm-IsCoherent

cancel_order-IsCoherent_example :
    IsCoherent an_lru a_redis a_json
      (InTable (cancel_order healthy 1 50 a_shop).1)
      (invalidate_all an_lru a_redis a_json (9 ∷ []) warm)
unfolding cancel_order can_transition delete
cancel_order-IsCoherent_example =
    cancel_order-IsCoherent an_lru a_redis a_json healthy 1 50 a_shop
      (cancel_order healthy 1 50 a_shop).1 1 (9 ∷ []) warm refl warm-IsCoherent (refl, tt)
