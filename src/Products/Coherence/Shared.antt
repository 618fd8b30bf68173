-- ===== src/Products/Coherence/Shared.antt =====
-- One command of order-service/internal/cache/redis.go on a Redis that stores what a table says.
use microservice_architectur.Base.{
  ℕ, ◌≡◌, refl, sym, subst, Bool, false, inl, inr, Option, none, some, List, ◌==◌, arith,
  Option-cases, Bool-cases, Result, ok, err, ==_iff,
}
use microservice_architectur.Domain.Order.{Product}
use microservice_architectur.Breaker.{Breaker}
use microservice_architectur.Products.Cached.{CachedProductRepo, keep_read}
use microservice_architectur.Cache.{CacheError, Reply, value, error, guard}
use microservice_architectur.Cache.Client.{
  Redis, Json, RedisCache, Moment, guarded, decoded, get, set, delete,
}

guard-reply {ℓ} :
    {A : Type ℓ} (ctx_over : Bool) (start end : ℕ) (r : Reply A) (b : Option Breaker) (a : A)
    → (guard ctx_over start end r b).reply ≡ value a
    → r ≡ value a
unfolding guard
guard-reply ctx_over start end r none a e = e
guard-reply ctx_over start end r (some b) a e = ground arith

module _ {R : Type 0} (redis : Redis R) (json : Json Product) where
  -- What Redis stores may be there; `may` is what may be held under a key.
  abbrev pub Agrees : (ℕ → Product → Type 0) → R → Type 0
  Agrees may r =
      (k : ℕ) (b : List ℕ) (p : Product)
      → redis.stored r k ≡ some b
      → json.unmarshal b ≡ some p
      → may k p

  decoded-value :
      (r : Reply (List ℕ)) (p : Product)
      → decoded redis json r ≡ value p
      → (b : List ℕ) × (r ≡ value b) × (json.unmarshal b ≡ some p)
  unfolding decoded
  decoded-value (value b) p e = (b, refl, ground arith)
  decoded-value (error CacheError.redis_nil) p e = absurd (ground arith)
  decoded-value (error CacheError.canceled) p e = absurd (ground arith)
  decoded-value (error CacheError.unavailable) p e = absurd (ground arith)
  decoded-value (error CacheError.cache_miss) p e = absurd (ground arith)
  decoded-value (error CacheError.bad_json) p e = absurd (ground arith)
  decoded-value (error (CacheError.failure n)) p e = absurd (ground arith)

  -- A hit is what the table says.
  pub get-value :
      (m : Moment) (id : ℕ) (c : RedisCache R) (p : Product) (may : ℕ → Product → Type 0)
      → Agrees may c.client
      → (get redis json m id c).0 ≡ value p
      → may id p
  unfolding get guarded
  get-value m id c p may agrees e =
      let (b, hit, read) = decoded-value _ p e in
      agrees id b p
        (redis.get_stored id c.client b
          (guard-reply m.ctx_over m.start m.end (redis.get id c.client).0 c.breaker b hit))
        read

  pub get-Agrees :
      (m : Moment) (id : ℕ) (c : RedisCache R) (may : ℕ → Product → Type 0)
      → Agrees may c.client
      → Agrees may (get redis json m id c).1.client
  unfolding get guarded
  get-Agrees m id c may agrees k b p there =
      elim (Bool-cases (guard m.ctx_over m.start m.end (redis.get id c.client).0 c.breaker).asked) [
        | inl e ↦ agrees k b p (redis.get_keeps id c.client k b (rw e at there))
        | inr e ↦ agrees k b p (rw e at there)
      ]

  pub set-Agrees :
      (m : Moment) (id : ℕ) (p : Product) (c : RedisCache R) (may : ℕ → Product → Type 0)
      → Agrees may c.client
      → may id p
      → Agrees may (set redis json m id p c).1.client
  unfolding set guarded
  set-Agrees m id p c may agrees here k b q there read = elim (Option-cases (json.marshal p)) [
    | inl e ↦ agrees k b q (rw (e, set) at there) read
    | inr (bytes, e) ↦
        let there' = rw (e, set) at there in
        elim (Bool-cases
          (guard m.ctx_over m.start m.end (redis.set id bytes c.client).0 c.breaker).asked) [
            | inr f ↦ agrees k b q (rw f at there') read
            | inl f ↦ elim (redis.set_stores id bytes c.client k b (rw f at there')) [
              | inr before ↦ agrees k b q before read
              | inl (same_key, same_bytes) ↦
                  let written = json.round_trip p bytes e in
                  let same : p ≡ q = cc in
                  subst (λ (i : ℕ). may i q) (sym same_key) (subst (λ x. may id x) same here)
            ]
          ]
  ]

  -- Once DEL is answered, its key need not be looked at any more.
  pub delete-Agrees :
      (id : ℕ) (c : RedisCache R) (may may' : ℕ → Product → Type 0)
      → Agrees may c.client
      → ((k : ℕ) (p : Product) → (k == id) ≡ false → may k p → may' k p)
      → (delete redis id c).0 ≡ value tt
      → Agrees may' (delete redis id c).1.client
  unfolding delete
  delete-Agrees id c may may' agrees weaker answered k b p there read =
      elim (Bool-cases (k == id)) [
        | inl e ↦
            let gone : redis.stored (redis.del id c.client).1 k ≡ none =
              rw ((==_iff k id).0 e) (redis.del_removes id c.client answered) in
            absurd (cc)
        | inr e ↦ weaker k p e (agrees k b p (redis.del_keeps id c.client k b there) read)
      ]

  pub keep_read-Agrees :
      (m : Moment) (may : ℕ → Product → Type 0) (id : ℕ) (r : Result Product)
      (c : CachedProductRepo R)
      → ((p : Product) → r ≡ ok p → may id p)
      → Agrees may c.cache.client
      → Agrees may (keep_read redis json m id r c).1.cache.client
  unfolding keep_read
  keep_read-Agrees m may id (err e) c here agrees = agrees
  keep_read-Agrees m may id (ok p) c here agrees =
      set-Agrees m id p c.cache may agrees (here p refl)
