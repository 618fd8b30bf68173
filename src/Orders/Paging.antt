-- ===== src/Orders/Paging.antt =====
-- The pages of `GetOrders`, order-service/internal/repository/order.go, one after the other.
use mathlib.Core.List.{map-append}
use microservice_architectur.Base.{
  ℕ, zero, suc, ◌≤◌, ◌<◌, ◌≡◌, refl, sym, ap, ◌∙◌, true, false, Option, none, some, List, [], ◌∷◌,
  ◌++◌, ◌==◌, ltb, select, take, length, map, All, ok, err, healthy, arith, Bool-cases, inl, inr,
}
use microservice_architectur.Domain.Order.{Order, OrderCursor}
use microservice_architectur.Store.{Db, OrderRow}
use microservice_architectur.Store.Rows.{Below, Below-weaken}
use microservice_architectur.Orders.Read.{
  is_after, order_page, listed_order, last, next_cursor, fill_page, get_orders,
}

abbrev drop {ℓ} : {A : Type ℓ} → ℕ → List A → List A
drop zero xs = xs
drop (suc n) [] = []
drop (suc n) (x ∷ xs) = drop n xs

-- The rows with an id below `k`.
abbrev rows_below : ℕ → List OrderRow → List OrderRow
rows_below k os = select (λ o. ltb o.id k) os

rows_below_all :
    (b k : ℕ) (os : List OrderRow) → b ≤ k → Below (λ o. o.id) b os → rows_below k os ≡ os
rows_below_all b k [] h s = refl
rows_below_all b k (o ∷ os) h s = ground (arith, rows_below_all o.id k os)

rows_below_twice :
    (k l : ℕ) (os : List OrderRow) → l ≤ k → rows_below l (rows_below k os) ≡ rows_below l os
rows_below_twice k l [] h = refl
rows_below_twice k l (o ∷ os) h = ground (arith, rows_below_twice k l os h)

rows_below-Below :
    (b k : ℕ) (os : List OrderRow) → Below (λ o. o.id) b os → Below (λ o. o.id) b (rows_below k os)
rows_below-Below b k [] s = tt
rows_below-Below b k (o ∷ os) s = elim (Bool-cases (ltb o.id k)) [
  | inl e ↦ rw e (s.0, rows_below-Below o.id k os s.1)
  | inr e ↦ rw e (Below-weaken (λ o. o.id) o.id b _ (omega arith) (rows_below-Below o.id k os s.1))
]

-- The rows from a page's end on are those behind its last one.
last_le :
    (n : ℕ) (o : OrderRow) (os : List OrderRow)
    → Below (λ o. o.id) o.id os
    → (last o (take n os)).id ≤ o.id
last_le zero o os s = omega arith
last_le (suc n) o [] s = omega arith
last_le (suc n) o (o' ∷ os) s = omega (arith, last_le n o' os s.1)

rows_below-last :
    (n : ℕ) (o : OrderRow) (os : List OrderRow)
    → Below (λ o. o.id) o.id os
    → length (take n os) ≡ n
    → rows_below (last o (take n os)).id (o ∷ os) ≡ drop n os
rows_below-last zero o os s full = ground (arith, rows_below_all o.id o.id os)
rows_below-last (suc n) o [] s full = absurd (omega arith)
rows_below-last (suc n) o (o' ∷ os) s full =
    ground (arith, last_le n o' os s.1, rows_below-last n o' os s.1)

take-all {ℓ} :
    {A : Type ℓ} (n : ℕ) (xs : List A) → (length (take n xs) == n) ≡ false → take n xs ≡ xs
take-all zero xs short = absurd (ground arith)
take-all (suc n) [] short = refl
take-all (suc n) (x ∷ xs) short = ap (λ ys. x ∷ ys) (take-all n xs (ground arith))

take-drop {ℓ} : {A : Type ℓ} (n : ℕ) (xs : List A) → take n xs ++ drop n xs ≡ xs
take-drop zero xs = refl
take-drop (suc n) [] = refl
take-drop (suc n) (x ∷ xs) = ap (λ ys. x ∷ ys) (take-drop n xs)

length-drop-le {ℓ} : {A : Type ℓ} (n : ℕ) (xs : List A) → length (drop n xs) ≤ length xs
length-drop-le zero xs = omega arith
length-drop-le (suc n) [] = omega arith
length-drop-le (suc n) (x ∷ xs) = omega (arith, length-drop-le n xs)

all_rows : (os : List OrderRow) → select (is_after none) os ≡ os
all_rows [] = refl
all_rows (o ∷ os) = ap (λ xs. o ∷ xs) (all_rows os)

-- A client that asks for page after page, at most `fuel` of them: what it has been given.
abbrev pub follow : ℕ → ℕ → Option OrderCursor → Db → List Order
follow zero limit cursor db = []
follow (suc fuel) limit cursor db = elim (get_orders healthy limit cursor db) [
  | err e ↦ []
  | ok (page, none) ↦ page
  | ok (page, some c) ↦ page ++ follow fuel limit (some c) db
]

page_rest :
    (m : ℕ) (o : OrderRow) (os : List OrderRow)
    → Below (λ o. o.id) o.id os
    → length (take m os) ≡ m
    → Below (λ o. o.id) (last o (take m os)).id (drop m os)
page_rest zero o os s full = s
page_rest (suc m) o [] s full = tt
page_rest (suc m) o (o' ∷ os) s full = page_rest m o' os s.1 (omega arith)

last-pos :
    (m : ℕ) (o : OrderRow) (os : List OrderRow)
    → 0 < o.id
    → All (λ o. 0 < o.id) os
    → 0 < (last o (take m os)).id
last-pos zero o os p h = p
last-pos (suc m) o [] p h = p
last-pos (suc m) o (o' ∷ os) p h = last-pos m o' os h.0 h.1

All-drop : (m : ℕ) (os : List OrderRow) → All (λ o. 0 < o.id) os → All (λ o. 0 < o.id) (drop m os)
All-drop zero os h = h
All-drop (suc m) [] h = tt
All-drop (suc m) (o ∷ os) h = All-drop m os h.1

-- `rows` are the rows behind the cursor.
module _ (m : ℕ) (db : Db) where
  abbrev Behind : Option OrderCursor → ℕ → List OrderRow → Type 0
  Behind cursor b rows =
      (select (is_after cursor) db.orders ≡ rows)
      × Below (λ o. o.id) b rows
      × All (λ o. 0 < o.id) rows
      × ((k : ℕ) → k < b → rows_below k db.orders ≡ rows_below k rows)

  get_orders_rows :
      (cursor : Option OrderCursor) (rows : List OrderRow)
      → select (is_after cursor) db.orders ≡ rows
      → get_orders healthy (suc m) cursor db ≡ fill_page none (suc m) (take (suc m) rows) db
  unfolding get_orders order_page
  get_orders_rows cursor rows e = rw e refl

  -- The page ends at a cursor, or it is the last one.
  next_cursor-full :
      (o : OrderRow) (os : List OrderRow)
      → (length (o ∷ os) == suc m) ≡ true
      → next_cursor (suc m) o os
        ≡ some (record { after_id = (last o os).id; created_at = (last o os).created_at })
  unfolding next_cursor
  next_cursor-full o os full = rw full refl

  next_cursor-short :
      (o : OrderRow) (os : List OrderRow)
      → (length (o ∷ os) == suc m) ≡ false
      → next_cursor (suc m) o os ≡ none
  unfolding next_cursor
  next_cursor-short o os short = rw short refl

  Behind-next :
      (cursor : Option OrderCursor) (b created_at : ℕ) (o : OrderRow) (os : List OrderRow)
      → Behind cursor b (o ∷ os)
      → length (take m os) ≡ m
      → let l = (last o (take m os)).id in
        Behind (some (record { after_id = l; created_at = created_at })) l (drop m os)
  Behind-next cursor b created_at o os (page, sorted, pos, same) full =
      let l = (last o (take m os)).id in
      let rest = rows_below-last m o os sorted.1 full in
      let less = last_le m o os sorted.1 in
      let narrow = same l (omega (arith, sorted.0)) ∙ rest in
      (
        ground (arith, last-pos m o os pos.0 pos.1, narrow),
        page_rest m o os sorted.1 full,
        All-drop m os pos.1,
        λ k h.
            same k (omega (arith, sorted.0))
            ∙ sym (rows_below_twice l k (o ∷ os) (omega arith))
            ∙ ap (rows_below k) rest,
      )

  follow_rows :
      (fuel : ℕ) (cursor : Option OrderCursor) (b : ℕ) (rows : List OrderRow)
      → Behind cursor b rows
      → length rows < fuel
      → follow fuel (suc m) cursor db ≡ map (listed_order db) rows
  unfolding fill_page
  follow_rows zero cursor b rows h l = absurd (omega arith)
  follow_rows (suc fuel) cursor b [] h l = rw (get_orders_rows cursor [] h.0, follow) refl
  follow_rows (suc fuel) cursor b (o ∷ os) h l =
      let page = get_orders_rows cursor (o ∷ os) h.0 in
      elim (Bool-cases (length (o ∷ take m os) == suc m)) [
        | inl full ↦
            let next = Behind-next cursor b (last o (take m os)).created_at o os h (ground arith) in
            let c : OrderCursor = record {
              after_id = (last o (take m os)).id;
              created_at = (last o (take m os)).created_at;
            } in
            let rest =
              follow_rows fuel (some c) c.after_id (drop m os) next
                (omega (arith, length-drop-le m os)) in
            let joined = ap (λ xs. map (listed_order db) (o ∷ xs)) (take-drop m os) in
            rw (page, follow)
              (rw (next_cursor-full o (take m os) full)
                (rw rest (sym (map-append (listed_order db) (o ∷ take m os) (drop m os)) ∙ joined)))
        | inr short ↦
            rw (page, follow)
              (rw (next_cursor-short o (take m os) short)
                (ap (λ xs. map (listed_order db) (o ∷ xs)) (take-all m os (ground arith))))
      ]

-- Following the cursors of GetOrders lists every order exactly once, the newest first, each with its
-- items by id: on a store whose order ids are positive and fall from below a bound, for every positive
-- limit, a client that starts with no cursor and asks for at most one page more than there are orders
-- is given the whole list of orders and nothing else.
pub follow-listed_order :
    (m fuel bound : ℕ) (db : Db)
    → Below (λ o. o.id) bound db.orders
    → All (λ o. 0 < o.id) db.orders
    → length db.orders < fuel
    → follow fuel (suc m) none db ≡ map (listed_order db) db.orders
follow-listed_order m fuel bound db sorted pos enough =
    follow_rows m db fuel none bound db.orders (all_rows db.orders, sorted, pos, λ k h. refl) enough
