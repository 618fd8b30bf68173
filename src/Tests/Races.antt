-- ===== src/Tests/Races.antt =====
-- Look-ups and invalidations of a product at concrete inputs.
use microservice_architectur.Base.{ℕ, ◌≡◌, refl, arith, none, List, [], ◌∷◌, ok}
use microservice_architectur.Domain.Order.{Product}
use microservice_architectur.Store.{Db}
use microservice_architectur.Cache.{value, guard}
use microservice_architectur.Cache.Client.{get, set, delete, guarded, decoded}
use microservice_architectur.Products.Cached.{keep_read}
use microservice_architectur.Products.Cached
use microservice_architectur.Products.Table
use microservice_architectur.Products.Fresh.{InTable}
use microservice_architectur.Products.Race.{
  Scene, Event, looks, begins, ends, drops, commits, act, acts,
}
use microservice_architectur.Products.Race.Won.{acts-InTable}
use microservice_architectur.Tests.Caches.{Slots, a_redis, a_json, a_product, a_shop, warm, calm}

abbrev sold : Product
sold = record a_product { stock = 2 }

abbrev sold_shop : Db
sold_shop = record a_shop { products = sold ∷ [] }

-- One product has been sold, which Redis does not know yet; a leader under another key is on its way.
abbrev just_sold : Scene (Slots (List ℕ))
just_sold = record {
  db = sold_shop;
  repo = warm.repo;
  leaders = record { id = 8; result = ok a_product } ∷ [];
}

abbrev look_up : List Event
look_up = looks calm 9 ∷ begins none 9 ∷ ends 1 calm ∷ ends 0 calm ∷ []

acts-InTable_example :
    InTable (acts a_redis a_json look_up (act a_redis a_json (drops 9) just_sold)).db 9 sold
unfolding act acts Cached.invalidate_by_id keep_read Table.get_product_by_id get set delete guarded
    guard decoded
acts-InTable_example =
    acts-InTable a_redis a_json 9 look_up just_sold calm sold
      ((λ p e mine. absurd (ground arith)), tt) refl (tt, (tt, (tt, (tt, tt)))) refl

-- A leader that has read before the sale and puts behind the invalidation leaves the old product.
abbrev open_shop : Scene (Slots (List ℕ))
open_shop = record { db = a_shop; repo = warm.repo; leaders = [] }

late_leader :
    (get a_redis a_json calm 9
      (acts a_redis a_json
        (begins none 9 ∷ commits sold_shop ∷ drops 9 ∷ ends 0 calm ∷ [])
        open_shop).repo.cache).0
    ≡ value a_product
unfolding act acts Cached.invalidate_by_id keep_read Table.get_product_by_id get set delete guarded
    guard decoded
late_leader = refl
