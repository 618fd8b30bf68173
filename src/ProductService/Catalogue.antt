-- ===== src/ProductService/Catalogue.antt =====
-- product-service/main.go: the products in memory.
--
-- The requests are decoded already: `name` and `price` are what the JSON decoder leaves behind, and an
-- id is what `strconv.Atoi` gives, where a text that is no number counts as 0. Prices, floats that
-- nothing computes with, are numbers. Requests are served one after another.
use microservice_architectur.Base.{
  ℕ, ◌+◌, Bool, Option, List, [], ◌∷◌, ◌++◌, ◌==◌, find, length, if◌then◌else◌, any,
}

pub record Product : Type 0 where
  pub id : ℕ
  pub name : ℕ
  pub price : ℕ

-- addProductHandler
unfoldable pub add_product : ℕ → ℕ → List Product → List Product
add_product name price products =
    products ++ (record { id = length products + 1; name = name; price = price } ∷ [])

-- getProductHandler; `none` is the status 404.
unfoldable pub get_product : ℕ → List Product → Option Product
get_product id products = find (λ (p : Product). p.id == id) products

-- The loop of deleteProductHandler: the first product with the id is cut out.
unfoldable pub cut : ℕ → List Product → List Product
cut id [] = []
cut id (p ∷ ps) = let rest = cut id ps in if p.id == id then ps else p ∷ rest

-- deleteProductHandler; `false` is the status 404.
unfoldable pub delete_product : ℕ → List Product → Bool × List Product
unfolding cut
delete_product id products = (any (λ (p : Product). p.id == id) products, cut id products)
