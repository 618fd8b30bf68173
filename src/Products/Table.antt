-- ===== src/Products/Table.antt =====
-- order-service/internal/repository/product.go.
use microservice_architectur.Base.{
  ℕ, Option, List, ◌==◌, find, Error, Result, ok, ◌>>◌, attempt, or_fail,
}
use microservice_architectur.Domain.Order.{Product}
use microservice_architectur.Store.{Db}

-- GetProducts; a failure while the rows are read counts as the query's.
unfoldable pub get_products : Option Error → Db → Result (List Product)
get_products fault db = attempt fault >> ok db.products

-- GetProductByID
unfoldable pub get_product_by_id : Option Error → ℕ → Db → Result Product
get_product_by_id fault id db =
    attempt fault
    >> or_fail (find (λ (p : Product). p.id == id) db.products) Error.product_not_found
