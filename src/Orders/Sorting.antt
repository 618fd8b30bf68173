-- ===== src/Orders/Sorting.antt =====
-- The sorting of the items in `CreateOrder`, order-service/internal/repository/order.go, and the
-- products that they name.
use microservice_architectur.Base.{ℕ, ◌≡◌, refl, ap, ◌∙◌, false, ◌||◌, List, [], ◌∷◌, ◌==◌, arith}
use microservice_architectur.Orders.Create.{Line, sort_lines, insert_line}
use microservice_architectur.Orders.Stock.{mentions, Distinct}

mentions-insert_line :
    (k : ℕ) (l : Line) (ls : List Line) → mentions k (insert_line l ls) ≡ mentions k (l ∷ ls)
unfolding insert_line
mentions-insert_line k l [] = refl
mentions-insert_line k l (m ∷ ms) = ground (arith, mentions-insert_line k l ms)

Distinct-insert_line :
    (l : Line) (ls : List Line)
    → mentions l.product_id ls ≡ false
    → Distinct ls
    → Distinct (insert_line l ls)
unfolding insert_line
Distinct-insert_line l [] h d = (refl, tt)
Distinct-insert_line l (m ∷ ms) h d =
    ground (arith, Distinct-insert_line l ms, mentions-insert_line m.product_id l ms)

pub mentions-sort_lines : (k : ℕ) (ls : List Line) → mentions k (sort_lines ls) ≡ mentions k ls
unfolding sort_lines
mentions-sort_lines k [] = refl
mentions-sort_lines k (l ∷ ls) =
    mentions-insert_line k l (sort_lines ls)
    ∙ ap (λ b. (l.product_id == k) || b) (mentions-sort_lines k ls)

pub Distinct-sort_lines : (ls : List Line) → Distinct ls → Distinct (sort_lines ls)
unfolding sort_lines
Distinct-sort_lines [] d = tt
Distinct-sort_lines (l ∷ ls) d =
    Distinct-insert_line l (sort_lines ls) (mentions-sort_lines l.product_id ls ∙ d.0)
      (Distinct-sort_lines ls d.1)
