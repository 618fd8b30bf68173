-- ===== src/Domain/Lifecycle.antt =====
-- The two state machines of order-service/internal/domain against their diagrams.
use microservice_architectur.Base.{◌≡◌, refl, ◌↔◌, true, arith}
use microservice_architectur.Domain.Order.{OrderStatus, can_transition}
use microservice_architectur.Domain.Payment.{PaymentStatus, can_transition_payment, is_terminal}

-- The arrows of the orders' diagram.
pub data OrderArrow : OrderStatus → OrderStatus → Type 0 where
  pay : OrderArrow OrderStatus.pending OrderStatus.paid
  abandon : OrderArrow OrderStatus.pending OrderStatus.cancelled
  ship : OrderArrow OrderStatus.paid OrderStatus.shipped
  call_off : OrderArrow OrderStatus.paid OrderStatus.cancelled
  deliver : OrderArrow OrderStatus.shipped OrderStatus.delivered

-- The arrows of the payments' diagram.
pub data PaymentArrow : PaymentStatus → PaymentStatus → Type 0 where
  succeed : PaymentArrow PaymentStatus.pending PaymentStatus.succeeded
  fail : PaymentArrow PaymentStatus.pending PaymentStatus.failed
  expire : PaymentArrow PaymentStatus.pending PaymentStatus.expired
  refund : PaymentArrow PaymentStatus.succeeded PaymentStatus.refunded

pub data PaymentPath : PaymentStatus → PaymentStatus → Type 0 where
  here : {s : PaymentStatus} → PaymentPath s s
  then : {s t u : PaymentStatus} → PaymentArrow s t → PaymentPath t u → PaymentPath s u

order_arrow_sound : {s t : OrderStatus} → OrderArrow s t → can_transition s t ≡ true
unfolding can_transition
order_arrow_sound pay = refl
order_arrow_sound abandon = refl
order_arrow_sound ship = refl
order_arrow_sound call_off = refl
order_arrow_sound deliver = refl

order_arrow_complete : (s t : OrderStatus) → can_transition s t ≡ true → OrderArrow s t
unfolding can_transition
order_arrow_complete OrderStatus.pending OrderStatus.paid h = pay
order_arrow_complete OrderStatus.pending OrderStatus.cancelled h = abandon
order_arrow_complete OrderStatus.paid OrderStatus.shipped h = ship
order_arrow_complete OrderStatus.paid OrderStatus.cancelled h = call_off
order_arrow_complete OrderStatus.shipped OrderStatus.delivered h = deliver
order_arrow_complete s t h = absurd (ground arith)

-- For every two order statuses, unknown strings included, `CanTransition` answers true exactly when
-- the diagram has an arrow from the first to the second.
pub can_transition-OrderArrow : (s t : OrderStatus) → (can_transition s t ≡ true) ↔ OrderArrow s t
can_transition-OrderArrow s t = (order_arrow_complete s t, order_arrow_sound)

payment_arrow_sound : {s t : PaymentStatus} → PaymentArrow s t → can_transition_payment s t ≡ true
unfolding can_transition_payment
payment_arrow_sound succeed = refl
payment_arrow_sound fail = refl
payment_arrow_sound expire = refl
payment_arrow_sound refund = refl

payment_arrow_complete :
    (s t : PaymentStatus) → can_transition_payment s t ≡ true → PaymentArrow s t
unfolding can_transition_payment
payment_arrow_complete PaymentStatus.pending PaymentStatus.succeeded h = succeed
payment_arrow_complete PaymentStatus.pending PaymentStatus.failed h = fail
payment_arrow_complete PaymentStatus.pending PaymentStatus.expired h = expire
payment_arrow_complete PaymentStatus.succeeded PaymentStatus.refunded h = refund
payment_arrow_complete s t h = absurd (ground arith)

-- For every two payment statuses, unknown strings included, `CanTransitionPayment` answers true
-- exactly when the diagram has an arrow from the first to the second.
pub can_transition_payment-PaymentArrow :
    (s t : PaymentStatus) → (can_transition_payment s t ≡ true) ↔ PaymentArrow s t
can_transition_payment-PaymentArrow s t = (payment_arrow_complete s t, payment_arrow_sound)

terminal_no_arrow : {s t : PaymentStatus} → is_terminal s ≡ true → PaymentArrow s t → ⊥
unfolding is_terminal
terminal_no_arrow h succeed = cc
terminal_no_arrow h fail = cc
terminal_no_arrow h expire = cc
terminal_no_arrow h refund = cc

-- A payment in a terminal status never leaves it: any sequence of allowed transitions that begins
-- in a status for which `IsTerminal` holds ends in that status.
is_terminal-absorbs : {s t : PaymentStatus} → is_terminal s ≡ true → PaymentPath s t → s ≡ t
is_terminal-absorbs h here = refl
is_terminal-absorbs h (then a p) = absurd (terminal_no_arrow h a)
