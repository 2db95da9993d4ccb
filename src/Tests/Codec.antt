-- ===== src/Tests/Codec.antt =====
-- A codec of orders: each text behind its length, and numbers for the rest.
use enterprise_support_agent.Base.{
  ℕ, Bool, true, false, Option, none, some, [], ◌∷◌, ◌++◌, ◌≡◌, refl, arith, ap, length, take, drop,
  if◌then◌else◌, ◌==◌,
}
use enterprise_support_agent.Base.Text.{Text}
use enterprise_support_agent.Domain.{
  OrderStatus, pending_payment, paid, shipped, completed, cancelled, refunding, refunded,
  OrderResponse,
}
use enterprise_support_agent.Business.Cached.Commands.{Codec}

put : Text → Text → Text
put s rest = length s ∷ (s ++ rest)

split : Text → Text × Text
split [] = ([], [])
split (n ∷ r) = (take n r, drop n r)

take-append : (s rest : Text) → take (length s) (s ++ rest) ≡ s
take-append [] rest = refl
take-append (c ∷ s) rest = ap (◌∷◌ c) (take-append s rest)

drop-append : (s rest : Text) → drop (length s) (s ++ rest) ≡ rest
drop-append [] rest = refl
drop-append (c ∷ s) rest = drop-append s rest

split-put : (s rest : Text) → split (put s rest) ≡ (s, rest)
unfolding split put
split-put s rest = rw (take-append s rest, drop-append s rest) refl

bit : Bool → ℕ
bit true = 1
bit false = 0

is_set : ℕ → Bool
is_set n = n == 1

status_code : OrderStatus → ℕ
status_code pending_payment = 0
status_code paid = 1
status_code shipped = 2
status_code completed = 3
status_code cancelled = 4
status_code refunding = 5
status_code refunded = 6

status_of : ℕ → OrderStatus
status_of n =
    if n == 0
    then pending_payment
    else if n == 1
    then paid
    else if n == 2
    then shipped
    else if n == 3
    then completed
    else if n == 4
    then cancelled
    else if n == 5
    then refunding
    else refunded

encode : OrderResponse → Text
unfolding bit status_code
encode o = put o.order_id (
    put o.product_name (
      put o.created_at (
        o.quantity
        ∷ bit o.total_amount.negative
        ∷ o.total_amount.digits
        ∷ o.total_amount.scale
        ∷ status_code o.status
        ∷ bit o.cancelable
        ∷ bit o.refundable
        ∷ [])))

decode_numbers : Text → Text → Text → Text → Option OrderResponse
unfolding is_set status_of
decode_numbers order_id product_name created_at (q ∷ n ∷ d ∷ s ∷ st ∷ c ∷ r ∷ []) = some (record {
  order_id = order_id;
  product_name = product_name;
  quantity = q;
  total_amount = record { negative = is_set n; digits = d; scale = s };
  status = status_of st;
  created_at = created_at;
  cancelable = is_set c;
  refundable = is_set r;
})
decode_numbers order_id product_name created_at _ = none

decode : Text → Option OrderResponse
decode t =
    let (order_id, behind_id) = split t in
    let (product_name, behind_name) = split behind_id in
    let (created_at, numbers) = split behind_name in
    decode_numbers order_id product_name created_at numbers

status-code : (s : OrderStatus) → status_of (status_code s) ≡ s
unfolding status_of status_code
status-code s = ground arith

set-bit : (b : Bool) → is_set (bit b) ≡ b
unfolding is_set bit
set-bit b = ground arith

decode-encode_lem : (o : OrderResponse) → decode (encode o) ≡ some o
unfolding decode encode decode_numbers
decode-encode_lem o =
    rw (split-put o.order_id _, split-put o.product_name _, split-put o.created_at _)
      (rw
        (
          set-bit o.total_amount.negative,
          set-bit o.cancelable,
          set-bit o.refundable,
          status-code o.status,
        )
        refl)

pub codec : Codec
codec = record { encode = encode; decode = decode; decode-encode = decode-encode_lem }
