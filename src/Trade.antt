-- ===== src/Trade.antt =====
-- internal/modules/trade: the orders that business modules create, complete and cancel
-- (domain/rule.go, domain/trade_orders.gen.go, domain/trade_order_transitions.gen.go).
use backend_demo.Prelude.{ℕ, ℤ, Bool, true, false, Option}
use backend_demo.Platform.Text.{Text}

pub data OrderType : Type 0 where
  order_type_marketplace order_type_errand : OrderType

pub data ResourceType : Type 0 where
  resource_listing resource_errand_task : ResourceType

pub data PaymentMode : Type 0 where
  payment_offline : PaymentMode

pub data TradeStatus : Type 0 where
  status_confirmed status_completed status_cancelled status_expired : TradeStatus

pub data FulfillmentStatus : Type 0 where
  fulfillment_not_started fulfillment_in_progress fulfillment_delivered : FulfillmentStatus

pub record Order : Type 0 where
  pub id : ℕ
  pub order_no : Text
  pub order_type : OrderType
  pub resource_type : ResourceType
  pub resource_id : ℕ
  pub buyer_id : ℕ
  pub seller_id : ℕ
  pub amount_cents : ℤ
  pub currency : Text
  pub payment_mode : PaymentMode
  pub trade_status : TradeStatus
  pub fulfillment_status : FulfillmentStatus
  pub title_snapshot : Text
  pub resource_snapshot : Text
  pub idempotency_key : Text
  pub expires_at : Option ℕ
  pub paid_at : Option ℕ
  pub completed_at : Option ℕ
  pub cancelled_at : Option ℕ
  pub closed_at : Option ℕ
  pub version : ℕ

-- `from_status` is empty on the row that records the creation. Every row of the modelled modules
-- has the actor type "user".
pub record OrderTransition : Type 0 where
  pub order_id : ℕ
  pub from_status : Option TradeStatus
  pub to_status : TradeStatus
  pub actor_id : Option ℕ
  pub reason_code : Text
  pub idempotency_key : Text

unfoldable pub can_transition : TradeStatus → TradeStatus → Bool
can_transition status_confirmed status_completed = true
can_transition status_confirmed status_cancelled = true
can_transition status_confirmed status_expired = true
can_transition _ _ = false

abbrev pub is_errand_task : ResourceType → Bool
is_errand_task resource_errand_task = true
is_errand_task resource_listing = false
