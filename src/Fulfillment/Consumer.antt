-- ===== src/Fulfillment/Consumer.antt =====
-- The handling of a message by the fulfillment worker,
-- services/fulfillment/internal/worker/consumer/worker.go.
pub mod Delivery
pub mod Blocking
use event_driven_order_fulfi.Common.{
  ◌≡◌, Bool, true, false, Option, none, some, if◌then◌else◌, Outcome, ok, err, or_fail,
}
use event_driven_order_fulfi.Common.Text.{txt, text_beq}
use event_driven_order_fulfi.Common.Json.{Json}
use event_driven_order_fulfi.Common.Json
use event_driven_order_fulfi.Common.Session.{Session, Action, pure, lift, ◌>>=◌}
use event_driven_order_fulfi.Platform.{Platform, Text, Time, Uuid}
use event_driven_order_fulfi.Consumer.{Message, header_value, Failure, permanent, transient}
use event_driven_order_fulfi.Fulfillment.Contracts.{unmarshal_order_confirmed}
use event_driven_order_fulfi.Fulfillment.Shipment.{Error, Shipment}
use event_driven_order_fulfi.Fulfillment.Store.{World}
use event_driven_order_fulfi.Fulfillment.Service.{create_for_order}

abbrev pub is_confirmed : Message → Bool
is_confirmed m = text_beq (header_value m.headers (txt "event-type")) (txt "order.confirmed.v1")

-- An error of the service is transient for the worker.
abbrev pub as_transient :
    Outcome Error Shipment × Session World → Outcome Failure (Unit {0}) × Session World
as_transient (ok x, s) = (ok tt, s)
as_transient (err e, s) = (err transient, s)

module _ ⦃p : Platform⦄ where
  -- The order of an order.confirmed body.
  unfoldable pub decode_order : Option Json → Option Uuid
  decode_order raw =
      Json.◌>>=◌ raw λ j. Json.◌>>=◌ (unmarshal_order_confirmed j) λ e. p.uuid_parse e.order_id

  module _ (mint : Session World → Uuid × Time) where
    -- `handleConfirmed`. `mint` gives what `uuid.New` and the clock answer, in any way.
    unfoldable pub handle_confirmed : Message → Action World Failure (Unit {0})
    unfolding decode_order
    handle_confirmed m = do
      o ← lift (or_fail (decode_order m.value) permanent)
      λ s. let (id, now) = mint s in as_transient (create_for_order id o now s)

    -- The branch of `Run` on the type of a message.
    unfoldable pub handle_message : Message → Action World Failure (Unit {0})
    unfolding handle_confirmed
    handle_message m = if is_confirmed m then handle_confirmed m else pure tt
