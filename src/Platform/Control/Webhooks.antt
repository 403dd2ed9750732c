-- ===== src/Platform/Control/Webhooks.antt =====
-- Webhook deliveries (backend/app/services/webhook_orchestrator.py). The receiver's answer to a
-- delivery is a parameter; its body and signature are left out.
use eminidatabase.Base.{
  ℕ, suc, Bool, true, false, not, Option, none, some, List, [], ◌∷◌, ◌==◌, ◌&&◌, leb, if◌then◌else◌,
}
use eminidatabase.Base.Table.{Table, lookup, modify, add, rows}
use eminidatabase.Base.Action.{◌>>=◌, ◌>>◌, pure, raise, found, raise_if, reads, writes}
use eminidatabase.Platform.Jobs.{deliver_webhook}
use eminidatabase.Platform.Control.{
  WebhookEvent, Webhook, WebhookDelivery, WebhookDeliveryStatus, Control, Tx, drawn, enqueue_job,
  runtime_error,
}

abbrev pub same_event : WebhookEvent → WebhookEvent → Bool
same_event WebhookEvent.database_created WebhookEvent.database_created = true
same_event WebhookEvent.database_failed WebhookEvent.database_failed = true
same_event WebhookEvent.backup_completed WebhookEvent.backup_completed = true
same_event WebhookEvent.backup_failed WebhookEvent.backup_failed = true
same_event WebhookEvent.restore_completed WebhookEvent.restore_completed = true
same_event WebhookEvent.invoice_paid WebhookEvent.invoice_paid = true
same_event _ _ = false

-- `event_type in webhook.event_types`
abbrev pub subscribes : WebhookEvent → List WebhookEvent → Bool
subscribes e [] = false
subscribes e (x ∷ xs) = if same_event e x then true else subscribes e xs

abbrev pub add_delivery : WebhookDelivery → Control → Control
add_delivery d s = record s { deliveries = add s.next_id d s.deliveries; next_id = suc s.next_id }

-- A delivery and its job.
abbrev pub deliver : ℕ → WebhookEvent → (subject now : ℕ) → Tx (Unit {0})
deliver webhook_id event_type subject now = do
  delivery_id ← drawn
  writes (
      add_delivery (record {
        webhook_id = webhook_id;
        event_type = event_type;
        subject = subject;
        status = WebhookDeliveryStatus.pending;
        response_code = none;
        delivered_at = none;
      }))
  job_id ←
      enqueue_job deliver_webhook
        (record {
          subject = delivery_id;
          object = none;
          organization_id = none;
          resource_id = some delivery_id;
        })
        none now
  pure tt

-- The loop over the organization's active webhooks.
abbrev pub deliver_all : Table Webhook → WebhookEvent → (subject now : ℕ) → Tx (Unit {0})
deliver_all [] event_type subject now = pure tt
deliver_all ((k, w) ∷ ws) event_type subject now =
    let rest = deliver_all ws event_type subject now in
    if subscribes event_type w.event_types then deliver k event_type subject now >> rest else rest

unfoldable pub emit_event : Option ℕ → WebhookEvent → (subject now : ℕ) → Tx (Unit {0})
emit_event none event_type subject now = pure tt
emit_event (some organization_id) event_type subject now = do
  webhooks ← reads (λ s. rows (λ w. w.organization_id == organization_id && w.is_active) s.webhooks)
  deliver_all webhooks event_type subject now

abbrev pub set_delivery : ℕ → (WebhookDelivery → WebhookDelivery) → Control → Control
set_delivery k f s = record s { deliveries = modify k f s.deliveries }

abbrev pub is_succeeded : WebhookDeliveryStatus → Bool
is_succeeded WebhookDeliveryStatus.succeeded = true
is_succeeded _ = false

-- The webhook, if it is there and active.
abbrev pub active_webhook : Option Webhook → Bool
active_webhook none = false
active_webhook (some w) = w.is_active

-- `resp.is_success`
abbrev pub is_success : ℕ → Bool
is_success code = leb 200 code && leb code 299

-- The receiver's answer: a status code, or no answer, which raises.
abbrev pub posted : ℕ → (now : ℕ) → Option ℕ → Tx (Unit {0})
posted delivery_id now none = raise runtime_error
posted delivery_id now (some code) = do
  writes (set_delivery delivery_id (λ d. record d { response_code = some code }))
  raise_if (not (is_success code)) runtime_error
  writes (
      set_delivery delivery_id
        (λ d. record d { status = WebhookDeliveryStatus.succeeded; delivered_at = some now }))

unfoldable pub execute_deliver_webhook :
    (endpoint : ℕ → Option ℕ) (delivery_id now : ℕ) → Tx (Unit {0})
execute_deliver_webhook endpoint delivery_id now = do
  delivery ← found runtime_error (← reads (λ s. lookup delivery_id s.deliveries))
  webhook ← reads (λ s. lookup delivery.webhook_id s.webhooks)
  if is_succeeded delivery.status
      then pure tt
      else (if active_webhook webhook
          then posted delivery_id now (endpoint delivery.webhook_id)
          else writes
              (set_delivery delivery_id (λ d. record d { status = WebhookDeliveryStatus.failed })))
