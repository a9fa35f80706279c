-- ===== src/Broadcast/Webhook.antt =====
-- broadcast/webhook.ts: one event sent to one webhook, with retries and exponential backoff. The
-- HTTP client and the URL parser are parameters: the reply to each attempt, and the protocol of a
-- text that is a URL. The measured duration of a delivery is left out.
pub mod Retries
use openclaw_event_server_pl.Common.{
  ℕ, zero, suc, ◌+◌, ◌-◌, ◌*◌, min, String, Bool, true, false, not, ◌&&◌, ◌||◌, Option, none, some,
  List, [], ◌∷◌, map, ltb, leb, nat_eq, ◌==◌, if◌then◌else◌, trim,
}
use openclaw_event_server_pl.Common.JsMap.{JsMap}

pub record WebhookConfig : Type 0 where
  pub url : String
  pub method : Option String
  pub headers : JsMap String
  pub auth_token : Option String
  pub include_full_payload : Option Bool

pub record RetryConfig : Type 0 where
  pub max_attempts : ℕ
  pub initial_delay_ms : ℕ
  pub max_delay_ms : ℕ
  pub backoff_multiplier : ℕ

pub record DeliveryResult : Type 0 where
  pub success : Bool
  pub webhook_url : String
  pub attempts : ℕ
  pub error : Option String
  pub response_status : Option ℕ

-- What the client reports: a response with its status and the message of the error that a status
-- outside 2xx is turned into, or a failure with no response.
pub data Reply : Type 0 where
  responded : ℕ → String → Reply
  failed : String → Reply

-- `validateStatus`.
abbrev pub is_accepted : ℕ → Bool
is_accepted status = leb 200 status && ltb status 300

-- 4xx except 429.
abbrev pub is_client_error : ℕ → Bool
is_client_error status = leb 400 status && ltb status 500 && not (nat_eq status 429)

-- What one attempt leads to: success, an error after which the loop stops, or one to retry.
pub data Verdict : Type 0 where
  delivered : ℕ → Verdict
  fatal : String → ℕ → Verdict
  transient : String → Option ℕ → Verdict

unfoldable pub judge : Reply → Verdict
judge (responded status message) =
    if is_accepted status
    then delivered status
    else if is_client_error status
    then fatal message status
    else transient message (some status)
judge (failed message) = transient message none

-- The result with the delays that were waited for, in order.
abbrev pub Delivery : Type 0
Delivery = DeliveryResult × List ℕ

module _ (retry : RetryConfig) (webhook : WebhookConfig) (http : ℕ → Reply) where
  -- After the loop: the last error is reported.
  give_up : ℕ → Option String → Option ℕ → DeliveryResult
  give_up attempts error status = record {
    success = false;
    webhook_url = trim webhook.url;
    attempts = attempts;
    error = error;
    response_status = status;
  }

  delivered_at : ℕ → ℕ → DeliveryResult
  delivered_at attempts status = record {
    success = true;
    webhook_url = webhook.url;
    attempts = attempts;
    error = none;
    response_status = some status;
  }

  -- No wait follows the last attempt.
  wait_before : ℕ → ℕ → Delivery → Delivery
  wait_before zero delay_ms r = r
  wait_before (suc left) delay_ms r = (r.0, delay_ms ∷ r.1)

  -- The `while` loop: `left` is `maxAttempts - attempts`.
  unfoldable pub attempt : ℕ → ℕ → ℕ → Option String → Option ℕ → Delivery
  unfolding give_up delivered_at wait_before judge
  attempt zero attempts delay_ms error status = (give_up attempts error status, [])
  attempt (suc left) attempts delay_ms error status = elim (judge (http (attempts + 1))) [
    | delivered code ↦ (delivered_at (attempts + 1) code, [])
    | fatal message code ↦ (give_up (attempts + 1) (some message) (some code), [])
    | transient message code ↦ wait_before left delay_ms (
        attempt left (attempts + 1) (min (delay_ms * retry.backoff_multiplier) retry.max_delay_ms)
          (some message) code)
  ]

  rejected : String → Delivery
  rejected message = (
    record {
      success = false;
      webhook_url = trim webhook.url;
      attempts = 0;
      error = some message;
      response_status = none;
    },
    [],
  )

  -- `protocol` is the URL parser: none where it throws.
  unfoldable pub send_to_webhook : (String → Option String) → Delivery
  unfolding attempt rejected
  send_to_webhook protocol =
      if trim webhook.url == ""
      then rejected "Invalid webhook URL"
      else elim (protocol (trim webhook.url)) [
        | none ↦ rejected "Invalid webhook URL format"
        | some scheme ↦
            if scheme == "http:" || scheme == "https:"
            then attempt retry.max_attempts 0 retry.initial_delay_ms none none
            else rejected "Only HTTP and HTTPS webhook URLs are supported"
      ]

-- The results of all webhooks, in the order of their configuration.
unfoldable pub broadcast_to_webhooks :
    RetryConfig
    → (WebhookConfig → ℕ → Reply)
    → (String → Option String)
    → List WebhookConfig
    → List DeliveryResult
broadcast_to_webhooks retry http protocol webhooks =
    map (λ w. (send_to_webhook retry w (http w) protocol).0) webhooks
