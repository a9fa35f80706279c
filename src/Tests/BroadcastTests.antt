-- ===== src/Tests/BroadcastTests.antt =====
-- Tests and examples of the webhook queue.
use openclaw_event_server_pl.Common.{
  ℕ, zero, suc, String, true, false, Option, none, some, List, [], ◌∷◌, ◌≡◌, ◌<◌, ◌≤◌, refl, arith,
  All, length, trim,
}
use openclaw_event_server_pl.Events.{OpenClawEvent}
use openclaw_event_server_pl.Broadcast.Webhook.{
  WebhookConfig, RetryConfig, DeliveryResult, Reply, responded, send_to_webhook, judge,
}
use openclaw_event_server_pl.Broadcast.Webhook.Retries.{Outcome, Means, send_to_webhook-Outcome}
use openclaw_event_server_pl.Broadcast.Queue.{
  QueuedEvent, EventQueue, flush, deliver, enqueue, end_flush, new_entry, remove_indices,
}
use openclaw_event_server_pl.Broadcast.Queue.Removal.{remove_indices-marked}
use openclaw_event_server_pl.Broadcast.Queue.Races.{out_of_order_loses, overflow_loses}
use openclaw_event_server_pl.Broadcast.Queue.Bounds.{
  enqueues, flushes, run, IsBounded, run-IsBounded,
}
use openclaw_event_server_pl.Tests.Data.{first_event, second_event, third_event}

abbrev hook : WebhookConfig
hook = record {
  url = "https://example.org/hook";
  method = none;
  headers = [];
  auth_token = none;
  include_full_payload = none;
}

abbrev retry : RetryConfig
retry = record {
  max_attempts = 3;
  initial_delay_ms = 100;
  max_delay_ms = 1000;
  backoff_multiplier = 2;
}

-- The first attempt meets a server error, the second is accepted.
abbrev second_time : ℕ → Reply
second_time zero = responded 503 "unavailable"
second_time (suc zero) = responded 503 "unavailable"
second_time (suc (suc k)) = responded 204 ""

abbrev https : String → Option String
https url = some "https:"

retried_once : send_to_webhook retry hook second_time https ≡ (
  record {
    success = true;
    webhook_url = "https://example.org/hook";
    attempts = 2;
    error = none;
    response_status = some 204;
  },
  100 ∷ [],
)
unfolding send_to_webhook trim
retried_once = refl

send_to_webhook-Outcome_example :
    let r = send_to_webhook retry hook second_time https in
    Outcome second_time 1 3 r.0
    × All (λ w. w ≤ 1000) r.1
    × (length r.1 < r.0.attempts)
    × ((reply : Reply) → Means reply (judge reply))
unfolding trim
send_to_webhook-Outcome_example =
    send_to_webhook-Outcome retry hook second_time https "https:" refl refl refl (omega arith)

abbrev entry : ℕ → OpenClawEvent → QueuedEvent
entry ref e = new_entry e 10 ref

abbrev queue_of : ℕ → List QueuedEvent → EventQueue
queue_of max_size queue = record {
  queue = queue;
  max_size = max_size;
  persist_to_disk = true;
  webhooks = hook ∷ [];
  max_attempts = 3;
  flush_timer = true;
  progress = none;
  next_ref = 9;
  snapshots = [];
}

abbrev success : List DeliveryResult
success =
    record {
      success = true;
      webhook_url = hook.url;
      attempts = 1;
      error = none;
      response_status = some 200;
    }
    ∷ []

abbrev failure : List DeliveryResult
failure =
    record {
      success = false;
      webhook_url = hook.url;
      attempts = 3;
      error = some "unavailable";
      response_status = some 503;
    }
    ∷ []

abbrev three : List QueuedEvent
three = entry 1 first_event ∷ entry 2 second_event ∷ entry 3 third_event ∷ []

-- Two of three entries are delivered, in order; the third is kept with one attempt.
flushed :
    (end_flush
      (deliver 2 failure (deliver 1 success (deliver 0 success (flush (queue_of 5 three))))))
    ≡ record (queue_of 5
        (record (entry 3 third_event) { attempts = 1; last_error = some "unavailable" } ∷ [])) {
          snapshots =
              (record (entry 3 third_event) { attempts = 1; last_error = some "unavailable" } ∷ [])
              ∷ [];
        }
unfolding flush deliver end_flush
flushed = refl

remove_indices-marked_example : remove_indices (0 ∷ 2 ∷ []) three ≡ entry 2 second_event ∷ []
remove_indices-marked_example = remove_indices-marked (true ∷ false ∷ true ∷ []) three

out_of_order_loses_example :
    (deliver 2 failure (deliver 0 success (deliver 1 success (flush (queue_of 5 three))))).queue
    ≡ entry 2 second_event ∷ []
out_of_order_loses_example =
    out_of_order_loses (queue_of 5 three) (entry 1 first_event) (entry 2 second_event)
      (entry 3 third_event) success success failure refl refl (ground arith) refl refl refl

abbrev two : List QueuedEvent
two = entry 1 first_event ∷ entry 2 second_event ∷ []

overflow_loses_example :
    ((enqueue third_event 20 (flush (queue_of 2 two))).queue
      ≡ entry 2 second_event ∷ new_entry third_event 20 9 ∷ [])
    × ((deliver 1 success
          (deliver 0 success (enqueue third_event 20 (flush (queue_of 2 two))))).queue
        ≡ [])
overflow_loses_example =
    overflow_loses (queue_of 2 two) (entry 1 first_event) (entry 2 second_event) third_event 20
      success success refl refl refl refl refl

run-IsBounded_example : IsBounded (run (enqueues third_event 20 ∷ flushes ∷ []) (queue_of 2 two))
run-IsBounded_example =
    run-IsBounded (enqueues third_event 20 ∷ flushes ∷ []) (queue_of 2 two) (omega arith)
