-- ===== src/Broadcast/Queue/Bounds.antt =====
-- How large the queue grows (broadcast/queue.ts).
use openclaw_event_server_pl.Common.{
  ℕ, ◌+◌, ◌-◌, ◌≤◌, max, String, ◌≡◌, refl, false, Option, List, [], ◌∷◌, ◌++◌, arith, ap, length,
  shift, leb, length-append, length-shift, length-drop, if◌then◌else◌,
}
use openclaw_event_server_pl.Events.{OpenClawEvent}
use openclaw_event_server_pl.Broadcast.Webhook.{WebhookConfig, DeliveryResult}
use openclaw_event_server_pl.Broadcast.Queue.{
  QueuedEvent, EventQueue, new_entry, push_event, flush, enqueue, deliver, end_flush, clear, stop,
  timer_fires, start_flush_timer, merge_restored_queue, update_webhooks, persist_queue, next_batch,
  mark_failed, await_batch, settle_delivery, unknown_events,
}
use openclaw_event_server_pl.Broadcast.Queue.Removal.{length-remove_indices}

-- What may happen to a queue, in any order.
pub data Call : Type 0 where
  enqueues : OpenClawEvent → ℕ → Call
  flushes : Call
  delivers : ℕ → List DeliveryResult → Call
  ends_flush : Call
  fires : Call
  clears : Call
  stops : Call
  starts_timer : Call
  restores : List QueuedEvent → Call
  updates : (String → Option String) → List WebhookConfig → Call

unfoldable pub step : Call → EventQueue → EventQueue
step (enqueues e now) q = enqueue e now q
step flushes q = flush q
step (delivers k results) q = deliver k results q
step ends_flush q = end_flush q
step fires q = timer_fires q
step clears q = clear q
step stops q = stop q
step starts_timer q = start_flush_timer q
step (restores entries) q = merge_restored_queue entries q
step (updates protocol webhooks) q = update_webhooks protocol webhooks q

unfoldable pub run : List Call → EventQueue → EventQueue
unfolding step
run [] q = q
run (c ∷ cs) q = run cs (step c q)

-- The queue after an operation is no longer than before, and its limit is the same.
abbrev NoLonger : EventQueue → EventQueue → Type 0
NoLonger p q = (length p.queue ≤ length q.queue) × (p.max_size ≡ q.max_size)

persist_queue-queue :
    (q : EventQueue)
    → ((persist_queue q).queue ≡ q.queue) × ((persist_queue q).max_size ≡ q.max_size)
unfolding persist_queue
persist_queue-queue q = ground arith

next_batch-NoLonger :
    (base : ℕ) (indices : List ℕ) (q : EventQueue) → NoLonger (next_batch base indices q) q
unfolding next_batch
next_batch-NoLonger base indices q = ground (arith, length-remove_indices indices q.queue)

flush-NoLonger : (q : EventQueue) → NoLonger (flush q) q
unfolding flush
flush-NoLonger q = ground (arith, next_batch-NoLonger 0 [] q)

length-mark_failed :
    (ref : ℕ) (error : Option String) (xs : List QueuedEvent)
    → length (mark_failed ref error xs) ≡ length xs
unfolding mark_failed
length-mark_failed ref error [] = refl
length-mark_failed ref error (x ∷ xs) = omega (arith, length-mark_failed ref error xs)

await_batch-NoLonger :
    (base : ℕ) (batch : List QueuedEvent) (waiting indices : List ℕ) (q : EventQueue)
    → NoLonger (await_batch base batch waiting indices q) q
unfolding await_batch
await_batch-NoLonger base batch [] indices q = next_batch-NoLonger (base + 10) indices q
await_batch-NoLonger base batch (j ∷ js) indices q = (omega arith, refl)

deliver-NoLonger :
    (k : ℕ) (results : List DeliveryResult) (q : EventQueue) → NoLonger (deliver k results q) q
unfolding deliver settle_delivery
deliver-NoLonger k results q = grind (arith, await_batch-NoLonger, length-mark_failed)

-- Up to its first `await` a flush leaves the queue as it is.
flush-queue : (q : EventQueue) → (flush q).queue ≡ q.queue
unfolding flush
flush-queue q = ground arith

-- An enqueued event comes last; the oldest entry is dropped exactly when the queue was full, and
-- nothing else is, also when the call starts a flush.
pub enqueue-queue :
    (e : OpenClawEvent) (now : ℕ) (q : EventQueue)
    → (enqueue e now q).queue
      ≡ (if leb q.max_size (length q.queue) then shift q.queue else q.queue)
        ++ new_entry e now q.next_ref ∷ []
unfolding enqueue push_event
enqueue-queue e now q =
    let pushed = push_event e now q in
    ground
      (arith, persist_queue-queue pushed, persist_queue-queue (flush pushed), flush-queue pushed)

enqueue-limit :
    (e : OpenClawEvent) (now : ℕ) (q : EventQueue) → (enqueue e now q).max_size ≡ q.max_size
unfolding enqueue push_event
enqueue-limit e now q =
    let pushed = push_event e now q in
    ground (
      arith,
      persist_queue-queue pushed,
      persist_queue-queue (flush pushed),
      (flush-NoLonger pushed).1,
    )

-- Within the limit; a limit of 0 acts like 1.
abbrev pub IsBounded : EventQueue → Type 0
IsBounded q = length q.queue ≤ max 1 q.max_size

enqueue-IsBounded :
    (e : OpenClawEvent) (now : ℕ) (q : EventQueue) → IsBounded q → IsBounded (enqueue e now q)
enqueue-IsBounded e now q h = ground (
  arith,
  ap length (enqueue-queue e now q),
  enqueue-limit e now q,
  length-append q.queue (new_entry e now q.next_ref ∷ []),
  length-append (shift q.queue) (new_entry e now q.next_ref ∷ []),
  length-shift q.queue,
)

merge-IsBounded :
    (entries : List QueuedEvent) (q : EventQueue)
    → IsBounded q
    → IsBounded (merge_restored_queue entries q)
unfolding merge_restored_queue
merge-IsBounded [] q h = h
merge-IsBounded (r ∷ rs) q h =
    let all = q.queue ++ unknown_events q.queue (r ∷ rs) in
    ground (arith, length-drop (length all - q.max_size) all)

NoLonger-IsBounded : (p q : EventQueue) → NoLonger p q → IsBounded q → IsBounded p
NoLonger-IsBounded p q h b = rw (h.1) (omega (arith, h.0))

step-IsBounded : (c : Call) (q : EventQueue) → IsBounded q → IsBounded (step c q)
unfolding step
step-IsBounded (enqueues e now) q h = enqueue-IsBounded e now q h
step-IsBounded flushes q h = NoLonger-IsBounded (flush q) q (flush-NoLonger q) h
step-IsBounded (delivers k results) q h =
    NoLonger-IsBounded (deliver k results q) q (deliver-NoLonger k results q) h
step-IsBounded ends_flush q h = unfold end_flush in ground arith
step-IsBounded fires q h =
    unfold timer_fires in ground (arith, NoLonger-IsBounded (flush q) q (flush-NoLonger q) h)
step-IsBounded clears q h =
    unfold clear in ground (arith, persist_queue-queue (record q { queue = [] }))
step-IsBounded stops q h =
    unfold stop in ground (arith, persist_queue-queue (record q { flush_timer = false }))
step-IsBounded starts_timer q h = unfold start_flush_timer in h
step-IsBounded (restores entries) q h = merge-IsBounded entries q h
step-IsBounded (updates protocol webhooks) q h = unfold update_webhooks in h

-- Whatever happens to the queue, in any order and also between the `await`s of a flush, it never
-- holds more than `maxSize` entries, or one where `maxSize` is 0.
pub run-IsBounded : (cs : List Call) (q : EventQueue) → IsBounded q → IsBounded (run cs q)
unfolding run
run-IsBounded [] q h = h
run-IsBounded (c ∷ cs) q h = run-IsBounded cs (step c q) (step-IsBounded c q h)
