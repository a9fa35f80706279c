-- ===== src/Broadcast/Queue.antt =====
-- broadcast/queue.ts: the bounded queue in front of the webhooks. A method is a function on the
-- queue's state; the time of a call is an argument. A flush waits for deliveries, so it is cut at its
-- `await`s: its progress is part of the state, and each delivery that ends is a step of its own.
-- An entry carries a reference, its identity as an object: a flush changes the entry that it holds,
-- wherever that stands in the queue by then.
pub mod Removal
pub mod Bounds
pub mod Races
use openclaw_event_server_pl.Common.{
  ℕ, zero, suc, ◌+◌, ◌-◌, ◌*◌, String, Bool, true, false, not, ◌&&◌, ◌||◌, Option, none, some, List,
  [], ◌∷◌, ◌++◌, map, ltb, leb, nat_eq, ◌==◌, if◌then◌else◌, is_some, trim, length, shift, take,
  drop, all, keep, get_elem?,
}
use openclaw_event_server_pl.Events.{
  Value, str, num, OpenClawEvent, get_field, fields_of, is_record, is_string, is_number,
}
use openclaw_event_server_pl.Broadcast.Webhook.{WebhookConfig, DeliveryResult}

pub record QueuedEvent : Type 0 where
  pub ref : ℕ
  pub event : OpenClawEvent
  pub enqueued_at : ℕ
  pub attempts : ℕ
  pub last_error : Option String

-- Where a flush stands: a batch is out, with the batch positions that are still awaited and the
-- indices to remove in the order in which they were pushed; or the final write is awaited.
pub data Progress : Type 0 where
  delivering : ℕ → List QueuedEvent → List ℕ → List ℕ → Progress
  persisting : Progress

pub record EventQueue : Type 0 where
  pub queue : List QueuedEvent
  pub max_size : ℕ
  pub persist_to_disk : Bool
  pub webhooks : List WebhookConfig
  pub max_attempts : ℕ
  pub flush_timer : Bool
  -- `isFlushing` is that there is progress.
  pub progress : Option Progress
  pub next_ref : ℕ
  -- The snapshots that were handed to the chain of writes, oldest first.
  pub snapshots : List (List QueuedEvent)

-- `isQueuedEvent`, of an entry that was read from disk.
unfoldable pub is_queued_event : Value → Bool
is_queued_event value =
    is_record value
    && is_number (get_field "enqueuedAt" (fields_of value))
    && is_number (get_field "attempts" (fields_of value))
    && is_record (get_field "event" (fields_of value))
    && is_string (get_field "eventId" (fields_of (get_field "event" (fields_of value))))
    && is_string (get_field "type" (fields_of (get_field "event" (fields_of value))))
    && is_string (get_field "timestamp" (fields_of (get_field "event" (fields_of value))))

unfoldable pub persist_queue : EventQueue → EventQueue
persist_queue q =
    if q.persist_to_disk then record q { snapshots = q.snapshots ++ q.queue ∷ [] } else q

-- `this.queue.splice(index, 1)`.
unfoldable pub splice : ℕ → List QueuedEvent → List QueuedEvent
splice i [] = []
splice zero (x ∷ xs) = xs
splice (suc i) (x ∷ xs) = x ∷ splice i xs

-- The loop over `indicesToRemove` from its last entry to its first.
unfoldable pub remove_indices : List ℕ → List QueuedEvent → List QueuedEvent
unfolding splice
remove_indices [] xs = xs
remove_indices (i ∷ is) xs = splice i (remove_indices is xs)

-- The positions of a batch: `first`, `first + 1`, …, one for each entry.
unfoldable pub positions : ℕ → List QueuedEvent → List ℕ
positions first [] = []
positions first (x ∷ xs) = first ∷ positions (suc first) xs

-- All batches are done: the delivered entries leave the queue, and the write is awaited.
unfoldable pub finish_flush : List ℕ → EventQueue → EventQueue
unfolding persist_queue remove_indices
finish_flush indices q =
    record (persist_queue (record q { queue = remove_indices indices q.queue })) {
      progress = some persisting;
    }

-- The head of the `for` loop: the batch at `base`, or the end.
unfoldable pub next_batch : ℕ → List ℕ → EventQueue → EventQueue
unfolding finish_flush positions
next_batch base indices q =
    if ltb base (length q.queue)
    then record q {
      progress = some (
          delivering base (take 10 (drop base q.queue)) (positions 0 (take 10 (drop base q.queue)))
            indices);
    }
    else finish_flush indices q

abbrev pub is_flushing : EventQueue → Bool
is_flushing q = is_some q.progress

-- `flush()` up to its first `await`.
unfoldable pub flush : EventQueue → EventQueue
unfolding next_batch
flush q = if is_flushing q || nat_eq (length q.queue) 0 then q else next_batch 0 [] q

-- `deliveryResults.length > 0 && deliveryResults.every(r => !r.success)`.
abbrev pub all_failed : List DeliveryResult → Bool
all_failed [] = false
all_failed (r ∷ rs) = all (λ d. not d.success) (r ∷ rs)

abbrev first_error : List DeliveryResult → Option String
first_error [] = none
first_error (r ∷ rs) = r.error

-- The entry is kept for a later flush.
abbrev pub retries : ℕ → QueuedEvent → List DeliveryResult → Bool
retries max_attempts x results = all_failed results && ltb x.attempts max_attempts

-- `queuedEvent.attempts++` and the new `lastError`, on the object `ref`.
unfoldable pub mark_failed : ℕ → Option String → List QueuedEvent → List QueuedEvent
mark_failed ref error [] = []
mark_failed ref error (x ∷ xs) =
    (if nat_eq x.ref ref then record x { attempts = x.attempts + 1; last_error = error } else x)
    ∷ mark_failed ref error xs

-- The batch position `k` is no longer awaited.
unfoldable pub settle : ℕ → List ℕ → List ℕ
settle k [] = []
settle k (j ∷ js) = if nat_eq j k then js else j ∷ settle k js

-- After a delivery: wait on, or go to the next batch when none is awaited.
await_batch : ℕ → List QueuedEvent → List ℕ → List ℕ → EventQueue → EventQueue
unfolding next_batch
await_batch base batch [] indices q = next_batch (base + 10) indices q
await_batch base batch (j ∷ js) indices q = record q {
  progress = some (delivering base batch (j ∷ js) indices);
}

-- The continuation of `broadcastToWebhooks` for the entry at batch position `k`.
settle_delivery :
    ℕ
    → List QueuedEvent
    → List ℕ
    → List ℕ
    → ℕ
    → QueuedEvent
    → List DeliveryResult
    → EventQueue
    → EventQueue
unfolding await_batch mark_failed settle
settle_delivery base batch waiting indices k x results q =
    if retries q.max_attempts x results
    then await_batch base batch (settle k waiting) indices
        (record q { queue = mark_failed x.ref (first_error results) q.queue })
    else await_batch base batch (settle k waiting) (indices ++ (base + k) ∷ []) q

abbrev is_awaited : ℕ → List ℕ → Bool
is_awaited k [] = false
is_awaited k (j ∷ js) = if nat_eq j k then true else is_awaited k js

-- A delivery that ends; nothing happens at a position that is not awaited.
unfoldable pub deliver : ℕ → List DeliveryResult → EventQueue → EventQueue
unfolding settle_delivery
deliver k results q = elim q.progress [
  | none ↦ q
  | some persisting ↦ q
  | some (delivering base batch waiting indices) ↦ elim (get_elem? batch k) [
    | none ↦ q
    | some x ↦
        if is_awaited k waiting then settle_delivery base batch waiting indices k x results q else q
  ]
]

-- The awaited write has ended: `finally` resets `isFlushing`.
unfoldable pub end_flush : EventQueue → EventQueue
end_flush q = elim q.progress [ some persisting ↦ record q { progress = none } | _ ↦ q ]

abbrev pub new_entry : OpenClawEvent → ℕ → ℕ → QueuedEvent
new_entry e now ref = record {
  ref = ref;
  event = e;
  enqueued_at = now;
  attempts = 0;
  last_error = none;
}

-- The oldest entry makes room when the queue is full.
unfoldable pub push_event : OpenClawEvent → ℕ → EventQueue → EventQueue
push_event e now q = record q {
  queue =
      (if leb q.max_size (length q.queue) then shift q.queue else q.queue)
      ++ new_entry e now q.next_ref ∷ [];
  next_ref = suc q.next_ref;
}

-- `queue.length >= maxSize * 0.8` without the fraction.
unfoldable pub enqueue : OpenClawEvent → ℕ → EventQueue → EventQueue
unfolding push_event flush persist_queue
enqueue e now q =
    let pushed = push_event e now q in
    persist_queue
      (if leb (pushed.max_size * 4) (length pushed.queue * 5) then flush pushed else pushed)

pub record Stats : Type 0 where
  pub size : ℕ
  pub max_size : ℕ
  pub oldest_event_age : ℕ
  pub is_flushing_now : Bool

unfoldable pub get_stats : ℕ → EventQueue → Stats
get_stats now q = record {
  size = length q.queue;
  max_size = q.max_size;
  oldest_event_age = elim q.queue [ [] ↦ 0 | x ∷ xs ↦ now - x.enqueued_at ];
  is_flushing_now = is_flushing q;
}

unfoldable pub clear : EventQueue → EventQueue
unfolding persist_queue
clear q = persist_queue (record q { queue = [] })

-- `protocol` is the URL parser: none where it throws.
abbrev is_valid_webhook : (String → Option String) → WebhookConfig → Bool
is_valid_webhook protocol w = if trim w.url == "" then false else elim (protocol w.url) [
  | none ↦ false
  | some scheme ↦ scheme == "http:" || scheme == "https:"
]

unfoldable pub update_webhooks :
    (String → Option String) → List WebhookConfig → EventQueue → EventQueue
update_webhooks protocol webhooks q = record q {
  webhooks = keep (is_valid_webhook protocol) webhooks;
}

unfoldable pub timer_fires : EventQueue → EventQueue
unfolding flush
timer_fires q =
    if q.flush_timer && not (is_flushing q) && not (nat_eq (length q.queue) 0) then flush q else q

unfoldable pub stop : EventQueue → EventQueue
unfolding persist_queue
stop q = persist_queue (record q { flush_timer = false })

unfoldable pub start_flush_timer : EventQueue → EventQueue
start_flush_timer q = record q { flush_timer = true }

abbrev pub has_event : String → List QueuedEvent → Bool
has_event id [] = false
has_event id (x ∷ xs) = if x.event.event_id == id then true else has_event id xs

-- The restored entries whose id the queue did not hold before, which is what the set of ids records.
abbrev pub unknown_events : List QueuedEvent → List QueuedEvent → List QueuedEvent
unknown_events existing restored = keep (λ x. not (has_event x.event.event_id existing)) restored

-- The newest `maxSize` positions.
abbrev pub last_of : ℕ → List QueuedEvent → List QueuedEvent
last_of n xs = if ltb n (length xs) then drop (length xs - n) xs else xs

unfoldable pub merge_restored_queue : List QueuedEvent → EventQueue → EventQueue
merge_restored_queue [] q = q
merge_restored_queue (r ∷ rs) q = record q {
  queue = last_of q.max_size (q.queue ++ unknown_events q.queue (r ∷ rs));
}
