-- ===== src/Broadcast/Queue/Races.antt =====
-- What can go wrong between the `await`s of a flush (broadcast/queue.ts): the indices are positions in
-- a queue that moves, and they are removed in the order of completion.
use openclaw_event_server_pl.Common.{ℕ, ◌≡◌, ◌≢◌, true, false, none, List, [], ◌∷◌, arith}
use openclaw_event_server_pl.Broadcast.Webhook.{DeliveryResult}
use openclaw_event_server_pl.Broadcast.Queue.{
  QueuedEvent, EventQueue, flush, deliver, enqueue, retries, new_entry,
}
use openclaw_event_server_pl.Events.{OpenClawEvent}

-- Three entries are in one batch. The first two are delivered, the second before the first, and the
-- third fails and is to be retried. Then the flush keeps the second entry, which was delivered, and
-- drops the third, which was not.
pub out_of_order_loses :
    (q : EventQueue) (a b c : QueuedEvent) (ra rb rc : List DeliveryResult)
    → q.progress ≡ none
    → q.queue ≡ a ∷ b ∷ c ∷ []
    → b.ref ≢ c.ref
    → retries q.max_attempts a ra ≡ false
    → retries q.max_attempts b rb ≡ false
    → retries q.max_attempts c rc ≡ true
    → (deliver 2 rc (deliver 0 ra (deliver 1 rb (flush q)))).queue ≡ b ∷ []
unfolding deliver flush
out_of_order_loses q a b c ra rb rc p e ne ha hb hc = ground arith

-- A queue of two entries is full while both are out for delivery. An event that is enqueued then
-- drops the first entry, and when both deliveries succeed, in order, the new event is removed too,
-- although it was in no batch: the queue is empty.
pub overflow_loses :
    (q : EventQueue) (a b : QueuedEvent) (e : OpenClawEvent) (now : ℕ) (ra rb : List DeliveryResult)
    → q.progress ≡ none
    → q.queue ≡ a ∷ b ∷ []
    → q.max_size ≡ 2
    → retries q.max_attempts a ra ≡ false
    → retries q.max_attempts b rb ≡ false
    → ((enqueue e now (flush q)).queue ≡ b ∷ new_entry e now q.next_ref ∷ [])
      × ((deliver 1 rb (deliver 0 ra (enqueue e now (flush q)))).queue ≡ [])
unfolding deliver flush enqueue
overflow_loses q a b e now ra rb p eq size ha hb = (ground arith, ground arith)
