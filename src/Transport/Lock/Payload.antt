-- ===== src/Transport/Lock/Payload.antt =====
-- The lock file's payload as an object, and its check (transport/lock.ts).
use openclaw_event_server_pl.Common.{◌≡◌, refl, some}
use openclaw_event_server_pl.Events.{get_field, fields_of}
use openclaw_event_server_pl.Transport.Lock.{LockFilePayload, payload_value, parse_lock_payload}

-- The object of a payload passes the check and gives the payload.
pub parse_lock_payload-payload_value :
    (p : LockFilePayload) → parse_lock_payload (some (payload_value p)) ≡ some p
unfolding parse_lock_payload payload_value get_field fields_of
parse_lock_payload-payload_value p = refl
