-- ===== src/Transport/Protocol/Metadata.antt =====
-- What the hops of an event leave of its transport metadata (transport/protocol.ts).
use openclaw_event_server_pl.Common.{
  ℕ, String, Option, none, some, ◌≡◌, refl, arith, ◌==◌, eq_iff, false,
}
use openclaw_event_server_pl.Events.{
  Value, Fields, num, str, get_field, get_field-set_field, fields_of, coalesce, OpenClawEvent,
}
use openclaw_event_server_pl.Transport.Protocol.{
  TransportRole, Route, Host, role_name, route_name, transport_of, with_owner, transport_fields,
  clone_event_with_transport_metadata,
}

-- The transport fields of a clone are those that were built for it.
transport_of-clone :
    (host : Host) (id : String) (role : TransportRole) (route : Route) (owner_id : Option String)
    (e : OpenClawEvent)
    → transport_of (clone_event_with_transport_metadata host id role route owner_id e)
      ≡ transport_fields host id role route owner_id (transport_of e)
unfolding clone_event_with_transport_metadata transport_of fields_of
transport_of-clone host id role route owner_id e = rw get_field-set_field

with_owner-get :
    (owner_id : Option String) (k : String) (fs : Fields)
    → (k == "ownerRuntimeId") ≡ false
    → get_field k (with_owner owner_id fs) ≡ get_field k fs
with_owner-get none k fs h = refl
with_owner-get (some id) k fs h = ground (
  arith,
  get_field-set_field "ownerRuntimeId" k (str id) fs,
  eq_iff "ownerRuntimeId" k,
  eq_iff k "ownerRuntimeId",
)

module _ (host : Host) (id : String) (role : TransportRole) (route : Route)
    (owner_id : Option String) (old : Fields) where
  abbrev new_fields : Fields
  new_fields = transport_fields host id role route owner_id old

  runtime_id-new : get_field "runtimeId" new_fields ≡ coalesce (get_field "runtimeId" old) (str id)
  unfolding transport_fields
  runtime_id-new = rw (with_owner-get owner_id "runtimeId" _ refl) (simp get_field-set_field)

  pid-new : get_field "pid" new_fields ≡ coalesce (get_field "pid" old) (num host.pid)
  unfolding transport_fields
  pid-new = rw (with_owner-get owner_id "pid" _ refl) (simp get_field-set_field)

  hostname-new :
      get_field "hostname" new_fields ≡ coalesce (get_field "hostname" old) (str host.hostname)
  unfolding transport_fields
  hostname-new = rw (with_owner-get owner_id "hostname" _ refl) (simp get_field-set_field)

  emitted_by_role-new :
      get_field "emittedByRole" new_fields
      ≡ coalesce (get_field "emittedByRole" old) (str (role_name role))
  unfolding transport_fields
  emitted_by_role-new =
      rw (with_owner-get owner_id "emittedByRole" _ refl) (simp get_field-set_field)

  route-new : get_field "route" new_fields ≡ str (route_name route)
  unfolding transport_fields
  route-new = rw (with_owner-get owner_id "route" _ refl) (simp get_field-set_field)

coalesce-str : (v w : Value) (s : String) → coalesce (coalesce v (str s)) w ≡ coalesce v (str s)
coalesce-str v w s = ground arith

coalesce-num : (v w : Value) (n : ℕ) → coalesce (coalesce v (num n)) w ≡ coalesce v (num n)
coalesce-num v w n = ground arith

ruleset hops = (transport_of-clone, coalesce-str, coalesce-num)

-- The identity of the runtime that emitted an event.
abbrev pub SameEmitter : Fields → Fields → Type 0
SameEmitter fs gs =
    (get_field "runtimeId" fs ≡ get_field "runtimeId" gs)
    × (get_field "pid" fs ≡ get_field "pid" gs)
    × (get_field "hostname" fs ≡ get_field "hostname" gs)
    × (get_field "emittedByRole" fs ≡ get_field "emittedByRole" gs)

-- A second hop keeps the emitter's runtime id, process id, host name and role as the first hop left
-- them, whatever its own are; it states its own route, and changes nothing of the event but the
-- metadata.
pub clone_keeps_emitter :
    (host host' : Host) (id id' : String) (role role' : TransportRole) (route route' : Route)
    (owner_id owner_id' : Option String) (e : OpenClawEvent)
    → let once = clone_event_with_transport_metadata host id role route owner_id e in
      let twice = clone_event_with_transport_metadata host' id' role' route' owner_id' once in
      SameEmitter (transport_of twice) (transport_of once)
      × (get_field "route" (transport_of twice) ≡ str (route_name route'))
      × (record twice { metadata = e.metadata } ≡ e)
clone_keeps_emitter host host' id id' role role' route route' owner_id owner_id' e = (
  (
    simp (hops, runtime_id-new),
    simp (hops, pid-new),
    simp (hops, hostname-new),
    simp (hops, emitted_by_role-new),
  ),
  simp (hops, route-new),
  unfold clone_event_with_transport_metadata in refl,
)
