-- ===== src/Transport/Protocol.antt =====
-- transport/protocol.ts: the check of a relayed event, the semantic key, and the transport metadata
-- that each hop adds. The process id and the host name are parameters.
pub mod Metadata
use openclaw_event_server_pl.Common.{
  ℕ, String, Bool, true, false, not, ◌&&◌, List, [], ◌∷◌, ◌++◌, Option, none, some, get_or, ◌==◌,
  if◌then◌else◌, append, trim, join, show_nat, quote, text_le,
}
use openclaw_event_server_pl.Events.{
  Value, Items, Fields, undefined, null, bool, num, str, arr, obj, nil, cons, done, field,
  get_field, set_field, is_record, fields_of, coalesce, is_string, OpenClawEvent,
}

pub data TransportRole : Type 0 where
  owner follower : TransportRole

pub data Route : Type 0 where
  local relay : Route

pub record Host : Type 0 where
  pub pid : ℕ
  pub hostname : String

unfoldable pub is_open_claw_event : Value → Bool
is_open_claw_event value =
    is_record value
    && is_string (get_field "eventId" (fields_of value))
    && is_string (get_field "type" (fields_of value))
    && is_string (get_field "timestamp" (fields_of value))
    && is_string (get_field "pluginVersion" (fields_of value))
    && is_record (get_field "data" (fields_of value))

-- `entries.sort()` on the printed members, by their keys.
insert_entry : String × String → List (String × String) → List (String × String)
insert_entry (k, s) [] = (k, s) ∷ []
insert_entry (k, s) ((j, t) ∷ rest) =
    if text_le k j then (k, s) ∷ (j, t) ∷ rest else (j, t) ∷ insert_entry (k, s) rest

unfoldable pub sort_entries : List (String × String) → List (String × String)
unfolding insert_entry
sort_entries [] = []
sort_entries (e ∷ es) = insert_entry e (sort_entries es)

-- `${JSON.stringify(key)}:${stableStringify(value[key])}`.
print_entry : String × String → String
print_entry (k, s) = append (quote k) (append ":" s)

abbrev print_entries : List (String × String) → List String
unfolding print_entry
print_entries [] = []
print_entries (e ∷ es) = print_entry e ∷ print_entries es

unfoldable mutual
  unfolding print_entries sort_entries print_entry insert_entry

  -- `undefined` has no JSON form; a template prints it by its name, `join` as the empty text.
  pub stable_stringify : Value → Option String
  stable_stringify undefined = none
  stable_stringify null = some "null"
  stable_stringify (bool true) = some "true"
  stable_stringify (bool false) = some "false"
  stable_stringify (num n) = some (show_nat n)
  stable_stringify (str s) = some (quote s)
  stable_stringify (arr vs) = some (append "[" (append (join "," (stable_items vs)) "]"))
  stable_stringify (obj fs) =
      some (append "{" (append (join "," (print_entries (sort_entries (stable_fields fs)))) "}"))

  pub stable_items : Items → List String
  stable_items nil = []
  stable_items (cons v vs) = get_or (stable_stringify v) "" ∷ stable_items vs

  pub stable_fields : Fields → List (String × String)
  stable_fields done = []
  stable_fields (field k v fs) = (k, get_or (stable_stringify v) "undefined") ∷ stable_fields fs

-- `typeof value === 'string' && value.trim() !== ''`.
abbrev pub is_meaningful : Option String → Bool
is_meaningful none = false
is_meaningful (some s) = not (trim s == "")

abbrev pub has_meaningful : List (Option String) → Bool
has_meaningful [] = false
has_meaningful (o ∷ os) = if is_meaningful o then true else has_meaningful os

-- The empty text stands for `undefined`, as at both call sites, which test it for truth.
unfoldable pub build_semantic_key : OpenClawEvent → Option String
unfolding stable_stringify
build_semantic_key e =
    if has_meaningful (
      e.correlation_id ∷ e.tool_call_id ∷ e.run_id ∷ e.session_id ∷ e.session_key ∷ e.agent_id ∷ [])
    then some (
        join "|" (
          e.type
          ∷ get_or e.event_name ""
          ∷ get_or e.correlation_id ""
          ∷ get_or e.tool_call_id ""
          ∷ get_or e.run_id ""
          ∷ get_or e.session_id ""
          ∷ get_or e.session_key ""
          ∷ get_or e.agent_id ""
          ∷ get_or (stable_stringify e.event_data) ""
          ∷ get_or (stable_stringify e.error) ""
          ∷ get_or (stable_stringify e.result) ""
          ∷ []))
    else none

abbrev pub role_name : TransportRole → String
role_name owner = "owner"
role_name follower = "follower"

abbrev pub route_name : Route → String
route_name local = "local"
route_name relay = "relay"

-- The fields that `event.metadata.transport` holds, none where it is no record.
unfoldable pub transport_of : OpenClawEvent → Fields
transport_of e = fields_of (get_field "transport" (fields_of e.metadata))

-- `...(ownerRuntimeId ? { ownerRuntimeId } : {})`.
abbrev with_owner : Option String → Fields → Fields
with_owner none fs = fs
with_owner (some id) fs = if id == "" then fs else set_field "ownerRuntimeId" (str id) fs

transport_fields : Host → String → TransportRole → Route → Option String → Fields → Fields
transport_fields host runtime_id role route owner_id old = with_owner owner_id (
    set_field "route" (str (route_name route)) (
      set_field "emittedByRole" (coalesce (get_field "emittedByRole" old) (str (role_name role))) (
        set_field "hostname" (coalesce (get_field "hostname" old) (str host.hostname)) (
          set_field "pid" (coalesce (get_field "pid" old) (num host.pid))
            (set_field "runtimeId" (coalesce (get_field "runtimeId" old) (str runtime_id)) old)))))

unfoldable pub clone_event_with_transport_metadata :
    Host → String → TransportRole → Route → Option String → OpenClawEvent → OpenClawEvent
unfolding transport_fields transport_of
clone_event_with_transport_metadata host runtime_id role route owner_id e = record e {
  metadata = obj (
      set_field "transport"
        (obj (transport_fields host runtime_id role route owner_id (transport_of e)))
        (fields_of e.metadata));
}
