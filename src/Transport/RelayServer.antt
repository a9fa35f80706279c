-- ===== src/Transport/RelayServer.antt =====
-- transport/relay-server.ts: one connection to the owner's ingest server, from its first chunk to the
-- reply. The callbacks of the socket are functions on the connection; the event handler is awaited, so
-- its end is a call of its own. What JSON.parse makes of a line is a parameter, with no value where it
-- throws, and so are the messages of the errors that the platform throws. Opening, listening and closing
-- the server are calls of the platform.
pub mod Connections
pub mod Life
use Prim.Native.Char.{code}
use openclaw_event_server_pl.Common.{
  ℕ, ◌+◌, String, Bool, true, false, not, ◌&&◌, ◌||◌, Option, none, some, List, [], ◌∷◌, ◌++◌, ltb,
  nat_eq, ◌==◌, if◌then◌else◌, append, trim,
}
use openclaw_event_server_pl.Events.{Value, undefined, null, str, get_field, fields_of}
use openclaw_event_server_pl.Transport.Protocol.{is_open_claw_event}

-- `Buffer.byteLength(chunk, 'utf8')`.
unfoldable pub byte_length : String → ℕ
byte_length String.[] = 0
byte_length (String.◌∷◌ c s) =
    (if ltb (code c) 0x80
      then 1
      else if ltb (code c) 0x800
      then 2
      else if ltb (code c) 0x10000
      then 3
      else 4)
    + byte_length s

-- `buffer.includes('\n')`.
unfoldable pub has_line_end : String → Bool
has_line_end String.[] = false
has_line_end (String.◌∷◌ c s) = nat_eq (code c) 10 || has_line_end s

-- `text.split('\n')[0]`.
unfoldable pub up_to_line_end : String → String
up_to_line_end String.[] = ""
up_to_line_end (String.◌∷◌ c s) =
    let rest = up_to_line_end s in if nat_eq (code c) 10 then "" else String.◌∷◌ c rest

abbrev pub first_line : String → String
first_line buffer = up_to_line_end (trim buffer)

pub data Reply : Type 0 where
  ok : Reply
  refused : String → Reply

pub record Connection : Type 0 where
  pub buffer : String
  pub payload_bytes : ℕ
  pub handled : Bool
  -- The event whose handler is awaited.
  pub awaited : Option Value
  -- The events that were handed to the handler, oldest first.
  pub received : List Value
  -- What was written to the socket.
  pub replies : List Reply

abbrev pub fresh : Connection
fresh = record {
  buffer = "";
  payload_bytes = 0;
  handled = false;
  awaited = none;
  received = [];
  replies = [];
}

-- The settings of the server and what the platform answers.
pub record Server : Type 0 where
  pub max_payload_bytes : ℕ
  pub auth_token : Option String
  pub parse : String → Option Value
  pub parse_error : String → String
  pub access_error : String

unfoldable pub reply : Reply → Connection → Connection
reply r c = record c { replies = c.replies ++ r ∷ [] }

-- `envelope.authToken !== params.authToken`.
abbrev pub is_token : String → Value → Bool
is_token token (str s) = s == token
is_token token _ = false

-- A token that is set must be that of the envelope; an empty one counts as none.
abbrev pub is_authorized : Option String → Value → Bool
is_authorized none envelope = true
is_authorized (some token) envelope =
    token == "" || is_token token (get_field "authToken" (fields_of envelope))

-- Reading a property of null or undefined throws.
abbrev pub has_properties : Value → Bool
has_properties null = false
has_properties undefined = false
has_properties _ = true

unfoldable pub receive : Value → Connection → Connection
receive event c = record c { awaited = some event; received = c.received ++ event ∷ [] }

module _ (server : Server) where
  unfoldable pub process_envelope : Value → Connection → Connection
  unfolding reply receive
  process_envelope envelope c =
      if not (has_properties envelope)
      then reply (refused server.access_error) c
      else if not (is_authorized server.auth_token envelope)
      then reply (refused "invalid transport auth token") c
      else if not (is_open_claw_event (get_field "event" (fields_of envelope)))
      then reply (refused "invalid event payload") c
      else receive (get_field "event" (fields_of envelope)) c

  unfoldable pub process_incoming_envelope : Connection → Connection
  unfolding reply process_envelope
  process_incoming_envelope c =
      if first_line c.buffer == ""
      then reply (refused "empty payload") c
      else elim (server.parse (first_line c.buffer)) [
        | none ↦ reply (refused (server.parse_error (first_line c.buffer))) c
        | some envelope ↦ process_envelope envelope c
      ]

  unfoldable pub on_data : String → Connection → Connection
  unfolding reply process_incoming_envelope
  on_data chunk c =
      let counted = record c { payload_bytes = c.payload_bytes + byte_length chunk } in
      let read = record counted { buffer = append c.buffer chunk } in
      if c.handled
      then c
      else if ltb server.max_payload_bytes counted.payload_bytes
      then reply (refused "payload too large") (record counted { handled = true })
      else if not (has_line_end read.buffer)
      then read
      else process_incoming_envelope (record read { handled = true })

  unfoldable pub on_end : Connection → Connection
  unfolding process_incoming_envelope
  on_end c = if c.handled then c else process_incoming_envelope (record c { handled = true })

abbrev pub outcome : Option String → Reply
outcome none = ok
outcome (some message) = refused message

-- The handler of the event ends: none if it returns, and the message of its error otherwise.
unfoldable pub handler_ends : Option String → Connection → Connection
unfolding reply
handler_ends error c = elim c.awaited [
  | none ↦ c
  | some event ↦ reply (outcome error) (record c { awaited = none })
]
