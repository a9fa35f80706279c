-- ===== src/Tests/TransportTests.antt =====
-- Tests and examples of the transport.
use openclaw_event_server_pl.Common.{
  String, List, true, false, none, some, [], ◌∷◌, ◌≡◌, refl, arith, trim, join, quote,
}
use openclaw_event_server_pl.Common.JsMap
use openclaw_event_server_pl.Events.{Value, obj, done, field, str, get_field}
use openclaw_event_server_pl.Transport.Protocol.{
  owner, follower, local, relay, transport_of, clone_event_with_transport_metadata,
  build_semantic_key,
}
use openclaw_event_server_pl.Transport.Dedupe.{
  no_events, prune_transport_dedupe_entries, should_process_transport_event, seen_after,
}
use openclaw_event_server_pl.Transport.Dedupe.Window.{IsSeen, duplicate_dropped, expired_processed}
use openclaw_event_server_pl.Transport.Lock.{LockFilePayload}
use openclaw_event_server_pl.Transport.RelayServer.{
  Server, Reply, ok, refused, fresh, byte_length, has_line_end, up_to_line_end,
}
use openclaw_event_server_pl.Transport.RelayServer.Connections.{IsConnection}
use openclaw_event_server_pl.Transport.RelayServer.Life.{
  Call, data_arrives, ends, handled, run, run-IsConnection,
}
use openclaw_event_server_pl.Tests.Data.{first_event, second_event, config}

semantic_key :
    build_semantic_key first_event
    ≡ some "tool.called|before_tool_call||call-1|||||{\"toolName\":\"exec\"}||"
unfolding build_semantic_key trim join quote
semantic_key = refl

no_semantic_key : build_semantic_key second_event ≡ none
unfolding build_semantic_key trim
no_semantic_key = refl

no_events-IsSeen : IsSeen no_events
no_events-IsSeen = record { ids = tt; keys = tt }

first_processed : (should_process_transport_event config 5 first_event no_events).0 ≡ true
unfolding should_process_transport_event prune_transport_dedupe_entries JsMap.get JsMap.retain
    build_semantic_key trim join quote
first_processed = refl

duplicate_dropped_example :
    (should_process_transport_event config 900 first_event (
      seen_after config
        ((20, second_event) ∷ [])
        (should_process_transport_event config 5 first_event no_events).1)).0
    ≡ false
duplicate_dropped_example =
    duplicate_dropped config 5 900 first_event first_event no_events ((20, second_event) ∷ [])
      no_events-IsSeen first_processed refl (omega arith) (omega arith)

expired_processed_example :
    (should_process_transport_event config 1020 first_event
      (seen_after config ((5, first_event) ∷ (20, second_event) ∷ []) no_events)).0
    ≡ true
expired_processed_example =
    expired_processed config 1020 first_event ((5, first_event) ∷ (20, second_event) ∷ [])
      (omega arith)

abbrev payload : LockFilePayload
payload = record { runtime_id = "r9"; pid = 7; updated_at = 100; socket_path = "/tmp/sock" }

-- An envelope with an event and a token; every line is read as this envelope.
abbrev envelope : Value
envelope = obj (
    field "authToken" (str "secret") (
      field "event"
        (obj (
          field "eventId" (str "e1") (
            field "type" (str "tool.called") (
              field "timestamp" (str "t")
                (field "pluginVersion" (str "1") (field "data" (obj done) done))))))
        done))

abbrev server_with : String → Server
server_with token = record {
  max_payload_bytes = 8;
  auth_token = some token;
  parse = λ line. some envelope;
  parse_error = λ line. "Unexpected token";
  access_error = "Cannot read properties of null";
}

abbrev calls : List Call
calls = data_arrives "{\"a" ∷ data_arrives "\"}\n" ∷ handled none ∷ ends ∷ []

relayed_once : (run (server_with "secret") calls fresh).replies ≡ ok ∷ []
unfolding run openclaw_event_server_pl.Transport.RelayServer.on_end
    openclaw_event_server_pl.Transport.RelayServer.handler_ends
    openclaw_event_server_pl.Transport.RelayServer.on_data byte_length has_line_end up_to_line_end
    trim get_field openclaw_event_server_pl.Events.fields_of
    openclaw_event_server_pl.Transport.Protocol.is_open_claw_event
relayed_once = refl

wrong_token :
    (run (server_with "other") calls fresh).replies ≡ refused "invalid transport auth token" ∷ []
unfolding run openclaw_event_server_pl.Transport.RelayServer.on_end
    openclaw_event_server_pl.Transport.RelayServer.handler_ends
    openclaw_event_server_pl.Transport.RelayServer.on_data byte_length has_line_end up_to_line_end
    trim get_field openclaw_event_server_pl.Events.fields_of
wrong_token = refl

too_large :
    (run (server_with "secret") (data_arrives "123456789" ∷ calls) fresh).replies
    ≡ refused "payload too large" ∷ []
unfolding run openclaw_event_server_pl.Transport.RelayServer.on_end
    openclaw_event_server_pl.Transport.RelayServer.handler_ends
    openclaw_event_server_pl.Transport.RelayServer.on_data byte_length
too_large = refl

run-IsConnection_example :
    IsConnection (server_with "secret") (run (server_with "secret") calls fresh)
run-IsConnection_example = run-IsConnection (server_with "secret") calls
