-- ===== src/Sessions/Keys.antt =====
-- hooks/session-tracker-helpers.ts: session keys, and which of them are strong.
use openclaw_event_server_pl.Common.{
  String, Bool, false, not, ◌&&◌, ◌||◌, Option, none, some, List, [], ◌∷◌, nat_eq, ◌==◌,
  if◌then◌else◌, is_some, get_elem?, length, trim, split, starts_with, add_all,
}

pub record ParsedSessionKey : Type 0 where
  pub raw : String
  pub agent_id : Option String
  pub provider : Option String
  pub surface : Option String
  pub account_id : Option String
  pub scope : Option String
  pub thread_kind : Option String
  pub thread_token : Option String
  pub is_thread_scoped : Bool

abbrev pub is_non_empty_string : Option String → Bool
is_non_empty_string none = false
is_non_empty_string (some value) = not (trim value == "")

-- The texts that are present and not blank, in their order.
unfoldable pub non_empty : List (Option String) → List String
non_empty [] = []
non_empty (none ∷ rest) = non_empty rest
non_empty (some v ∷ rest) =
    let more = non_empty rest in if is_non_empty_string (some v) then v ∷ more else more

unfoldable pub dedupe : List (Option String) → List String
unfolding non_empty
dedupe values = add_all (non_empty values) []

unfoldable pub looks_like_session_key : String → Bool
looks_like_session_key value = is_non_empty_string (some value) && starts_with "agent:" value

abbrev plain_key : String → ParsedSessionKey
plain_key raw = record {
  raw = raw;
  agent_id = none;
  provider = none;
  surface = none;
  account_id = none;
  scope = none;
  thread_kind = none;
  thread_token = none;
  is_thread_scoped = false;
}

abbrev is_text : String → Option String → Bool
is_text s none = false
is_text s (some t) = t == s

abbrev kind_of : Option String → Option String
kind_of scope = if is_text "thread" scope || is_text "topic" scope then scope else none

-- The segments of the key between its colons.
parse_segments : String → List String → ParsedSessionKey
parse_segments raw segments =
    if not (is_text "agent" (get_elem? segments 0)) || nat_eq (length segments) 1
    then plain_key raw
    else if nat_eq (length segments) 3
    then record (plain_key raw) { agent_id = get_elem? segments 1; scope = get_elem? segments 2 }
    else record {
      raw = raw;
      agent_id = get_elem? segments 1;
      provider = get_elem? segments 2;
      surface = get_elem? segments 3;
      account_id = get_elem? segments 4;
      scope = get_elem? segments 5;
      thread_kind = kind_of (get_elem? segments 5);
      thread_token = get_elem? segments 6;
      is_thread_scoped =
          is_some (kind_of (get_elem? segments 5)) && is_non_empty_string (get_elem? segments 6);
    }

-- A colon has the code 58.
unfoldable pub parse_session_key : Option String → Option ParsedSessionKey
unfolding parse_segments
parse_session_key none = none
parse_session_key (some key) =
    if is_non_empty_string (some key) then some (parse_segments key (split 58 key)) else none

unfoldable pub is_shared_runtime_session_key : String → Bool
unfolding parse_session_key
is_shared_runtime_session_key key = elim (parse_session_key (some key)) [
  | none ↦ false
  | some p ↦ is_text "main" p.scope && not (is_some p.provider)
]

unfoldable pub is_strong_session_key : String → Bool
unfolding is_shared_runtime_session_key
is_strong_session_key key =
    is_non_empty_string (some key) && not (is_shared_runtime_session_key key)
