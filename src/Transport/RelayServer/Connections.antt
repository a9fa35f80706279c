-- ===== src/Transport/RelayServer/Connections.antt =====
-- What a connection has done so far, and one incoming envelope (transport/relay-server.ts).
use openclaw_event_server_pl.Common.{
  ℕ, ◌+◌, ◌≤◌, String, true, false, Option, none, some, [], ◌∷◌, ◌==◌, length, All, length-append,
  arith, ◌≡◌, inl, inr, refl, Bool-cases, Option-cases,
}
use openclaw_event_server_pl.Events.{Value, get_field, fields_of}
use openclaw_event_server_pl.Transport.Protocol.{is_open_claw_event}
use openclaw_event_server_pl.Transport.RelayServer.{
  Connection, Server, Reply, process_incoming_envelope, process_envelope, is_authorized,
  has_properties, first_line, reply, receive,
}

abbrev pub count : Option Value → ℕ
count none = 0
count (some v) = 1

module _ (server : Server) where
  -- An event of a line that is authorized and has the form of an event.
  abbrev pub IsAdmitted : Value → Type 0
  IsAdmitted event =
      (line : String) × (envelope : Value) × (server.parse line ≡ some envelope)
      × (is_authorized server.auth_token envelope ≡ true)
      × (get_field "event" (fields_of envelope) ≡ event)
      × (is_open_claw_event event ≡ true)

  pub record IsConnection (c : Connection) : Type 0 where
    -- Nothing is answered or handed on before the connection is handled.
    pub unhandled :
        c.handled ≡ false → (length c.replies ≡ 0) × (count c.awaited ≡ 0) × (length c.received ≡ 0)
    -- Afterwards there is one reply, or a handler that will bring it.
    pub answered : c.handled ≡ true → length c.replies + count c.awaited ≡ 1
    pub once : length c.received ≤ 1
    pub admitted : All IsAdmitted c.received

  -- A connection that has just been marked as handled.
  pub record IsNew (c : Connection) : Type 0 where
    pub marked : c.handled ≡ true
    pub silent : length c.replies ≡ 0
    pub idle : count c.awaited ≡ 0
    pub empty : c.received ≡ []

  pub reply-IsConnection : (r : Reply) (c : Connection) → IsNew c → IsConnection (reply r c)
  unfolding reply
  reply-IsConnection r c n = record {
    unhandled = λ h. absurd (let m = n.marked in ground arith);
    answered = λ h. omega (arith, n.silent, n.idle, length-append c.replies (r ∷ []));
    once = rw n.empty (omega arith);
    admitted = rw n.empty tt;
  }

  receive-IsConnection :
      (event : Value) (c : Connection) → IsNew c → IsAdmitted event → IsConnection (receive event c)
  unfolding receive
  receive-IsConnection event c n a = record {
    unhandled = λ h. absurd (let m = n.marked in ground arith);
    answered = λ h. omega (arith, n.silent);
    once = rw n.empty (omega arith);
    admitted = rw n.empty (a, tt);
  }

  process_envelope-IsConnection :
      (line : String) (envelope : Value) (c : Connection)
      → server.parse line ≡ some envelope
      → IsNew c
      → IsConnection (process_envelope server envelope c)
  unfolding process_envelope
  process_envelope-IsConnection line envelope c p n = elim (Bool-cases (has_properties envelope)) [
    | inr bare ↦ rw (bare, process_envelope) (reply-IsConnection _ c n)
    | inl full ↦ elim (Bool-cases (is_authorized server.auth_token envelope)) [
      | inr foreign ↦ rw (full, foreign, process_envelope) (reply-IsConnection _ c n)
      | inl known ↦
          elim (Bool-cases (is_open_claw_event (get_field "event" (fields_of envelope)))) [
            | inr other ↦ rw (full, known, other, process_envelope) (reply-IsConnection _ c n)
            | inl event ↦
                rw (full, known, event, process_envelope)
                  (receive-IsConnection _ c n (line, envelope, p, known, refl, event))
          ]
    ]
  ]

  pub process_incoming-IsConnection :
      (c : Connection) → IsNew c → IsConnection (process_incoming_envelope server c)
  unfolding process_incoming_envelope
  process_incoming-IsConnection c n = elim (Bool-cases (first_line c.buffer == "")) [
    | inl empty ↦ rw (empty, process_incoming_envelope) (reply-IsConnection _ c n)
    | inr line ↦ elim (Option-cases (server.parse (first_line c.buffer))) [
      | inl bad ↦ rw (line, bad, process_incoming_envelope) (reply-IsConnection _ c n)
      | inr (envelope, p) ↦
          rw (line, p, process_incoming_envelope)
            (process_envelope-IsConnection (first_line c.buffer) envelope c p n)
    ]
  ]
