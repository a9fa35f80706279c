-- ===== src/Transport/RelayServer/Life.antt =====
-- The life of a connection as a sequence of callbacks (transport/relay-server.ts).
use openclaw_event_server_pl.Common.{
  ℕ, ◌+◌, String, Bool, true, false, Option, none, some, List, [], ◌∷◌, append, length,
  length-append, arith, ◌≡◌, ◌⊎◌, inl, inr, refl, Bool-cases, Option-cases, sym, subst, ap,
}
use openclaw_event_server_pl.Events.{Value}
use openclaw_event_server_pl.Transport.RelayServer.{
  Connection, Server, fresh, on_data, on_end, handler_ends, process_incoming_envelope, byte_length,
  reply, refused, outcome,
}
use openclaw_event_server_pl.Transport.RelayServer.Connections.{
  count, IsConnection, IsNew, reply-IsConnection, process_incoming-IsConnection,
}

pub data Call : Type 0 where
  data_arrives : String → Call
  ends : Call
  handled : Option String → Call

handler_ends_idle :
    (error : Option String) (c : Connection) → c.awaited ≡ none → handler_ends error c ≡ c
unfolding handler_ends
handler_ends_idle error c h = ground arith

handler_ends_awaited :
    (error : Option String) (c : Connection) (event : Value)
    → c.awaited ≡ some event
    → handler_ends error c ≡ reply (outcome error) (record c { awaited = none })
unfolding handler_ends
handler_ends_awaited error c event h = ground arith

module _ (server : Server) where
  unfoldable pub step : Call → Connection → Connection
  step (data_arrives chunk) c = on_data server chunk c
  step ends c = on_end server c
  step (handled error) c = handler_ends error c

  unfoldable pub run : List Call → Connection → Connection
  unfolding step
  run [] c = c
  run (x ∷ xs) c = run xs (step x c)

  nothing_received : (vs : List Value) → length vs ≡ 0 → vs ≡ []
  nothing_received [] h = refl
  nothing_received (v ∷ vs) h = absurd (omega (arith, h))

  -- Marking a connection that is not handled.
  marked-IsNew :
      (c : Connection) (buffer : String) (bytes : ℕ)
      → IsConnection server c
      → c.handled ≡ false
      → IsNew server (record c { buffer = buffer; payload_bytes = bytes; handled = true })
  marked-IsNew c buffer bytes v h =
      let u = v.unhandled h in
      record { marked = refl; silent = u.0; idle = u.1; empty = nothing_received c.received u.2 }

  abbrev read : String → Connection → Bool → Connection
  read chunk c done = record c {
    buffer = append c.buffer chunk;
    payload_bytes = c.payload_bytes + byte_length chunk;
    handled = done;
  }

  data_cases :
      (chunk : String) (c : Connection)
      → c.handled ≡ false
      → (on_data server chunk c
          ≡ reply
              (refused "payload too large")
              (record c { payload_bytes = c.payload_bytes + byte_length chunk; handled = true }))
        ⊎ ((on_data server chunk c ≡ record c {
          buffer = append c.buffer chunk;
          payload_bytes = c.payload_bytes + byte_length chunk;
        })
            ⊎ (on_data server chunk c ≡ process_incoming_envelope server (read chunk c true)))
  unfolding on_data
  data_cases chunk c h = ground arith

  on_data-IsConnection :
      (chunk : String) (c : Connection)
      → IsConnection server c
      → IsConnection server (on_data server chunk c)
  unfolding on_data
  on_data-IsConnection chunk c v = elim (Bool-cases c.handled) [
    | inl over ↦ subst (IsConnection server) (ground arith) v
    | inr open_still ↦ elim (data_cases chunk c open_still) [
      | inl e ↦
          subst (IsConnection server) (sym e)
            (reply-IsConnection server _ _ (marked-IsNew c _ _ v open_still))
      | inr (inl e) ↦ subst (IsConnection server) (sym e) (record {
        unhandled = v.unhandled;
        answered = v.answered;
        once = v.once;
        admitted = v.admitted;
      })
      | inr (inr e) ↦
          subst (IsConnection server) (sym e)
            (process_incoming-IsConnection server _ (marked-IsNew c _ _ v open_still))
    ]
  ]

  on_end-IsConnection :
      (c : Connection) → IsConnection server c → IsConnection server (on_end server c)
  unfolding on_end
  on_end-IsConnection c v = elim (Bool-cases c.handled) [
    | inl over ↦ subst (IsConnection server) (ground arith) v
    | inr open_still ↦ subst (IsConnection server) (ground arith) (
        process_incoming-IsConnection server (record c { handled = true })
          (marked-IsNew c c.buffer c.payload_bytes v open_still))
  ]

  handler_ends-IsConnection :
      (error : Option String) (c : Connection)
      → IsConnection server c
      → IsConnection server (handler_ends error c)
  handler_ends-IsConnection error c v = elim (Option-cases c.awaited) [
    | inl idle ↦ subst (IsConnection server) (sym (handler_ends_idle error c idle)) v
    | inr (event, e) ↦
        let one : count c.awaited ≡ 1 = ap count e in
        rw (handler_ends_awaited error c event e) (
          unfold reply in
          record {
            unhandled = λ h. absurd (let n = (v.unhandled h).1 in omega (arith, n, one));
            answered = λ h.
                (let n = v.answered h in
                  omega (arith, n, one, length-append c.replies (outcome error ∷ [])));
            once = v.once;
            admitted = v.admitted;
          })
  ]

  step-IsConnection :
      (x : Call) (c : Connection) → IsConnection server c → IsConnection server (step x c)
  unfolding step
  step-IsConnection (data_arrives chunk) c v = on_data-IsConnection chunk c v
  step-IsConnection ends c v = on_end-IsConnection c v
  step-IsConnection (handled error) c v = handler_ends-IsConnection error c v

  fresh-IsConnection : IsConnection server fresh
  fresh-IsConnection = record {
    unhandled = λ h. (refl, refl, refl);
    answered = λ h. absurd cc;
    once = omega arith;
    admitted = tt;
  }

  kept-IsConnection :
      (xs : List Call) (c : Connection) → IsConnection server c → IsConnection server (run xs c)
  unfolding run
  kept-IsConnection [] c v = v
  kept-IsConnection (x ∷ xs) c v = kept-IsConnection xs (step x c) (step-IsConnection x c v)

  -- Whatever arrives on a connection, in any order: at most one event is handed to the handler, and
  -- only one that came with the right token, where one is set, in a line that parses, and has the form
  -- of an event; before the connection is handled nothing is answered, and afterwards it has exactly
  -- one reply, or an awaited handler whose end brings it.
  pub run-IsConnection : (xs : List Call) → IsConnection server (run xs fresh)
  run-IsConnection xs = kept-IsConnection xs fresh fresh-IsConnection
