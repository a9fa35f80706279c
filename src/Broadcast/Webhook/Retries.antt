-- ===== src/Broadcast/Webhook/Retries.antt =====
-- How often and how long sendToWebhook tries (broadcast/webhook.ts).
use openclaw_event_server_pl.Common.{
  ℕ, zero, suc, ◌+◌, ◌*◌, ◌≤◌, ◌<◌, min, max, String, true, false, ◌||◌, Option, none, some, ◌≡◌,
  ◌⊎◌, ◌≢◌, refl, arith, All, length, trim, ◌==◌, inl, inr,
}
use openclaw_event_server_pl.Broadcast.Webhook.{
  RetryConfig, WebhookConfig, Reply, responded, failed, Delivery, DeliveryResult, Verdict,
  delivered, fatal, transient, judge, attempt, wait_before, send_to_webhook,
}

-- What a verdict says of the reply: a status of 2xx is a success, one of 4xx but 429 ends the attempts,
-- and anything else is retried.
abbrev pub Means : Reply → Verdict → Type 0
Means (responded status m) (delivered code) = (code ≡ status) × (200 ≤ status) × (status < 300)
Means (responded status m) (fatal m' code) =
    (code ≡ status) × (m' ≡ m) × (400 ≤ status) × (status < 500) × (status ≢ 429)
Means (responded status m) (transient m' code) =
    (code ≡ some status)
    × (m' ≡ m)
    × ((status < 200) ⊎ (300 ≤ status))
    × ((status < 400) ⊎ ((500 ≤ status) ⊎ (status ≡ 429)))
Means (failed m) (transient m' code) = (m' ≡ m) × (code ≡ none)
Means (failed m) _ = ⊥

judge-Means : (reply : Reply) → Means reply (judge reply)
unfolding judge
judge-Means (responded status m) = ground arith
judge-Means (failed m) = (refl, refl)

abbrev pub IsRetried : Reply → Type 0
IsRetried reply = (m : String) × (c : Option ℕ) × (judge reply ≡ transient m c)

-- How the attempts from `first` on, of which `left` are allowed, lead to the result: all before the
-- last are retried, and the last is accepted, refused for good, or the last that is allowed.
pub record Outcome (http : ℕ → Reply) (first left : ℕ) (r : DeliveryResult) : Type 0 where
  pub retried : (k : ℕ) → first ≤ k → k < r.attempts → IsRetried (http k)
  pub within : r.attempts < first + left
  pub ended :
      ((code : ℕ) × (judge (http r.attempts) ≡ delivered code)
        × (r.success ≡ true)
        × (r.response_status ≡ some code))
      ⊎ (((m : String) × (code : ℕ) × (judge (http r.attempts) ≡ fatal m code)
            × (r.success ≡ false)
            × (r.error ≡ some m)
            × (r.response_status ≡ some code))
          ⊎ ((m : String) × (code : Option ℕ) × (judge (http r.attempts) ≡ transient m code)
              × (r.success ≡ false)
              × (r.error ≡ some m)
              × (r.response_status ≡ code)
              × (r.attempts + 1 ≡ first + left)))

verdict_cases :
    (v : Verdict)
    → ((code : ℕ) × (v ≡ delivered code))
      ⊎ (((m : String) × (code : ℕ) × (v ≡ fatal m code))
          ⊎ ((m : String) × (code : Option ℕ) × (v ≡ transient m code)))
verdict_cases (delivered code) = inl (code, refl)
verdict_cases (fatal m code) = inr (inl (m, code, refl))
verdict_cases (transient m code) = inr (inr (m, code, refl))

le_cases : (a b : ℕ) → a ≤ b → (a ≡ b) ⊎ (a + 1 ≤ b)
le_cases a b h = grind arith

-- One more attempt in front that is retried.
Outcome-step :
    (http : ℕ → Reply) (first left : ℕ) (r : DeliveryResult)
    → IsRetried (http first)
    → Outcome http (first + 1) left r
    → Outcome http first (suc left) r
Outcome-step http first left r h o = record {
  retried =
      λ k le lt. elim (le_cases first k le) [ inl e ↦ rw (← e) h | inr more ↦ o.retried k more lt ];
  within = omega (arith, o.within);
  ended = elim o.ended [
    | inl a ↦ inl a
    | inr (inl f) ↦ inr (inl f)
    | inr (inr (m, c, e, s, er, st, n)) ↦ inr (inr (m, c, e, s, er, st, omega (arith, n)))
  ];
}

-- The loop ends at its first attempt: nothing was retried before.
no_retries : (http : ℕ → Reply) (first k : ℕ) → first ≤ k → k < first → IsRetried (http k)
no_retries http first k le lt = absurd (omega arith)

module _ (retry : RetryConfig) (webhook : WebhookConfig) (http : ℕ → Reply) where
  attempt-Outcome :
      (left attempts delay_ms : ℕ) (error : Option String) (status : Option ℕ)
      → Outcome http
          (attempts + 1)
          (suc left)
          (attempt retry webhook http (suc left) attempts delay_ms error status).0
  unfolding attempt
  attempt-Outcome zero attempts d e s = elim (verdict_cases (judge (http (attempts + 1)))) [
    | inl (code, h) ↦
        rw (h, attempt)
          (record {
            retried = no_retries http (attempts + 1);
            within = omega arith;
            ended = inl (code, h, refl, refl);
          })
    | inr (inl (m, code, h)) ↦
        rw (h, attempt)
          (record {
            retried = no_retries http (attempts + 1);
            within = omega arith;
            ended = inr (inl (m, code, h, refl, refl, refl));
          })
    | inr (inr (m, code, h)) ↦
        rw (h, attempt)
          (record {
            retried = no_retries http (attempts + 1);
            within = omega arith;
            ended = inr (inr (m, code, h, refl, refl, refl, omega arith));
          })
  ]
  attempt-Outcome (suc l) attempts d e s = elim (verdict_cases (judge (http (attempts + 1)))) [
    | inl (code, h) ↦
        rw (h, attempt)
          (record {
            retried = no_retries http (attempts + 1);
            within = omega arith;
            ended = inl (code, h, refl, refl);
          })
    | inr (inl (m, code, h)) ↦
        rw (h, attempt)
          (record {
            retried = no_retries http (attempts + 1);
            within = omega arith;
            ended = inr (inl (m, code, h, refl, refl, refl));
          })
    | inr (inr (m, code, h)) ↦
        rw (h, attempt)
          (Outcome-step http (attempts + 1) (suc l) _ (m, code, h)
            (attempt-Outcome l (attempts + 1) _ (some m) code))
  ]

  -- A retried attempt is followed by a wait and the rest of the loop.
  attempt_again :
      (left attempts delay_ms : ℕ) (error : Option String) (status : Option ℕ) (m : String)
      (code : Option ℕ)
      → judge (http (attempts + 1)) ≡ transient m code
      → attempt retry webhook http (suc left) attempts delay_ms error status
        ≡ wait_before retry webhook http left delay_ms (
            attempt retry webhook http left
              (attempts + 1)
              (min (delay_ms * retry.backoff_multiplier) retry.max_delay_ms)
              (some m)
              code)
  unfolding attempt
  attempt_again left attempts d e s m code h = rw (h, attempt)

  abbrev Waits : ℕ → ℕ → Delivery → Type 0
  Waits bound attempts r = All (λ w. w ≤ bound) r.1 × (attempts + length r.1 < r.0.attempts)

  attempt_decided :
      (bound left attempts delay_ms : ℕ) (error : Option String) (status : Option ℕ)
      → ((m : String) (code : Option ℕ) → judge (http (attempts + 1)) ≢ transient m code)
      → Waits bound attempts (attempt retry webhook http (suc left) attempts delay_ms error status)
  unfolding attempt
  attempt_decided b left attempts d e s not_retried =
      elim (verdict_cases (judge (http (attempts + 1)))) [
        | inl (code, h) ↦ rw (h, attempt) (tt, omega arith)
        | inr (inl (m, code, h)) ↦ rw (h, attempt) (tt, omega arith)
        | inr (inr (m, code, h)) ↦ absurd (not_retried m code h)
      ]

  wait_before-Waits :
      (bound left attempts delay_ms : ℕ) (r : Delivery)
      → delay_ms ≤ bound
      → Waits bound (attempts + 1) r
      → Waits bound attempts (wait_before retry webhook http left delay_ms r)
  unfolding wait_before
  wait_before-Waits b zero attempts d r fits w = (w.0, omega (arith, w.1))
  wait_before-Waits b (suc l) attempts d r fits w = ((fits, w.0), omega (arith, w.1))

  attempt-Waits :
      (bound left attempts delay_ms : ℕ) (error : Option String) (status : Option ℕ)
      → retry.max_delay_ms ≤ bound
      → delay_ms ≤ bound
      → Waits bound attempts (attempt retry webhook http (suc left) attempts delay_ms error status)
  attempt-Waits b zero attempts d e s cap fits =
      elim (verdict_cases (judge (http (attempts + 1)))) [
        | inl (code, h) ↦ attempt_decided b zero attempts d e s (λ m c k. cc)
        | inr (inl (m, code, h)) ↦ attempt_decided b zero attempts d e s (λ m' c k. cc)
        | inr (inr (m, code, h)) ↦
            rw (attempt_again zero attempts d e s m code h)
              (unfold attempt wait_before in (tt, omega arith))
      ]
  attempt-Waits b (suc l) attempts d e s cap fits =
      elim (verdict_cases (judge (http (attempts + 1)))) [
        | inl (code, h) ↦ attempt_decided b (suc l) attempts d e s (λ m c k. cc)
        | inr (inl (m, code, h)) ↦ attempt_decided b (suc l) attempts d e s (λ m' c k. cc)
        | inr (inr (m, code, h)) ↦ rw (attempt_again (suc l) attempts d e s m code h) (
            wait_before-Waits b (suc l) attempts d _ fits
              (attempt-Waits b l (attempts + 1) _ (some m) code cap (omega arith)))
      ]

  -- With an http(s) URL that parses and at least one attempt allowed, the attempts are numbered from 1
  -- and are at most `maxAttempts`; all but the last met an error that is retried; the delivery
  -- succeeds exactly if the last was accepted, and otherwise reports its error and status. A reply is
  -- accepted only with a status of 2xx and refused for good only with one of 4xx but 429; every other
  -- reply is retried. No wait is longer than the larger of the initial and the maximal delay, and
  -- there are fewer waits than attempts.
  pub send_to_webhook-Outcome :
      (protocol : String → Option String) (scheme : String)
      → (trim webhook.url == "") ≡ false
      → protocol (trim webhook.url) ≡ some scheme
      → (scheme == "http:" || scheme == "https:") ≡ true
      → 0 < retry.max_attempts
      → let r = send_to_webhook retry webhook http protocol in
        Outcome http 1 retry.max_attempts r.0
        × All (λ w. w ≤ max retry.initial_delay_ms retry.max_delay_ms) r.1
        × (length r.1 < r.0.attempts)
        × ((reply : Reply) → Means reply (judge reply))
  unfolding send_to_webhook
  send_to_webhook-Outcome protocol scheme u p s pos =
      rw (u, p, send_to_webhook) (rw s (go (retry.max_attempts) pos))
    where
      go :
          (n : ℕ)
          → 0 < n
          → let r = attempt retry webhook http n 0 retry.initial_delay_ms none none in
            Outcome http 1 n r.0
            × All (λ w. w ≤ max retry.initial_delay_ms retry.max_delay_ms) r.1
            × (length r.1 < r.0.attempts)
            × ((reply : Reply) → Means reply (judge reply))
      go zero h = absurd (omega arith)
      go (suc n) h =
          let waits =
            attempt-Waits (max retry.initial_delay_ms retry.max_delay_ms) n 0 retry.initial_delay_ms
              none none (omega arith) (omega arith) in
          (attempt-Outcome n 0 _ none none, waits.0, omega (arith, waits.1), judge-Means)
