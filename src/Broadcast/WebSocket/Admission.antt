-- ===== src/Broadcast/WebSocket/Admission.antt =====
-- Who may connect (`authorizeRequest` of broadcast/websocketServer.ts).
use openclaw_event_server_pl.Common.{
  String, true, false, Option, none, some, List, [], ◌∷◌, ◌==◌, arith, ◌≡◌, ◌≢◌, refl, ap, subst,
  get_or, sym, ◌∙◌, ◌⊎◌, inl, inr, eq_iff, Bool-cases, Option-cases, member, trim, trim-trim,
  starts_with,
}
use openclaw_event_server_pl.Broadcast.WebSocket.{
  Request, Access, allowed, given, is_listed, not_blank, bearer, extract_token, normalize_ip,
  check_token, authorize_request, drop_prefix,
}

-- The list is empty, or the text is there and is one of it.
abbrev pub IsListed : Option String → List String → Type 0
IsListed o listed = (listed ≡ []) ⊎ ((s : String) × (o ≡ some s) × (member s listed ≡ true))

-- The server has a token that is not blank, and the request brings it.
abbrev pub KnowsToken : Option String → Option String → Type 0
KnowsToken expected token =
    (secret : String) × (expected ≡ some secret)
    × (token ≡ some secret)
    × ((trim secret == "") ≡ false)

abbrev pub Admitted : Access → Request → Type 0
Admitted access request =
    IsListed (given request.origin) access.allowed_origins
    × IsListed (given (normalize_ip request.remote_address)) access.allowed_ips
    × ((access.require_auth ≡ false) ⊎ KnowsToken access.auth_token (extract_token request))

is_listed-IsListed :
    (o : Option String) (listed : List String) → is_listed o listed ≡ true → IsListed o listed
is_listed-IsListed o [] h = inl refl
is_listed-IsListed none (s ∷ rest) h = absurd (cc)
is_listed-IsListed (some s) (s' ∷ rest) h = inr (s, refl, h)

check_token-KnowsToken :
    (expected token : Option String)
    → check_token expected token ≡ allowed
    → KnowsToken expected token
unfolding check_token
check_token-KnowsToken none token h = absurd (cc)
check_token-KnowsToken (some expected) none h = elim (Bool-cases (trim expected == "")) [
  | inl blank ↦ absurd (let e = rw blank at h in cc)
  | inr filled ↦ absurd (let e = rw filled at h in cc)
]
check_token-KnowsToken (some expected) (some token) h = elim (Bool-cases (trim expected == "")) [
  | inl blank ↦ absurd (let e = rw blank at h in cc)
  | inr filled ↦ elim (Bool-cases (token == expected)) [
    | inl same ↦
        let e : token ≡ expected = ground (arith, eq_iff token expected) in
        (expected, refl, ap (λ (t : String). some t) e, filled)
    | inr other ↦ absurd (let e = rw (filled, other) at h in cc)
  ]
]

-- A connection that is accepted comes from a listed origin and a listed address, where lists are given, and
-- where a token is asked for, it brings the one of the server, which is not blank.
pub authorize_request-Admitted :
    (access : Access) (request : Request)
    → authorize_request access request ≡ allowed
    → Admitted access request
unfolding authorize_request
authorize_request-Admitted access request h =
    elim (Bool-cases (is_listed (given request.origin) access.allowed_origins)) [
      | inr missing ↦ absurd (let e = rw missing at h in cc)
      | inl origin ↦
          elim (Bool-cases
            (is_listed (given (normalize_ip request.remote_address)) access.allowed_ips)) [
              | inr missing ↦ absurd (let e = rw (origin, missing) at h in cc)
              | inl ip ↦ (
                is_listed-IsListed (given request.origin) access.allowed_origins origin,
                is_listed-IsListed (given (normalize_ip request.remote_address)) access.allowed_ips
                    ip,
                elim (Bool-cases access.require_auth) [
                  | inr free ↦ inl free
                  | inl asked ↦ inr (
                      check_token-KnowsToken access.auth_token (extract_token request)
                        (rw (origin, ip, asked) at h))
                ],
              )
            ]
    ]

trimmed : (s t : String) → some (trim s) ≡ some t → trim t ≡ t
trimmed s t e = subst (λ u. trim u ≡ u) (ap (λ o. get_or o "") e) (trim-trim s)

not_blank-trim : (o : Option String) (t : String) → not_blank o ≡ some t → trim t ≡ t
not_blank-trim none t h = absurd (cc)
not_blank-trim (some s) t h = elim (Bool-cases (trim s == "")) [
  | inl blank ↦ absurd (let e = rw blank at h in cc)
  | inr filled ↦ trimmed s t (rw filled at h)
]

bearer-trim :
    (header o : Option String) (t : String) → bearer header (not_blank o) ≡ some t → trim t ≡ t
unfolding bearer
bearer-trim none o t h = not_blank-trim o t h
bearer-trim (some header) o t h = elim (Bool-cases (starts_with "Bearer " header)) [
  | inl own ↦ trimmed (drop_prefix "Bearer " header) t (rw own at h)
  | inr otherwise ↦ not_blank-trim o t (rw otherwise at h)
]

-- The token of a request has no white space at its ends.
extract_token-trim : (request : Request) (t : String) → extract_token request ≡ some t → trim t ≡ t
unfolding extract_token
extract_token-trim request t h = elim (Option-cases (not_blank request.token_header)) [
  | inl none_there ↦
      bearer-trim request.authorization request.url_token t (rw (none_there, extract_token) at h)
  | inr (token, there) ↦
      not_blank-trim request.token_header t (there ∙ (rw (there, extract_token) at h))
]

-- A token of the server that has white space at an end admits no request at all.
pub padded_token_refused :
    (access : Access) (request : Request) (secret : String)
    → access.require_auth ≡ true
    → access.auth_token ≡ some secret
    → (trim secret == secret) ≡ false
    → authorize_request access request ≢ allowed
padded_token_refused access request secret asked configured padded h =
    let (origin, ip, token) = authorize_request-Admitted access request h in
    elim token [
      | inl free ↦ cc
      | inr known ↦
          let (own, its, brought, filled) = known in
          let same : own ≡ secret = ap (λ o. get_or o "") (sym its ∙ configured) in
          let e : trim secret ≡ secret =
            subst (λ u. trim u ≡ u) same (extract_token-trim request own brought) in
          ground (arith, eq_iff (trim secret) secret)
    ]
