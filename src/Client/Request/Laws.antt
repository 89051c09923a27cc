-- ===== src/Client/Request/Laws.antt =====
-- client.ts: what every request sends, and when one ends the session.
use tidybridge.Base.{
  Str, js, Bool, true, false, ◌&&◌, ◌≡◌, refl, ◌⊎◌, inl, inr, Option, none, some, [], ◌∷◌, ◌++◌,
  arith, lookup, lookup-insert, str_eq_refl, truthy, or_else, if◌then◌else◌, str_eq, Bool-cases,
  ◌==◌,
}
use tidybridge.I18n.{Lang, t}
use tidybridge.Client.Errors.{Result, fail, api_error, extract_error_message, error_code, Detail}
use tidybridge.Client.Request.{
  Build, Options, HttpRequest, Response, Payload, Session, build_request, with_token, with_gate,
  request, settle, expire, payload_of, detail_of,
}

-- The call failed with a 401 and the message of an expired session.
abbrev pub IsExpired : {T : Type 0} → Lang → Result T → Type 0
IsExpired lang r =
    (code : Option Str) × (r
      ≡ fail (
          api_error
            (record { status = 401; message = t lang (js "err_sessionExpired") []; code = code })))

message_401 :
    (lang : Lang) (d : Detail)
    → extract_error_message lang 401 d ≡ t lang (js "err_sessionExpired") []
unfolding extract_error_message
message_401 lang d = refl

module _ {S T : Type 0} (cast : Payload → Result T) (auth : Bool) where
  -- Either the token and the address are as they were, or the request was a signed-in one that
  -- was answered with 401.
  settle-token :
      (answer : Option Response) (w : Session S)
      → (((settle cast auth answer w).1.token ≡ w.token)
          × ((settle cast auth answer w).1.assigned ≡ w.assigned))
        ⊎ (((settle cast auth answer w).1.token ≡ none)
            × ((settle cast auth answer w).1.assigned ≡ js "/login?expired=1" ∷ w.assigned)
            × (auth ≡ true)
            × IsExpired w.lang (settle cast auth answer w).0)
  unfolding settle expire
  settle-token none w = inl (refl, refl)
  settle-token (some r) w = elim (Bool-cases (r.status == 401)) [
    | inl unauthorised ↦ elim (Bool-cases (auth && truthy w.token)) [
      | inl signed_in ↦ inr (
        ground arith,
        ground arith,
        ground arith,
        (
          error_code (detail_of (payload_of r)),
          ground (arith, message_401 w.lang (detail_of (payload_of r))),
        ),
      )
      | inr signed_out ↦ inl (ground arith, ground arith)
    ]
    | inr other ↦ inl (ground arith, ground arith)
  ]

gate-ne-token : str_eq (js "X-Staging-Password") (js "Authorization") ≡ false
unfolding str_eq js
gate-ne-token = refl

token-ne-gate : str_eq (js "Authorization") (js "X-Staging-Password") ≡ false
unfolding str_eq js
token-ne-gate = refl

module _ (build : Build) (token : Option Str) (path : Str) (opts : Options)
    (free : lookup (js "Authorization") opts.headers ≡ none)
    (ungated : lookup (js "X-Staging-Password") opts.headers ≡ none) where
  -- Where the caller sets neither header, a request carries the bearer token exactly if the call is
  -- a signed-in one and a token is held, and the gate password exactly if the build has one.
  pub build_request-headers :
      (lookup (js "Authorization") (build_request build token path opts).headers
        ≡ (if opts.auth && truthy token then some (js "Bearer " ++ or_else token []) else none))
      × (lookup (js "X-Staging-Password") (build_request build token path opts).headers
          ≡ (if truthy build.gate_password then build.gate_password else none))
  unfolding build_request with_token with_gate
  build_request-headers =
      let bearer = js "Bearer " ++ or_else token [] in
      let gate = or_else build.gate_password [] in
      (
        ground (
          arith,
          lookup-insert (js "X-Staging-Password") (js "Authorization") gate
              (with_token build token opts.auth opts.headers),
          lookup-insert (js "Authorization") (js "Authorization") bearer opts.headers,
          gate-ne-token,
          str_eq_refl (js "Authorization"),
        ),
        ground (
          arith,
          lookup-insert (js "X-Staging-Password") (js "X-Staging-Password") gate
              (with_token build token opts.auth opts.headers),
          lookup-insert (js "Authorization") (js "X-Staging-Password") bearer opts.headers,
          token-ne-gate,
          str_eq_refl (js "X-Staging-Password"),
        ),
      )

-- The token after a request is the one before it, and so is the address; or the request was a
-- signed-in one answered with 401: then the token is gone, the address is the login page, and the
-- call fails with the message of an expired session.
pub request-token :
    {S T : Type 0} (build : Build) (serve : S → HttpRequest → Option Response × S)
    (cast : Payload → Result T) (path : Str) (opts : Options) (w : Session S)
    → (((request build serve cast path opts w).1.token ≡ w.token)
        × ((request build serve cast path opts w).1.assigned ≡ w.assigned))
      ⊎ (((request build serve cast path opts w).1.token ≡ none)
          × ((request build serve cast path opts w).1.assigned ≡ js "/login?expired=1" ∷ w.assigned)
          × (opts.auth ≡ true)
          × IsExpired w.lang (request build serve cast path opts w).0)
unfolding request
request-token build serve cast path opts w =
    let answer = serve w.server (build_request build w.token path opts) in
    settle-token cast opts.auth answer.0 (record w { server = answer.1 })

-- A request that is not a signed-in one leaves the token as it is.
pub unsigned_request-token :
    {S T : Type 0} (build : Build) (serve : S → HttpRequest → Option Response × S)
    (cast : Payload → Result T) (path : Str) (opts : Options) (w : Session S)
    → opts.auth ≡ false
    → (request build serve cast path opts w).1.token ≡ w.token
unsigned_request-token build serve cast path opts w unsigned =
    elim (request-token build serve cast path opts w) [
      | inl (same, _) ↦ same
      | inr (_, _, signed_in, _) ↦ absurd (ground (arith, signed_in, unsigned))
    ]
