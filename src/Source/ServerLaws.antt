-- ===== src/Source/ServerLaws.antt =====
-- When the client sends its token, and what of a response it uses.
use aliasdeck.Prelude.{
  ℕ, zero, suc, ◌+◌, ◌≤◌, ◌<◌, ◌≡◌, refl, sym, ap, ◌∙◌, inl, inr, Bool, false, ◌||◌, [], ◌∷◌, some,
  length, take, or_parts, Bool-cases, Option-cases, ltb, leb, ◌==◌, arith,
}
use aliasdeck.Prelude.{ok, err, Result-cases, ltb-false}
use mathlib.Core.Path.{subst}
use aliasdeck.Text.{Bytes, codes}
use aliasdeck.Domain.Alias.{Device}
use aliasdeck.Domain.Resolved.{ResolvedConfig}
use aliasdeck.Source.Url.{Net, Url, UrlError, IsSafe, validate_server_url, validate_server_url_iff}
use aliasdeck.Source.Wire.{ServerSyncResponse, to_resolved_config}
use aliasdeck.Source.Server.{
  server_response_limit, ServerSource, Request, Response, Http, refused_url, read_response,
  bearer_request, exchange, decode_body, fetch_sync, accept, resolve_unfiltered, filtered,
  server_resolve, heartbeat,
}

validate_server_url-refused :
    {Ip : Type 0} (net : Net Ip) (raw : Bytes) (allow_http : Bool)
    → ((u : Url) → net.parse_url raw ≡ some u → ¬ IsSafe net allow_http u)
    → (e : UrlError) × (validate_server_url net raw allow_http ≡ some e)
validate_server_url-refused net raw allow_http h =
    elim (Option-cases (validate_server_url net raw allow_http)) [
      | inr (e, k) ↦ (e, k)
      | inl k ↦ let (u, p, s) = (validate_server_url_iff net raw allow_http).0 k in absurd (h u p s)
    ]

-- With a URL that is not https, nor http to this machine, nor http with the user's leave, neither a sync
-- nor a heartbeat sends anything: both report the URL, and nothing has changed.
pub insecure_url_sends_nothing :
    {W Ip : Type 0} (hash : Bytes → Bytes) (lower : ℕ → ℕ) (net : Net Ip) (http : Http W)
    (s : ServerSource) (dev : Device) (w : W)
    → ((u : Url) → net.parse_url s.url ≡ some u → ¬ IsSafe net s.allow_http u)
    → (e : UrlError) × (server_resolve hash lower net http s dev w ≡ (err (refused_url e), w))
      × (heartbeat net http s w ≡ (some (refused_url e), w))
unfolding server_resolve resolve_unfiltered filtered heartbeat
insecure_url_sends_nothing hash lower net http s dev w h =
    let (e, k) = validate_server_url-refused net s.url s.allow_http h in
    (e, rw (server_resolve, resolve_unfiltered, k) refl, rw (heartbeat, k) refl)

-- A body that is used: of a successful response, and within the limit.
abbrev pub IsUsable : Response → Bytes → Type 0
IsUsable resp body =
    (resp.body ≡ some body)
    × (length body ≤ server_response_limit)
    × (200 ≤ resp.status)
    × (resp.status < 300)

take_short : (n : ℕ) (xs : Bytes) → length (take n xs) < n → take n xs ≡ xs
take_short zero xs h = absurd (omega arith)
take_short (suc n) [] h = refl
take_short (suc n) (x ∷ xs) h = ap (λ ys. x ∷ ys) (take_short n xs (omega arith))

ltb_of_le : (a b : ℕ) → a ≤ b → ltb b a ≡ false
ltb_of_le a b h = ground arith

read_response-IsUsable :
    {W : Type 0} (http : Http W) (resp : Response) (body : Bytes)
    → read_response http resp ≡ ok body
    → IsUsable resp body
unfolding read_response
read_response-IsUsable http resp body h = elim (Option-cases resp.body) [
  | inl e ↦ ground (arith, e)
  | inr (whole, e) ↦
      let b = take (server_response_limit + 1) whole in
      elim (Bool-cases (ltb server_response_limit (length b))) [
        | inl f ↦ ground (arith, e, f)
        | inr f ↦ elim (Bool-cases (resp.status == 401)) [
          | inl g ↦ ground (arith, e, f, g)
          | inr g ↦ elim (Bool-cases (ltb resp.status 200 || leb 300 resp.status)) [
            | inl k ↦ ground (arith, e, f, g, k)
            | inr k ↦
                let fits : length b ≤ server_response_limit =
                  ltb-false server_response_limit (length b) f in
                let it : b ≡ body = ground (arith, e, f, g, k) in
                let all_of_it =
                  take_short (server_response_limit + 1) whole (omega (arith, fits)) in
                let (low, high) = (or_parts (ltb resp.status 200) (leb 300 resp.status)).0 k in
                (
                  e ∙ ap some (sym all_of_it ∙ it),
                  subst (λ u. length u ≤ server_response_limit) it fits,
                  ground (arith, low),
                  ground (arith, high),
                )
          ]
        ]
      ]
]

take_all : (n : ℕ) (xs : Bytes) → length xs ≤ n → take n xs ≡ xs
take_all zero [] h = refl
take_all (suc n) [] h = refl
take_all zero (x ∷ xs) h = absurd (omega arith)
take_all (suc n) (x ∷ xs) h = ap (λ ys. x ∷ ys) (take_all n xs (omega arith))

-- A successful response within the limit is used as a whole.
pub read_response_ok :
    {W : Type 0} (http : Http W) (body : Bytes)
    → length body ≤ server_response_limit
    → read_response http (record { status = 200; body = some body }) ≡ ok body
unfolding read_response
read_response_ok http body h =
    let fits : ltb server_response_limit (length body) ≡ false =
      ltb_of_le (length body) server_response_limit h in
    rw (take_all (server_response_limit + 1) body (omega (arith, h)), fits) refl

exchange-ok :
    {W : Type 0} (http : Http W) (req : Request) (w : W) (body : Bytes) (w' : W)
    → exchange http req w ≡ (ok body, w')
    → (resp : Response) × (http.send req w ≡ (ok resp, w')) × IsUsable resp body
unfolding exchange
exchange-ok http req w body w' h = elim (Bool-cases (http.is_request req)) [
  | inr e ↦ ground (arith, e)
  | inl e ↦ elim (Result-cases (http.send req w).0) [
    | inl (x, f) ↦ ground (arith, e, f)
    | inr (resp, f) ↦
        let read : read_response http resp ≡ ok body = ground (arith, e, f) in
        let after : (http.send req w).1 ≡ w' = ground (arith, e, f) in
        (resp, λ i. (f i, after i), read_response-IsUsable http resp body read)
  ]
]

-- What stands behind an accepted configuration.
pub record IsFetched {W : Type 0} (hash : Bytes → Bytes) (http : Http W) (s : ServerSource)
    (dev : Device) (w : W) (c : ResolvedConfig) (w' : W) : Type 0 where
  pub url : Bytes
  pub body : Bytes
  pub resp : Response
  pub response : ServerSyncResponse
  pub asked : http.sync_url s.url dev.platform dev.shell ≡ some url
  pub answered : http.send (bearer_request (codes "GET") url s.token) w ≡ (ok resp, w')
  pub usable : IsUsable resp body
  pub decoded : http.decode_sync body ≡ some response
  pub accepted : to_resolved_config hash response ≡ ok c

-- If `resolveUnfiltered` returns a configuration, then the URL is safe, one request was sent, with the
-- device's platform, shell and token, its response was a successful one of at most a mebibyte, and the
-- configuration is the one that the decoded body stands for.
pub resolve_unfiltered-IsFetched :
    {W Ip : Type 0} (hash : Bytes → Bytes) (net : Net Ip) (http : Http W) (s : ServerSource)
    (dev : Device) (w : W) (c : ResolvedConfig) (w' : W)
    → resolve_unfiltered hash net http s dev w ≡ (ok c, w')
    → ((u : Url) × (net.parse_url s.url ≡ some u) × IsSafe net s.allow_http u)
      × IsFetched hash http s dev w c w'
unfolding resolve_unfiltered fetch_sync accept decode_body
resolve_unfiltered-IsFetched hash net http s dev w c w' h =
    elim (Option-cases (validate_server_url net s.url s.allow_http)) [
      | inr (x, e) ↦ ground (arith, e)
      | inl e ↦ elim (Option-cases (http.sync_url s.url dev.platform dev.shell)) [
        | inl f ↦ ground (arith, e, f)
        | inr (url, f) ↦
            let req = bearer_request (codes "GET") url s.token in
            elim (Result-cases (exchange http req w).0) [
              | inl (x, g) ↦ ground (arith, e, f, g)
              | inr (body, g) ↦ elim (Option-cases (http.decode_sync body)) [
                | inl k ↦ ground (arith, e, f, g, k)
                | inr (response, k) ↦ elim (Result-cases (to_resolved_config hash response)) [
                  | inl (x, m) ↦ ground (arith, e, f, g, k, m)
                  | inr (c', m) ↦
                      let same_config : c' ≡ c = ground (arith, e, f, g, k, m) in
                      let after : (exchange http req w).1 ≡ w' = ground (arith, e, f, g, k, m) in
                      let (resp, answered, usable) =
                        exchange-ok http req w body w' (λ i. (g i, after i)) in
                      (
                        (validate_server_url_iff net s.url s.allow_http).0 e,
                        record {
                          url = url;
                          body = body;
                          resp = resp;
                          response = response;
                          asked = f;
                          answered = answered;
                          usable = usable;
                          decoded = k;
                          accepted = m ∙ ap ok same_config;
                        },
                      )
                ]
              ]
            ]
      ]
    ]
