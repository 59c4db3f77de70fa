-- ===== src/Source/Server.antt =====
-- internal/source/server.go: `ServerSource`. The HTTP client, net/url and the JSON decoder are parameters.
use aliasdeck.Prelude.{
  ℕ, ◌+◌, Bool, ◌||◌, not, ◌++◌, Option, none, some, length, take, is_empty, ltb, leb, ◌==◌,
  if◌then◌else◌,
}
use aliasdeck.Prelude.{◌*◌, Result, ok, err}
use aliasdeck.Text.{Bytes, codes}
use aliasdeck.Domain.Shell.{Platform, Shell}
use aliasdeck.Domain.Alias.{Device}
use aliasdeck.Domain.Resolved.{ResolvedConfig}
use aliasdeck.Validate.Filter.{filter_valid}
use aliasdeck.Source.Url.{Net, UrlError, validate_server_url}
use aliasdeck.Source.Wire.{ServerSyncResponse, WireError, to_resolved_config}

abbrev pub server_response_limit : ℕ
server_response_limit = 1024 * 1024

pub record ServerSource : Type 0 where
  pub url : Bytes
  pub token : Bytes
  pub allow_http : Bool

-- A request with the headers Authorization and `Accept: application/json`.
pub record Request : Type 0 where
  pub method : Bytes
  pub url : Bytes
  pub authorization : Bytes

-- A response; the body is what reading it to its end gives.
pub record Response : Type 0 where
  pub status : ℕ
  pub body : Option Bytes

pub data TransportError : Type 0 where
  redirect_refused : TransportError
  unreachable : TransportError

-- What the client calls: `JoinPath` with the query or without, `NewRequest`, `Do`, and the two decoders.
pub record Http (W : Type 0) : Type 0 where
  pub sync_url : Bytes → Platform → Shell → Option Bytes
  pub heartbeat_url : Bytes → Option Bytes
  pub is_request : Request → Bool
  pub send : Request → W → Result TransportError Response × W
  pub decode_sync : Bytes → Option ServerSyncResponse
  pub error_message : Bytes → Option Bytes

pub data SourceError : Type 0 where
  refused_url : UrlError → SourceError
  bad_url : SourceError
  bad_request : SourceError
  transport : TransportError → SourceError
  unreadable : SourceError
  too_large : SourceError
  unauthorized : Bytes → SourceError
  refused : ℕ → Bytes → SourceError
  undecodable : SourceError
  wire : WireError → SourceError

-- `serverErrorMessage`
unfoldable pub server_error_message : {W : Type 0} → Http W → Bytes → Bytes
server_error_message http body = elim (http.error_message body) [
  | none ↦ codes "request failed"
  | some message ↦ if is_empty message then codes "request failed" else message
]

-- The body within its limit, and the status: what `fetchSync` and `Heartbeat` do with a response.
unfoldable pub read_response : {W : Type 0} → Http W → Response → Result SourceError Bytes
unfolding server_error_message
read_response http resp = elim resp.body [
  | none ↦ err unreadable
  | some whole ↦
      let body = take (server_response_limit + 1) whole in
      if ltb server_response_limit (length body)
      then err too_large
      else if resp.status == 401
      then err (unauthorized (server_error_message http body))
      else if ltb resp.status 200 || leb 300 resp.status
      then err (refused resp.status (server_error_message http body))
      else ok body
]

unfoldable pub bearer_request : Bytes → Bytes → Bytes → Request
bearer_request method url token = record {
  method = method;
  url = url;
  authorization = codes "Bearer " ++ token;
}

-- A request to the URL, and its response.
unfoldable pub exchange : {W : Type 0} → Http W → Request → W → Result SourceError Bytes × W
unfolding read_response
exchange http req w =
    if not (http.is_request req)
    then (err bad_request, w)
    else let (sent, w1) = http.send req w in
      elim sent [ err e ↦ (err (transport e), w1) | ok resp ↦ (read_response http resp, w1) ]

unfoldable pub decode_body :
    {W : Type 0} → Http W → Result SourceError Bytes → Result SourceError ServerSyncResponse
decode_body http (err e) = err e
decode_body http (ok body) = elim (http.decode_sync body) [ none ↦ err undecodable | some w ↦ ok w ]

-- `fetchSync`
unfoldable pub fetch_sync :
    {W : Type 0} → Http W → ServerSource → Device → W → Result SourceError ServerSyncResponse × W
unfolding exchange bearer_request decode_body
fetch_sync http s dev w = elim (http.sync_url s.url dev.platform dev.shell) [
  | none ↦ (err bad_url, w)
  | some url ↦
      let (r, w1) = exchange http (bearer_request (codes "GET") url s.token) w in
      (decode_body http r, w1)
]

unfoldable pub accept :
    (Bytes → Bytes) → Result SourceError ServerSyncResponse → Result SourceError ResolvedConfig
unfolding to_resolved_config
accept hash (err e) = err e
accept hash (ok response) = elim (to_resolved_config hash response) [
  | err e ↦ err (wire e)
  | ok c ↦ ok c
]

-- `resolveUnfiltered`; the time of the last resolve is left out.
unfoldable pub resolve_unfiltered :
    {W Ip : Type 0}
    → (Bytes → Bytes)
    → Net Ip
    → Http W
    → ServerSource
    → Device
    → W
    → Result SourceError ResolvedConfig × W
unfolding validate_server_url fetch_sync accept
resolve_unfiltered hash net http s dev w = elim (validate_server_url net s.url s.allow_http) [
  | some e ↦ (err (refused_url e), w)
  | none ↦ let (r, w1) = fetch_sync http s dev w in (accept hash r, w1)
]

unfoldable pub filtered :
    (ℕ → ℕ) → Result SourceError ResolvedConfig → Result SourceError ResolvedConfig
unfolding filter_valid
filtered lower (err e) = err e
filtered lower (ok c) = ok (filter_valid lower c).0

-- `ServerSource.Resolve`
unfoldable pub server_resolve :
    {W Ip : Type 0}
    → (Bytes → Bytes)
    → (ℕ → ℕ)
    → Net Ip
    → Http W
    → ServerSource
    → Device
    → W
    → Result SourceError ResolvedConfig × W
unfolding resolve_unfiltered filtered
server_resolve hash lower net http s dev w =
    let (r, w1) = resolve_unfiltered hash net http s dev w in (filtered lower r, w1)

-- `Heartbeat`: `none` is the error nil.
unfoldable pub heartbeat :
    {W Ip : Type 0} → Net Ip → Http W → ServerSource → W → Option SourceError × W
unfolding validate_server_url exchange bearer_request
heartbeat net http s w = elim (validate_server_url net s.url s.allow_http) [
  | some e ↦ (some (refused_url e), w)
  | none ↦ elim (http.heartbeat_url s.url) [
    | none ↦ (some bad_url, w)
    | some url ↦
        let (r, w1) = exchange http (bearer_request (codes "POST") url s.token) w in
        elim r [ err e ↦ (some e, w1) | ok body ↦ (none, w1) ]
  ]
]
