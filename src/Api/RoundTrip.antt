-- ===== src/Api/RoundTrip.antt =====
-- A client's sync against this server: from the request of `internal/source` to its resolved configuration.
use aliasdeck.Prelude.{◌≤◌, ◌≡◌, refl, sym, ap, ◌∙◌, true, List, [], ◌∷◌, none, some, length}
use aliasdeck.Prelude.{Result, ok}
use mathlib.Core.List.{map}
use aliasdeck.Text.{Bytes, codes}
use aliasdeck.Domain.Alias.{Alias, Device, Time}
use aliasdeck.Domain.Resolved.{ResolvedConfig, resolve}
use aliasdeck.Domain.Revision.{content}
use aliasdeck.Auth.Token.{Token, token_kind_device}
use aliasdeck.Auth.Middleware.{Subject, require_kind}
use aliasdeck.Store.Errors.{StoreError}
use aliasdeck.Source.Url.{Net, validate_server_url}
use aliasdeck.Source.Wire.{to_resolved_config}
use aliasdeck.Source.WireLaws.{sent, sent_device, sent_config, to_resolved_config-sent_config}
use aliasdeck.Source.Server.{
  server_response_limit, ServerSource, Response, TransportError, Http, bearer_request, exchange,
  fetch_sync, decode_body, accept, resolve_unfiltered,
}
use aliasdeck.Source.ServerLaws.{read_response_ok}
use aliasdeck.Api.Sync.{SyncAlias, SyncResponse, SyncStore, sync_response, reported, sync_route}
use aliasdeck.Api.SyncLaws.{sync_route-IsAnswered, wire_of}

wire_of-aliases :
    (xs : List Alias)
    → map
        (λ (a : SyncAlias). record {
          name = a.name;
          command = a.command;
          description = a.description;
        })
        (map
          (λ (a : Alias). record {
            name = a.name;
            command = a.command;
            description = a.description;
          })
          xs)
      ≡ map sent xs
wire_of-aliases [] = refl
wire_of-aliases (a ∷ xs) = ap (λ ys. sent a ∷ ys) (wire_of-aliases xs)

wire_of-sync_response :
    (now : Time) (c : ResolvedConfig) → wire_of (sync_response now c) ≡ sent_config c
unfolding sync_response
wire_of-sync_response now c = λ i. record {
  revision = c.revision;
  device = sent_device c.device;
  aliases = wire_of-aliases c.aliases i;
}

-- The connection between client and server: the request reaches the route with its header and its query,
-- and the answer comes back as a body within the limit that the client's decoder reads.
pub record IsConnected {W : Type 0} (hash_secret hash : Bytes → Bytes)
    (by_lookup : W → Bytes → Result StoreError Token) (store : SyncStore W) (http : Http W)
    (s : ServerSource) (dev : Device) (now : Time) (w : W) (r : SyncResponse) (w' : W)
    : Type 0 where
  pub url : Bytes
  pub body : Bytes
  pub asked : http.sync_url s.url dev.platform dev.shell ≡ some url
  pub built : http.is_request (bearer_request (codes "GET") url s.token) ≡ true
  pub served :
      sync_route hash_secret hash by_lookup store
        (bearer_request (codes "GET") url s.token).authorization
        dev.platform
        dev.shell
        now
        w
      ≡ (ok r, w')
  pub answered :
      http.send (bearer_request (codes "GET") url s.token) w
      ≡ (ok (record { status = 200; body = some body }), w')
  pub short : length body ≤ server_response_limit
  pub decoded : http.decode_sync body ≡ some (wire_of r)

module _ {W Ip : Type 0} (hash_secret hash : Bytes → Bytes)
    (by_lookup : W → Bytes → Result StoreError Token) (store : SyncStore W) (net : Net Ip)
    (http : Http W) (s : ServerSource) (dev : Device) (now : Time) where
  fetch_sync-IsConnected :
      (w w' : W) (r : SyncResponse)
      → IsConnected hash_secret hash by_lookup store http s dev now w r w'
      → fetch_sync http s dev w ≡ (ok (wire_of r), w')
  unfolding fetch_sync exchange decode_body
  fetch_sync-IsConnected w w' r k =
      rw
        (
          fetch_sync,
          k.asked,
          k.built,
          k.answered,
          read_response_ok http k.body k.short,
          decode_body,
          k.decoded,
        )
        (ap (λ (p : Result TransportError Response × W). (ok (wire_of r), p.1)) k.answered)

  resolve_unfiltered-IsConnected :
      (w w' : W) (r : SyncResponse) (c : ResolvedConfig)
      → validate_server_url net s.url s.allow_http ≡ none
      → IsConnected hash_secret hash by_lookup store http s dev now w r w'
      → to_resolved_config hash (wire_of r) ≡ ok c
      → resolve_unfiltered hash net http s dev w ≡ (ok c, w')
  unfolding resolve_unfiltered accept
  resolve_unfiltered-IsConnected w w' r c v k e =
      rw (resolve_unfiltered, v, fetch_sync-IsConnected w w' r k, accept, e) refl

  -- What the server answers, the client accepts: where the URL is allowed and the answer comes back as sent,
  -- the client's token names a device that the store has, and the client ends with that device's id, name and
  -- profiles, its own platform and shell, the server's revision, and the names, commands and descriptions that
  -- `Resolve` gives for the stored aliases and that device with the client's platform and shell.
  pub resolve_unfiltered-sync_route :
      (w w' : W) (r : SyncResponse)
      → validate_server_url net s.url s.allow_http ≡ none
      → (k : IsConnected hash_secret hash by_lookup store http s dev now w r w')
      → (c : ResolvedConfig) × (subj : Subject) × (stored : Device) × (aliases : List Alias)
        × (resolve_unfiltered hash net http s dev w ≡ (ok c, w'))
        × (require_kind hash_secret
              (by_lookup w)
              token_kind_device
              now
              (bearer_request (codes "GET") k.url s.token).authorization
            ≡ some subj)
        × (store.get_device subj.subject_id w ≡ ok stored)
        × (store.list_aliases w ≡ ok aliases)
        × (c.revision ≡ r.revision)
        × (sent_device c.device ≡ record {
          id = stored.id;
          name = stored.name;
          platform = dev.platform;
          shell = dev.shell;
          profile_ids = stored.profile_ids;
        })
        × (map content c.aliases
            ≡ map content
                (resolve hash
                  (record stored { platform = dev.platform; shell = dev.shell })
                  aliases).aliases)
  unfolding reported
  resolve_unfiltered-sync_route w w' r v k =
      let (subj, admitted, d) =
        sync_route-IsAnswered hash store hash_secret by_lookup
          (bearer_request (codes "GET") k.url s.token).authorization dev.platform dev.shell now w r
          w' k.served in
      let there = reported dev.platform dev.shell d.dev in
      let (c, accepted, revision, contents, device) =
        to_resolved_config-sent_config hash there d.aliases d.known_platform d.known_shell in
      let answer = ap wire_of d.answer ∙ wire_of-sync_response now (resolve hash there d.aliases) in
      (
        c,
        subj,
        d.dev,
        d.aliases,
        resolve_unfiltered-IsConnected w w' r c v k (rw answer accepted),
        admitted,
        d.stored,
        d.listed,
        revision ∙ sym (ap (λ u. u.revision) answer),
        device,
        contents,
      )
