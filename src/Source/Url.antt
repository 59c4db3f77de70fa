-- ===== src/Source/Url.antt =====
-- internal/source/url.go: which server URLs a device may use. The packages net and net/url are parameters.
use aliasdeck.Prelude.{
  ◌≡◌, refl, sym, ◌∙◌, ◌↔◌, ◌⊎◌, inl, inr, Bool, true, false, Option, none, some, Bool-cases,
  Option-cases, if◌then◌else◌, arith,
}
use aliasdeck.Text.{Bytes, codes, same}
use aliasdeck.Text.Equality.{same_iff}

pub record Url : Type 0 where
  pub scheme : Bytes
  pub hostname : Bytes

-- `url.Parse`, `net.ParseIP` and `IsLoopback`.
pub record Net (Ip : Type 0) : Type 0 where
  pub parse_url : Bytes → Option Url
  pub parse_ip : Bytes → Option Ip
  pub ip_is_loopback : Ip → Bool

pub data UrlError : Type 0 where
  invalid_url : UrlError
  insecure_url : UrlError
  unknown_scheme : Bytes → UrlError

unfoldable pub is_loopback_host : {Ip : Type 0} → Net Ip → Bytes → Bool
is_loopback_host net host =
    if same host (codes "localhost")
    then true
    else elim (net.parse_ip host) [ none ↦ false | some ip ↦ net.ip_is_loopback ip ]

-- The schemes of `ValidateServerURL`.
unfoldable pub check_url : {Ip : Type 0} → Net Ip → Bool → Url → Option UrlError
unfolding is_loopback_host
check_url net allow_http u =
    if same u.scheme (codes "https")
    then none
    else if same u.scheme (codes "http")
    then (if is_loopback_host net u.hostname
        then none
        else if allow_http
        then none
        else some insecure_url)
    else some (unknown_scheme u.scheme)

-- `ValidateServerURL`: `none` is the error nil.
unfoldable pub validate_server_url : {Ip : Type 0} → Net Ip → Bytes → Bool → Option UrlError
unfolding check_url
validate_server_url net raw allow_http = elim (net.parse_url raw) [
  | none ↦ some invalid_url
  | some u ↦ check_url net allow_http u
]

-- A host of the local machine.
abbrev pub IsLocal : {Ip : Type 0} → Net Ip → Bytes → Type 0
IsLocal {Ip} net host =
    (host ≡ codes "localhost")
    ⊎ ((ip : Ip) × (net.parse_ip host ≡ some ip) × (net.ip_is_loopback ip ≡ true))

-- A URL that keeps the token from a network, or whose user said not to.
abbrev pub IsSafe : {Ip : Type 0} → Net Ip → Bool → Url → Type 0
IsSafe net allow_http u =
    (u.scheme ≡ codes "https")
    ⊎ ((u.scheme ≡ codes "http") × (IsLocal net u.hostname ⊎ (allow_http ≡ true)))

is_loopback_host_iff :
    {Ip : Type 0} (net : Net Ip) (host : Bytes)
    → (is_loopback_host net host ≡ true) ↔ IsLocal net host
unfolding is_loopback_host
is_loopback_host_iff net host = elim (Bool-cases (same host (codes "localhost"))) [
  | inl e ↦ (λ h. inl ((same_iff host (codes "localhost")).0 e), λ h. rw e refl)
  | inr e ↦ elim (Option-cases (net.parse_ip host)) [
    | inl f ↦ (
      λ h. ground (arith, e, f),
      λ h. elim h [
        | inl k ↦ cc (e, (same_iff host (codes "localhost")).1 k)
        | inr (ip, k, m) ↦ cc k
      ],
    )
    | inr (ip, f) ↦ (
      λ h. inr (ip, f, ground (arith, e, f)),
      λ h. elim h [
        | inl k ↦ cc (e, (same_iff host (codes "localhost")).1 k)
        | inr (ip', k, m) ↦ let one : some ip ≡ some ip' = sym f ∙ k in ground (arith, e, f, one, m)
      ],
    )
  ]
]

check_url_sound :
    {Ip : Type 0} (net : Net Ip) (allow_http : Bool) (u : Url)
    → check_url net allow_http u ≡ none
    → IsSafe net allow_http u
unfolding check_url
check_url_sound net allow_http u h = elim (Bool-cases (same u.scheme (codes "https"))) [
  | inl e ↦ inl ((same_iff u.scheme (codes "https")).0 e)
  | inr e ↦ elim (Bool-cases (same u.scheme (codes "http"))) [
    | inr f ↦ ground (arith, e, f)
    | inl f ↦
        let plain = (same_iff u.scheme (codes "http")).0 f in
        elim (Bool-cases (is_loopback_host net u.hostname)) [
          | inl g ↦ inr (plain, inl ((is_loopback_host_iff net u.hostname).0 g))
          | inr g ↦ inr (plain, inr (ground (arith, e, f, g)))
        ]
  ]
]

check_url-IsSafe :
    {Ip : Type 0} (net : Net Ip) (allow_http : Bool) (u : Url)
    → IsSafe net allow_http u
    → check_url net allow_http u ≡ none
unfolding check_url
check_url-IsSafe net allow_http u (inl m) = rw ((same_iff u.scheme (codes "https")).1 m) refl
check_url-IsSafe net allow_http u (inr (m, inl l)) =
    ground
      (arith, (same_iff u.scheme (codes "http")).1 m, (is_loopback_host_iff net u.hostname).1 l)
check_url-IsSafe net allow_http u (inr (m, inr l)) =
    let plain = (same_iff u.scheme (codes "http")).1 m in ground (arith, plain, l)

-- `ValidateServerURL` accepts exactly the URLs with the scheme https, and those with the scheme http
-- whose host is localhost or a loopback address, or where the insecure use was allowed.
pub validate_server_url_iff :
    {Ip : Type 0} (net : Net Ip) (raw : Bytes) (allow_http : Bool)
    → (validate_server_url net raw allow_http ≡ none)
      ↔ ((u : Url) × (net.parse_url raw ≡ some u) × IsSafe net allow_http u)
unfolding validate_server_url
validate_server_url_iff net raw allow_http = elim (Option-cases (net.parse_url raw)) [
  | inl e ↦ (λ h. ground (arith, e), λ (u, k, _). cc (e, k))
  | inr (u, e) ↦ (
    λ h. (u, e, check_url_sound net allow_http u (ground (arith, e, h))),
    λ (v, k, s). rw (validate_server_url, k) (check_url-IsSafe net allow_http v s),
  )
]
