-- ===== src/Domain/Alias.antt =====
-- internal/domain/alias.go and device.go: an alias, a device, and which alias applies to which device.
use aliasdeck.Prelude.{
  ℕ, Bool, true, false, ◌||◌, not, List, [], ◌∷◌, Option, is_empty, if◌then◌else◌,
}
use aliasdeck.Text.{Bytes, same, contains_text}
use aliasdeck.Domain.Shell.{Platform, Shell}

-- An instant; 0 is the zero time.
abbrev pub Time : Type 0
Time = ℕ

pub record Alias : Type 0 where
  pub id : Bytes
  pub name : Bytes
  pub command : Bytes
  pub description : Bytes
  pub enabled : Bool
  pub tags : List Bytes
  pub platforms : List Platform
  pub shells : List Shell
  pub profile_ids : List Bytes
  pub device_ids : List Bytes
  pub created_at : Time
  pub updated_at : Time

-- The optional times are Go's nil pointers.
pub record Device : Type 0 where
  pub id : Bytes
  pub name : Bytes
  pub hostname : Bytes
  pub platform : Platform
  pub shell : Shell
  pub architecture : Bytes
  pub profile_ids : List Bytes
  pub last_seen_at : Option Time
  pub last_sync_at : Option Time
  pub client_version : Bytes
  pub revoked_at : Option Time

unfoldable pub targets_platform : Alias → Platform → Bool
unfolding contains_text
targets_platform a p = if is_empty a.platforms then true else contains_text a.platforms p

unfoldable pub targets_shell : Alias → Shell → Bool
unfolding contains_text
targets_shell a sh = if is_empty a.shells then true else contains_text a.shells sh

-- The two loops of `TargetsProfiles`: over the wanted profiles, and over the device's.
unfoldable pub has_profile : List Bytes → Bytes → Bool
unfolding same
has_profile [] want = false
has_profile (has ∷ rest) want = same want has || has_profile rest want

unfoldable pub shares_profile : List Bytes → List Bytes → Bool
unfolding has_profile
shares_profile [] device_profiles = false
shares_profile (want ∷ rest) device_profiles =
    has_profile device_profiles want || shares_profile rest device_profiles

unfoldable pub targets_profiles : Alias → List Bytes → Bool
unfolding shares_profile
targets_profiles a device_profiles =
    if is_empty a.profile_ids then true else shares_profile a.profile_ids device_profiles

unfoldable pub targets_device : Alias → Bytes → Bool
unfolding contains_text
targets_device a device_id =
    if is_empty a.device_ids then true else contains_text a.device_ids device_id

-- The first dimension that excludes a device.
pub data TargetingMiss : Type 0 where
  no_miss disabled platform shell profile device : TargetingMiss

unfoldable pub miss : Alias → Device → TargetingMiss
miss a dev =
    if not a.enabled
    then disabled
    else if not (targets_platform a dev.platform)
    then platform
    else if not (targets_shell a dev.shell)
    then shell
    else if not (targets_profiles a dev.profile_ids)
    then profile
    else if not (targets_device a dev.id)
    then device
    else no_miss

-- `m == MissNone`
unfoldable pub is_no_miss : TargetingMiss → Bool
is_no_miss no_miss = true
is_no_miss _ = false

unfoldable pub applies_to : Alias → Device → Bool
unfolding is_no_miss
applies_to a dev = is_no_miss (miss a dev)
