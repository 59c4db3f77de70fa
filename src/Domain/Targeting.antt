-- ===== src/Domain/Targeting.antt =====
-- What `Miss` and `AppliesTo` decide, by membership instead of loops.
use aliasdeck.Prelude.{
  Bool, ◌≡◌, refl, ap, ◌↔◌, ◌⊎◌, inl, inr, true, false, List, [], ◌∷◌, is_empty, In, Bool-cases,
  if◌then◌else◌, arith,
}
use aliasdeck.Text.{Bytes, contains_text}
use aliasdeck.Text.Equality.{same_iff, contains_text_iff}
use aliasdeck.Domain.Alias.{
  Alias, Device, TargetingMiss, no_miss, disabled, platform, shell, profile, device, miss,
  applies_to, targets_platform, targets_shell, targets_profiles, targets_device, has_profile,
  shares_profile,
}

-- No target at all, or this one among others.
abbrev pub Targets : List Bytes → Bytes → Type 0
Targets wanted k = (wanted ≡ []) ⊎ In k wanted

abbrev pub TargetsSome : List Bytes → List Bytes → Type 0
TargetsSome wanted held = (wanted ≡ []) ⊎ ((p : Bytes) × In p wanted × In p held)

-- What each answer of `Miss` says: the earlier dimensions agree, and this one does not.
abbrev pub FirstMiss : Alias → Device → TargetingMiss → Type 0
FirstMiss a dev disabled = a.enabled ≡ false
FirstMiss a dev platform = (a.enabled ≡ true) × ¬ (Targets a.platforms dev.platform)
FirstMiss a dev shell =
    (a.enabled ≡ true) × Targets a.platforms dev.platform × ¬ (Targets a.shells dev.shell)
FirstMiss a dev profile =
    (a.enabled ≡ true)
    × Targets a.platforms dev.platform
    × Targets a.shells dev.shell
    × ¬ (TargetsSome a.profile_ids dev.profile_ids)
FirstMiss a dev device =
    (a.enabled ≡ true)
    × Targets a.platforms dev.platform
    × Targets a.shells dev.shell
    × TargetsSome a.profile_ids dev.profile_ids
    × ¬ (Targets a.device_ids dev.id)
FirstMiss a dev no_miss =
    (a.enabled ≡ true)
    × Targets a.platforms dev.platform
    × Targets a.shells dev.shell
    × TargetsSome a.profile_ids dev.profile_ids
    × Targets a.device_ids dev.id

listed :
    (wanted : List Bytes) (k : Bytes)
    → ((if is_empty wanted then true else contains_text wanted k) ≡ true) ↔ Targets wanted k
listed [] k = (λ h. inl refl, λ h. refl)
listed (w ∷ ws) k = (
  λ h. inr ((contains_text_iff (w ∷ ws) k).0 h),
  λ h. ground (arith, contains_text_iff (w ∷ ws) k),
)

has_profile_iff : (held : List Bytes) (p : Bytes) → (has_profile held p ≡ true) ↔ In p held
unfolding has_profile
has_profile_iff [] p = (λ h. cc, λ h. absurd h)
has_profile_iff (q ∷ held) p = (
  λ h. ground (arith, same_iff p q, has_profile_iff held p),
  λ h. ground (arith, same_iff p q, has_profile_iff held p),
)

shares_sound :
    (wanted held : List Bytes)
    → shares_profile wanted held ≡ true
    → (p : Bytes) × In p wanted × In p held
unfolding shares_profile
shares_sound [] held h = cc
shares_sound (w ∷ ws) held h = elim (Bool-cases (has_profile held w)) [
  | inl e ↦ (w, inl refl, (has_profile_iff held w).0 e)
  | inr e ↦ let (p, i, j) = shares_sound ws held (rw e at h) in (p, inr i, j)
]

shares_complete :
    (wanted held : List Bytes) (p : Bytes)
    → In p wanted
    → In p held
    → shares_profile wanted held ≡ true
unfolding shares_profile
shares_complete [] held p i j = absurd i
shares_complete (w ∷ ws) held p (inl e) j =
    ground (arith, has_profile_iff held w, ap (λ x. In x held) e)
shares_complete (w ∷ ws) held p (inr i) j = ground (arith, shares_complete ws held p i j)

shares_iff :
    (wanted held : List Bytes)
    → ((if is_empty wanted then true else shares_profile wanted held) ≡ true)
      ↔ TargetsSome wanted held
shares_iff [] held = (λ h. inl refl, λ h. refl)
shares_iff (w ∷ ws) held = (
  λ h. inr (shares_sound (w ∷ ws) held h),
  λ h. elim h [ inl e ↦ cc | inr (p, i, j) ↦ shares_complete (w ∷ ws) held p i j ],
)

module _ (a : Alias) (dev : Device) where
  targets_platform_iff : (targets_platform a dev.platform ≡ true) ↔ Targets a.platforms dev.platform
  unfolding targets_platform
  targets_platform_iff = listed a.platforms dev.platform

  targets_shell_iff : (targets_shell a dev.shell ≡ true) ↔ Targets a.shells dev.shell
  unfolding targets_shell
  targets_shell_iff = listed a.shells dev.shell

  targets_profiles_iff :
      (targets_profiles a dev.profile_ids ≡ true) ↔ TargetsSome a.profile_ids dev.profile_ids
  unfolding targets_profiles
  targets_profiles_iff = shares_iff a.profile_ids dev.profile_ids

  targets_device_iff : (targets_device a dev.id ≡ true) ↔ Targets a.device_ids dev.id
  unfolding targets_device
  targets_device_iff = listed a.device_ids dev.id

-- The split on the five tests.
not_of_false : {P : Type 0} (b : Bool) → (b ≡ true) ↔ P → b ≡ false → ¬ P
not_of_false b e h p = ground (arith, e.1 p)

-- `Miss` names the first dimension that fails, in the order enabled, platform, shell, profile, device,
-- or says that none does.
pub miss-FirstMiss : (a : Alias) (dev : Device) → FirstMiss a dev (miss a dev)
unfolding miss
miss-FirstMiss a dev = ground (
  arith,
  not_of_false _ (targets_platform_iff a dev),
  not_of_false _ (targets_shell_iff a dev),
  not_of_false _ (targets_profiles_iff a dev),
  not_of_false _ (targets_device_iff a dev),
  targets_platform_iff a dev,
  targets_shell_iff a dev,
  targets_profiles_iff a dev,
  targets_device_iff a dev,
)

-- An alias applies to a device exactly when it is enabled and every dimension has no target or one that
-- the device meets.
applies_to_iff : (a : Alias) (dev : Device) → (applies_to a dev ≡ true) ↔ FirstMiss a dev no_miss
unfolding applies_to miss
applies_to_iff a dev = (
  λ h. ground (
    arith,
    not_of_false _ (targets_platform_iff a dev),
    not_of_false _ (targets_shell_iff a dev),
    not_of_false _ (targets_profiles_iff a dev),
    not_of_false _ (targets_device_iff a dev),
    targets_platform_iff a dev,
    targets_shell_iff a dev,
    targets_profiles_iff a dev,
    targets_device_iff a dev,
  ),
  λ h. ground (
    arith,
    not_of_false _ (targets_platform_iff a dev),
    not_of_false _ (targets_shell_iff a dev),
    not_of_false _ (targets_profiles_iff a dev),
    not_of_false _ (targets_device_iff a dev),
    targets_platform_iff a dev,
    targets_shell_iff a dev,
    targets_profiles_iff a dev,
    targets_device_iff a dev,
  ),
)
