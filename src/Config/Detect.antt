-- ===== src/Config/Detect.antt =====
-- internal/config/detect.go. The environment, `runtime.GOOS` and `filepath.Base` are parameters.
use aliasdeck.Prelude.{
  ◌≡◌, refl, sym, inl, inr, true, false, not, ◌++◌, is_empty, Bool-cases, if◌then◌else◌, arith,
}
use aliasdeck.Prelude.{Result, ok, err}
use aliasdeck.Text.{Bytes, codes, same, trim_prefix}
use aliasdeck.Domain.Shell.{
  Platform, Shell, platform_macos, platform_linux, platform_windows, shell_valid, parse_platform,
  parse_shell, default_shell_for,
}

pub record PlatformDetection : Type 0 where
  pub platform : Platform
  pub provenance : Bytes

pub record ShellDetection : Type 0 where
  pub shell : Shell
  pub provenance : Bytes

unfoldable pub parse_platform_detection : Bytes → Bytes → Result Bytes PlatformDetection
unfolding parse_platform
parse_platform_detection value provenance = elim (parse_platform value) [
  | err e ↦ err e
  | ok p ↦ ok (record { platform = p; provenance = provenance })
]

-- The switch on `goos`.
unfoldable pub goos_platform : Bytes → Result Bytes PlatformDetection
goos_platform goos =
    if same goos (codes "darwin")
    then ok (record { platform = platform_macos; provenance = codes "runtime.GOOS" })
    else if same goos (codes "linux")
    then ok (record { platform = platform_linux; provenance = codes "runtime.GOOS" })
    else if same goos (codes "windows")
    then ok (record { platform = platform_windows; provenance = codes "runtime.GOOS" })
    else err goos

-- `DetectPlatform`
unfoldable pub detect_platform : Bytes → (Bytes → Bytes) → Bytes → Result Bytes PlatformDetection
unfolding parse_platform_detection goos_platform
detect_platform config_override getenv goos =
    if not (is_empty config_override)
    then parse_platform_detection config_override (codes "config.yaml device.platform")
    else if not (is_empty (getenv (codes "ALIASDECK_PLATFORM")))
    then parse_platform_detection (getenv (codes "ALIASDECK_PLATFORM"))
        (codes "$ALIASDECK_PLATFORM")
    else goos_platform goos

-- `parseShellDetection`
unfoldable pub parse_shell_detection : Bytes → Bytes → Result Bytes ShellDetection
unfolding parse_shell
parse_shell_detection value provenance = elim (parse_shell value) [
  | err e ↦ err e
  | ok sh ↦ ok (record { shell = sh; provenance = provenance })
]

-- `shellBasename`
unfoldable pub shell_basename : (Bytes → Bytes) → Bytes → Bytes
unfolding trim_prefix
shell_basename base shell_path = trim_prefix (base shell_path) (codes "-")

-- `DetectShell`
unfoldable pub detect_shell :
    (Bytes → Bytes) → Bytes → Bytes → (Bytes → Bytes) → Platform → Result Bytes ShellDetection
unfolding parse_shell_detection shell_basename default_shell_for
detect_shell base flag_override config_override getenv platform =
    if not (is_empty flag_override)
    then parse_shell_detection flag_override (codes "--shell flag")
    else if not (is_empty config_override)
    then parse_shell_detection config_override (codes "config.yaml device.shell")
    else if not (is_empty (getenv (codes "ALIASDECK_SHELL")))
    then parse_shell_detection (getenv (codes "ALIASDECK_SHELL")) (codes "$ALIASDECK_SHELL")
    else if not (is_empty (getenv (codes "SHELL")))
    then parse_shell_detection (shell_basename base (getenv (codes "SHELL"))) (codes "$SHELL")
    else ok (record {
      shell = default_shell_for platform;
      provenance = codes "default for platform " ++ platform;
    })

parse_shell_detection-valid :
    (value provenance : Bytes) (d : ShellDetection)
    → parse_shell_detection value provenance ≡ ok d
    → shell_valid d.shell ≡ true
unfolding parse_shell_detection parse_shell
parse_shell_detection-valid value provenance d h = elim (Bool-cases (shell_valid value)) [
  | inl e ↦ let it : value ≡ d.shell = ground (arith, e, h) in rw (sym it) e
  | inr e ↦ ground (arith, e, h)
]

default_shell_for-valid : (platform : Platform) → shell_valid (default_shell_for platform) ≡ true
unfolding default_shell_for shell_valid same
default_shell_for-valid platform = elim (Bool-cases (same platform platform_macos)) [
  | inl e ↦ rw e refl
  | inr e ↦ elim (Bool-cases (same platform platform_windows)) [
    | inl f ↦ rw (e, f) refl
    | inr f ↦ rw (e, f) refl
  ]
]

parse_shell_detection-is :
    (value provenance : Bytes) (d : ShellDetection)
    → parse_shell_detection value provenance ≡ ok d
    → d.shell ≡ value
unfolding parse_shell_detection parse_shell
parse_shell_detection-is value provenance d h = elim (Bool-cases (shell_valid value)) [
  | inl e ↦ ground (arith, e, h)
  | inr e ↦ ground (arith, e, h)
]

-- `DetectShell` never returns a shell that is not one of the three, and where the flag is set, or else the
-- configuration, it returns that one.
pub detect_shell-valid :
    (base : Bytes → Bytes) (flag_override config_override : Bytes) (getenv : Bytes → Bytes)
    (platform : Platform) (d : ShellDetection)
    → detect_shell base flag_override config_override getenv platform ≡ ok d
    → (shell_valid d.shell ≡ true)
      × (is_empty flag_override ≡ false → d.shell ≡ flag_override)
      × (is_empty flag_override ≡ true
          → is_empty config_override ≡ false
          → d.shell ≡ config_override)
unfolding detect_shell
detect_shell-valid base flag_override config_override getenv platform d h =
    elim (Bool-cases (is_empty flag_override)) [
      | inr e ↦
          let k : parse_shell_detection flag_override (codes "--shell flag") ≡ ok d =
            ground (arith, e, h) in
          (
            parse_shell_detection-valid flag_override (codes "--shell flag") d k,
            λ x. parse_shell_detection-is flag_override (codes "--shell flag") d k,
            λ x y. ground (arith, e, x),
          )
      | inl e ↦ elim (Bool-cases (is_empty config_override)) [
        | inr f ↦
            let k : parse_shell_detection config_override (codes "config.yaml device.shell")
                ≡ ok d =
              ground (arith, e, f, h) in
            (
              parse_shell_detection-valid config_override (codes "config.yaml device.shell") d k,
              λ x. ground (arith, e, x),
              λ x y.
                  parse_shell_detection-is config_override (codes "config.yaml device.shell") d k,
            )
        | inl f ↦ (environment e f, λ x. ground (arith, e, x), λ x y. ground (arith, f, y))
      ]
    ]
  where
    environment :
        is_empty flag_override ≡ true → is_empty config_override ≡ true → shell_valid d.shell ≡ true
    environment e f = elim (Bool-cases (is_empty (getenv (codes "ALIASDECK_SHELL")))) [
      | inr g ↦
          parse_shell_detection-valid (getenv (codes "ALIASDECK_SHELL")) (codes "$ALIASDECK_SHELL")
            d (ground (arith, e, f, g, h))
      | inl g ↦ elim (Bool-cases (is_empty (getenv (codes "SHELL")))) [
        | inr k ↦
            parse_shell_detection-valid (shell_basename base (getenv (codes "SHELL")))
              (codes "$SHELL") d (ground (arith, e, f, g, k, h))
        | inl k ↦
            let it : default_shell_for platform ≡ d.shell = ground (arith, e, f, g, k, h) in
            rw (sym it) (default_shell_for-valid platform)
      ]
    ]
