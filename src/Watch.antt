-- ===== src/Watch.antt =====
-- internal/watchconfig/policy.go. A duration is a number of nanoseconds; `time.ParseDuration` is a
-- parameter, whose negative durations are `none`, as its errors are: both are refused.
use aliasdeck.Prelude.{
  ℕ, ◌≤◌, ◌≡◌, inl, inr, Bool, ◌||◌, not, Option, none, some, is_empty, or_parts, Bool-cases,
  Option-cases, ltb, if◌then◌else◌, arith,
}
use aliasdeck.Prelude.{◌*◌}
use aliasdeck.Prelude.{ltb-false}
use aliasdeck.Text.{Bytes}

abbrev pub one_second : ℕ
one_second = 1000000000

abbrev pub default_interval : ℕ
default_interval = 30 * one_second

abbrev pub min_interval : ℕ
min_interval = one_second

abbrev pub max_interval : ℕ
max_interval = 24 * 3600 * one_second

-- `Validate`: whether the error is nil.
unfoldable pub validate_interval : ℕ → Bool
validate_interval d = not (ltb d min_interval || ltb max_interval d)

-- `Parse`
unfoldable pub parse_interval : (Bytes → Option ℕ) → Bytes → Option ℕ
unfolding validate_interval
parse_interval parse_duration raw =
    if is_empty raw then some default_interval else elim (parse_duration raw) [
      | none ↦ none
      | some d ↦ if validate_interval d then some d else none
    ]

-- `Parse` returns no interval shorter than a second or longer than a day.
pub parse_interval-bounds :
    (parse_duration : Bytes → Option ℕ) (raw : Bytes) (d : ℕ)
    → parse_interval parse_duration raw ≡ some d
    → (min_interval ≤ d) × (d ≤ max_interval)
unfolding parse_interval validate_interval
parse_interval-bounds parse_duration raw d h = elim (Bool-cases (is_empty raw)) [
  | inl e ↦
      let it : default_interval ≡ d = ground (arith, e, h) in (omega (arith, it), omega (arith, it))
  | inr e ↦ elim (Option-cases (parse_duration raw)) [
    | inl f ↦ ground (arith, e, f, h)
    | inr (d', f) ↦ elim (Bool-cases (ltb d' min_interval || ltb max_interval d')) [
      | inl g ↦ ground (arith, e, f, g, h)
      | inr g ↦
          let it : d' ≡ d = ground (arith, e, f, g, h) in
          let (low, high) = (or_parts (ltb d' min_interval) (ltb max_interval d')).0 g in
          (
            omega (arith, it, ltb-false d' min_interval low),
            omega (arith, it, ltb-false max_interval d' high),
          )
    ]
  ]
]
