-- ===== src/Supervisor/Backoff.antt =====
-- The delay before a restart.
use native.Mathlib.Nat.{pow-le-pow_right}
use iot_athome.Prelude.{ℕ, ◌-◌, ◌*◌, ◌^◌, ◌≤◌, min, ◌≡◌, arith}
use iot_athome.Supervisor.{backoff, duration_max, to_u32, one_shl}

shift_small : (count : ℕ) → min (to_u32 (count - 1)) 30 ≡ min (count - 1) 30
shift_small count = ground arith

one_shl-pow : (s : ℕ) → s ≤ 30 → one_shl s ≡ 2 ^ s
one_shl-pow s h = let p : 2 ^ s ≤ 2 ^ 30 = pow-le-pow_right {n = 2} (omega arith) h in ground arith

-- The delay doubles with each crash that counts, from `base`, and stops at `cap`: neither the
-- clamped shift nor the saturating product shows, for every representable cap.
pub backoff_lem :
    (count base cap : ℕ)
    → cap ≤ duration_max
    → backoff count base cap ≡ min (base * 2 ^ min (count - 1) 30) cap
unfolding backoff
backoff_lem count base cap h =
    rw (shift_small count, one_shl-pow (min (count - 1) 30) (omega arith)) (ground arith)

-- More crashes in the window never shorten the delay, and it never exceeds the cap.
pub backoff_mono :
    (m n base cap : ℕ)
    → cap ≤ duration_max
    → m ≤ n
    → (backoff m base cap ≤ backoff n base cap) × (backoff n base cap ≤ cap)
backoff_mono m n base cap hc h =
    let p : 2 ^ min (m - 1) 30 ≤ 2 ^ min (n - 1) 30 =
      pow-le-pow_right {n = 2} (omega arith) (omega arith) in
    let q : base * 2 ^ min (m - 1) 30 ≤ base * 2 ^ min (n - 1) 30 = grind arith in
    (
      omega (arith, backoff_lem m base cap hc, backoff_lem n base cap hc),
      omega (arith, backoff_lem n base cap hc),
    )
