-- ===== src/Instances/Loudness.antt =====
-- Whole numbers in place of the numbers of type f32 and 0 for every literal.
-- In `levels` the threshold of silence reads as 5.
use iot_athome.Prelude.{ℕ, ◌+◌, ◌-◌, ◌*◌, ◌/◌, codes, text_eq, ltb, leb, if◌then◌else◌}
use iot_athome.WakeVad.{Floats}

abbrev pub floats : Floats
floats = record {
  F = ℕ;
  lit = λ s. 0;
  of_count = λ n. n;
  add = λ a b. a + b;
  sub = λ a b. a - b;
  mul = λ a b. a * b;
  div = λ a b. if leb b 0 then 0 else a / b;
  neg = λ a. 0;
  abs = λ a. a;
  sqrt = λ a. a;
  max_of = λ a b. if leb a b then b else a;
  mul_add = λ a b c. a * b + c;
  clamp = λ x low high. x;
  lt = ltb;
  ge = λ a b. leb b a;
}

abbrev pub levels : Floats
levels = record floats { lit = λ s. if text_eq s (codes "0.05") then 5 else 0 }
