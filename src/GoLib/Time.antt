-- ===== src/GoLib/Time.antt =====
-- Package time: points of time in nanoseconds from the zero time on, and durations. Differences are
-- exact, as Go's are within 292 years.
use red_lab.Prelude.{ℕ, Bool, ltb, eqb}
use red_lab.Prelude.Int.{ℤ, sub_ℕ, pos_part, neg_part}
use Prim.Native.Nat.{◌+◌, ◌-◌}

abbrev pub Time : Type 0
Time = ℕ

abbrev pub Duration : Type 0
Duration = ℤ

-- time.Second
abbrev pub second : ℕ
second = 1000000000

-- t.IsZero()
abbrev pub is_zero : Time → Bool
is_zero t = eqb t 0

-- t.Sub(u)
abbrev pub sub : Time → Time → Duration
sub t u = sub_ℕ t u

-- t.Before(u)
abbrev pub before : Time → Time → Bool
before t u = ltb t u

-- t.Add(d)
abbrev pub add : Time → Duration → Time
add t d = t + pos_part d - neg_part d
