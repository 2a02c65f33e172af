-- ===== src/System/Identity/Fresh.antt =====
-- A user who is added gets a number of their own.
use red_lab.Prelude.{◌+◌, ◌^◌, ◌<◌, ◌≤◌, if◌then◌else◌}
use red_lab.Prelude.Int.{ℤ, pos, pos_part, neg_part, ◌+ℤ◌, ltb_ℤ, wrap64}
use red_lab.System.{User}

-- A number to which one can be added.
abbrev pub HasNext : User → Type 0
HasNext u = (pos_part u.uid + 1 < 2 ^ 63) × (neg_part u.uid ≤ 2 ^ 63)

abbrev pub IsBelow : ℤ → ℤ → Type 0
IsBelow a b = pos_part a + neg_part b < pos_part b + neg_part a

next_uid : ℤ → User → ℤ
next_uid uid u = if ltb_ℤ u.uid uid then uid else wrap64 (u.uid +ℤ pos 1)
