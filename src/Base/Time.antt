-- ===== src/Base/Time.antt =====
-- `time.Time` as nanoseconds since 1970 and `time.Duration` as an int64 of nanoseconds.
use ftg_chain.Base.{ℕ, ◌+◌, ◌-◌, ◌*◌, ◌≡◌, refl, Bool, ltb, if◌then◌else◌}
use ftg_chain.Base.Word.{is_negative, neg64, mul64}

abbrev pub Time : Type 0
Time = ℕ

-- `t.Add(d)`
unfoldable pub add_duration : Time → ℕ → Time
unfolding neg64
add_duration t d = if is_negative d then t - neg64 d else t + d

-- `time.Duration(n) * time.Hour`
unfoldable pub hours : ℕ → ℕ
unfolding mul64
hours n = mul64 n 3600000000000

-- `t.After(u)`
abbrev pub is_after : Time → Time → Bool
is_after t u = ltb u t

one_day : add_duration 5 (hours 24) ≡ 86400000000005
unfolding add_duration hours
one_day = refl

-- `t.AddDate(0, 0, days)` in UTC, where every day has 24 hours.
unfoldable pub add_days : Time → ℕ → Time
add_days t days =
    if is_negative days then t - neg64 days * 86400000000000 else t + days * 86400000000000
