-- ===== src/Xgsm/Validity.antt =====
-- xgsm.c, `xgsm_get_vt`: a validity period in minutes as one octet, against the reading of that
-- octet that GSM 03.40 (TP-VP, relative format) gives.
use trivia.Prelude.{ℕ, ◌+◌, ◌-◌, ◌*◌, ◌/◌, ◌≤◌, ◌<◌, arith, ◌⊎◌, leb, if◌then◌else◌}

unfoldable pub get_vt : ℕ → ℕ
get_vt mins =
    if leb 5 (mins / (60 * 24 * 7))
    then 192 + mins / (60 * 24 * 7)
    else if leb 2 (mins / (60 * 24))
    then 166 + mins / (60 * 24)
    else if leb (12 * 60 / 30) (mins / 30)
    then 143 + mins / 30 - 12 * 60 / 30
    else mins / 5

-- The minutes that an octet stands for.
unfoldable pub period : ℕ → ℕ
period vp =
    if leb vp 143
    then (vp + 1) * 5
    else if leb vp 167
    then 12 * 60 + (vp - 143) * 30
    else if leb vp 196
    then (vp - 166) * (60 * 24)
    else (vp - 192) * (60 * 24 * 7)

-- From 12 hours up to 31 days, but for the periods from 24 and a half hours to 2 days, the octet
-- stands for the period asked for, rounded down by less than a day.
get_vt-period :
    (mins : ℕ)
    → 12 * 60 ≤ mins
    → mins < 31 * 24 * 60
    → (mins < 24 * 60 + 30) ⊎ (2 * 24 * 60 ≤ mins)
    → (period (get_vt mins) ≤ mins) × (mins < period (get_vt mins) + 24 * 60)
unfolding get_vt period
get_vt-period mins lo hi side = ground arith

-- The octets for half hours run into those for days and weeks, and those for days into those for
-- weeks: from 24 and a half hours to 2 days, and from 31 to 35 days, the modem is told a longer
-- period than was asked for.
pub get_vt_overrun :
    (mins : ℕ)
    → ((24 * 60 + 30 ≤ mins) × (mins < 2 * 24 * 60))
      ⊎ ((31 * 24 * 60 ≤ mins) × (mins < 35 * 24 * 60))
    → mins < period (get_vt mins)
unfolding get_vt period
get_vt_overrun mins side = ground arith
