-- ===== src/Transfer/Stats.antt =====
-- The monthly counter (sthrip/services/agent_stats_service.py). A month is the number of its first
-- day; `month` is that of the clock.
use sthrip.Base.{ℕ, suc, ◌≡◌, Option, none, some, [], ◌∷◌, ◌==◌, ◌&&◌, if◌then◌else◌, arith}
use sthrip.Base.Action.{Action, ok}
use sthrip.Models.Parties.{AgentMonthlyStats}
use sthrip.Models.Database.{Db, MonthlyStats}

unfoldable pub find_stats : ℕ → ℕ → MonthlyStats → Option AgentMonthlyStats
find_stats a m [] = none
find_stats a m ((b, n, s) ∷ rows) = if b == a && n == m then some s else find_stats a m rows

-- The upsert: a new row counts one, and a row that is there one more.
unfoldable pub counted_once : ℕ → ℕ → ℕ → MonthlyStats → MonthlyStats
counted_once now month a [] = (a, month, record { transaction_count = 1; last_updated = now }) ∷ []
counted_once now month a ((b, n, s) ∷ rows) =
    if b == a && n == month
    then (b, n, record { transaction_count = suc s.transaction_count; last_updated = now }) ∷ rows
    else (b, n, s) ∷ counted_once now month a rows

unfoldable pub record_transaction : ℕ → ℕ → ℕ → Action Db (Unit {0})
record_transaction now month agent db =
    (ok tt, record db { monthly_stats = counted_once now month agent db.monthly_stats })

abbrev pub count_of : Option AgentMonthlyStats → ℕ
count_of none = 0
count_of (some s) = s.transaction_count

-- `get_current_month_count`
abbrev pub get_current_month_count : ℕ → ℕ → MonthlyStats → ℕ
get_current_month_count month agent rows = count_of (find_stats agent month rows)

-- A transaction counts once for its agent in its month, and for no other agent and month.
pub count-counted_once :
    (now month a j m : ℕ) (rows : MonthlyStats)
    → get_current_month_count m j (counted_once now month a rows) ≡ (
        if a == j && month == m
        then suc (get_current_month_count month a rows)
        else get_current_month_count m j rows)
unfolding find_stats counted_once
count-counted_once now month a j m [] = ground arith
count-counted_once now month a j m ((b, n, s) ∷ rows) =
    ground (arith, count-counted_once now month a j m rows)
