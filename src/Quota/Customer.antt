-- ===== src/Quota/Customer.antt =====
-- `_check_customer` of app/core/quota.py.
pub mod Recount
pub mod Limits
use whatsapp_ai_bot.Prelude.{
  ℕ, ◌+◌, ◌-◌, ◌≤◌, String, Bool, true, false, not, ◌||◌, List, [], ◌∷◌, Option, none, some, ◌==◌,
  ltb, leb, if◌then◌else◌, str_eq,
}
use whatsapp_ai_bot.Redis.{
  Redis, SetKey, messages, duplicates, members, write_set, trim, add_new, count_within, value_at,
}
use whatsapp_ai_bot.Settings.{Settings}
use whatsapp_ai_bot.World.{M, Outside}
use whatsapp_ai_bot.World.Effects.{pure, ◌>>=◌, now, redis}
use whatsapp_ai_bot.Quota.Types.{
  QuotaDecision, allowed, refusal, rate_limited, flooding, spamming, blocked, Text,
}

pub record Counts : Type 0 where
  pub added : Bool
  pub burst : ℕ
  pub per_minute : ℕ
  pub per_hour : ℕ
  pub per_day : ℕ

abbrev pub seconds_left : ℕ → Option ℕ → ℕ
seconds_left server none = 0
seconds_left server (some ends) = ends - server

-- `TTL quota:blocked:<wa_id>`: the seconds that are left, 0 when there is no block.
unfoldable pub block_left : String → ℕ → Redis → ℕ × Redis
block_left wa_id server r = (seconds_left server (value_at wa_id r.blocked), r)

-- The pipeline over `quota:msgs:<wa_id>`, for a message at `t`.
unfoldable pub count_message : Settings → String → String → ℕ → ℕ → Redis → Counts × Redis
count_message s wa_id member t server r =
    let kept = trim t 86400 (members server (messages wa_id) r.sets) in
    let (added, entries) = add_new member t kept in
    (
      record {
        added = added;
        burst = count_within t s.flood_burst_seconds entries;
        per_minute = count_within t 60 entries;
        per_hour = count_within t 3600 entries;
        per_day = count_within t 86400 entries;
      },
      write_set (messages wa_id) (record { members = entries; expires = server + 86400 }) r,
    )

-- `SETEX quota:blocked:<wa_id> seconds`
unfoldable pub set_block : String → ℕ → ℕ → Redis → Unit {0} × Redis
set_block wa_id seconds server r =
    (tt, record r { blocked = (wa_id, server + seconds) ∷ r.blocked })

-- The pipeline over `quota:dup:<wa_id>:<fingerprint>`: the repeats of the last 60 seconds.
unfoldable pub count_repeats : Settings → String → String → String → ℕ → ℕ → Redis → ℕ × Redis
count_repeats s wa_id mark member t server r =
    let key = duplicates wa_id mark in
    let kept = trim t s.duplicate_message_window_seconds (members server key r.sets) in
    let entries = (add_new member t kept).1 in
    (
      count_within t 60 entries,
      write_set key
          (record { members = entries; expires = server + s.duplicate_message_window_seconds }) r,
    )

-- The loop over the minute, the hour and the day.
unfoldable pub check_rates : Settings → Counts → QuotaDecision
check_rates s n =
    if ltb s.customer_limit_per_minute n.per_minute
    then refusal rate_limited (n.per_minute == s.customer_limit_per_minute + 1) (some 60)
    else if ltb s.customer_limit_per_hour n.per_hour
    then refusal rate_limited (n.per_hour == s.customer_limit_per_hour + 1) (some 3600)
    else if ltb s.customer_limit_per_day n.per_day
    then refusal rate_limited (n.per_day == s.customer_limit_per_day + 1) (some 86400)
    else allowed

-- `already_refused`
unfoldable pub over_a_limit : Settings → Counts → Bool
over_a_limit s n =
    ltb s.customer_limit_per_minute n.per_minute
    || ltb s.customer_limit_per_hour n.per_hour
    || ltb s.customer_limit_per_day n.per_day

module _ (o : Outside) (s : Settings) (x : Text) where
  -- The spam check and the ordinary limits.
  unfoldable pub check_repeats : String → String → Option String → ℕ → Counts → M QuotaDecision
  check_repeats wa_id member none t n = pure (check_rates s n)
  check_repeats wa_id member (some text) t n = if str_eq text "" then pure (check_rates s n) else do
    repeats ← redis o (count_repeats s wa_id (x.fingerprint text) member t)
    pure (
        if ltb s.duplicate_message_limit repeats
        then refusal spamming true (some s.abuse_block_seconds)
        else check_rates s n)

  -- What follows the counting.
  unfoldable pub check_counts : String → String → Option String → ℕ → Counts → M QuotaDecision
  check_counts wa_id member text t n =
      if not n.added
      then pure allowed
      else if ltb s.flood_burst_messages n.burst
      then (do
        blocked_now ← redis o (set_block wa_id s.abuse_block_seconds)
        pure (refusal flooding (not (over_a_limit s n)) (some s.abuse_block_seconds)))
      else check_repeats wa_id member text t n

  -- The member of the sorted sets: `wa_message_id or f"t{now}"`.
  unfoldable pub member_of : String → ℕ → String
  member_of wa_message_id t = if str_eq wa_message_id "" then x.stamp t else wa_message_id

  unfoldable pub count_and_check : String → String → Option String → ℕ → M QuotaDecision
  count_and_check wa_id member text t = do
    n ← redis o (count_message s wa_id member t)
    check_counts wa_id member text t n

  unfoldable pub check_customer : String → String → Option String → M QuotaDecision
  check_customer wa_id wa_message_id text = do
    t ← now o
    left ← redis o (block_left wa_id)
    if ltb 0 left
        then pure (refusal blocked false (some left))
        else count_and_check wa_id (member_of wa_message_id t) text t
