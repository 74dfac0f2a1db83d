-- ===== src/Quota/Spend/Totals.antt =====
-- The spend guard over the completions of a day.
use whatsapp_ai_bot.Prelude.{
  ℕ, ◌+◌, ◌<◌, ◌≤◌, true, false, List, [], ◌∷◌, ◌≡◌, refl, sym, ◌∙◌, ◌↔◌, arith,
}
use whatsapp_ai_bot.Floats.{Floats}
use whatsapp_ai_bot.Redis.{Redis, counter}
use whatsapp_ai_bot.Settings.{Settings}
use whatsapp_ai_bot.Quota.Spend.{Usage, read_usage, add_usage, judge_usage, completion_cost}

-- A completion: its prompt and its completion tokens.
abbrev pub Completion : Type 0
Completion = ℕ × ℕ

unfoldable pub total_tokens : List Completion → ℕ
total_tokens [] = 0
total_tokens (c ∷ cs) = total_tokens cs + (c.0 + c.1)

-- What `record_usage` writes for the completions of a day, the last of them first.
unfoldable pub record_all : Floats → Settings → ℕ → ℕ → List Completion → Redis → Redis
record_all f s day server [] r = r
record_all f s day server (c ∷ cs) r =
    (add_usage f day (completion_cost f s c.0 c.1) (c.0 + c.1) server
      (record_all f s day server cs r)).1

module _ (f : Floats) (s : Settings) (day server : ℕ) where
  spend-record_all :
      ((a b : ℕ) → a ≤ f.incr a b)
      → (cs : List Completion) (r : Redis)
      → counter day r.spend ≤ counter day (record_all f s day server cs r).spend
  unfolding record_all add_usage counter
  spend-record_all grows [] r = omega arith
  spend-record_all grows (c ∷ cs) r =
      let before = counter day (record_all f s day server cs r).spend in
      ground (arith, spend-record_all grows cs r, grows before (completion_cost f s c.0 c.1))

  tokens-record_all :
      (cs : List Completion) (r : Redis)
      → counter day (record_all f s day server cs r).tokens ≡ counter day r.tokens + total_tokens cs
  unfolding record_all total_tokens add_usage counter
  tokens-record_all [] r = omega arith
  tokens-record_all (c ∷ cs) r = ground (arith, tokens-record_all cs r)

  kill_switch-record_all :
      (cs : List Completion) (r : Redis)
      → (record_all f s day server cs r).kill_switch ≡ r.kill_switch
  unfolding record_all add_usage
  kill_switch-record_all [] r = refl
  kill_switch-record_all (c ∷ cs) r = kill_switch-record_all cs r

judge_usage_lem :
    (s : Settings) (u : Usage)
    → (judge_usage s u).is_allowed ≡ true ↔ (
        (u.killed ≡ false) × (u.spend < s.daily_spend_limit_usd) × (u.tokens < s.daily_token_limit))
unfolding judge_usage
judge_usage_lem s u = (λ h. (ground arith, ground arith, ground arith), λ h. ground arith)

-- Where `INCRBYFLOAT` by a float that is not negative never lowers a value: if the spend guard allows a
-- completion after any completions of a day, it allowed one before them (what it refuses stays refused for
-- the day), and the tokens counted before and those of the completions are together below the limit.
pub judge_usage-record_all :
    (f : Floats) (s : Settings) (day server : ℕ) (cs : List Completion) (r : Redis)
    → ((a b : ℕ) → a ≤ f.incr a b)
    → (judge_usage s (read_usage day server (record_all f s day server cs r)).0).is_allowed ≡ true
    → ((judge_usage s (read_usage day server r).0).is_allowed ≡ true)
      × (counter day r.tokens + total_tokens cs < s.daily_token_limit)
unfolding read_usage
judge_usage-record_all f s day server cs r grows passed =
    let after =
      (judge_usage_lem s (read_usage day server (record_all f s day server cs r)).0).0 passed in
    let spend = spend-record_all f s day server grows cs r in
    let tokens = tokens-record_all f s day server cs r in
    (
      (judge_usage_lem s (read_usage day server r).0).1 (
        sym (kill_switch-record_all f s day server cs r) ∙ after.0,
        omega (arith, after.1, spend),
        omega (arith, after.2, tokens),
      ),
      omega (arith, after.2, tokens),
    )
