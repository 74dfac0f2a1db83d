-- ===== src/Quota/Customer/Limits.antt =====
-- The decisions of `_check_customer` (app/core/quota.py) against the counts.
use whatsapp_ai_bot.Prelude.{
  ℕ, suc, ◌+◌, ◌≤◌, String, Bool, true, false, not, ◌&&◌, Option, none, some, ◌≡◌, refl, ap, subst,
  arith, ltb, leb, any, select, List, [], ◌∷◌, ◌∙◌, Bool-cases, inl, inr, ltb_false→le, length,
  if◌then◌else◌, str_eq,
}
use whatsapp_ai_bot.Redis.{Redis, messages, members, trim, add_new, count_within}
use whatsapp_ai_bot.Settings.{Settings}
use whatsapp_ai_bot.World.{M, World, Outside, Outcome, ok, raise}
use whatsapp_ai_bot.World.Effects.{◌>>=◌, pure, continue, redis, die}
use whatsapp_ai_bot.Quota.Types.{QuotaDecision, Text}
use whatsapp_ai_bot.Quota.Customer.{
  Counts, check_counts, check_repeats, check_rates, count_message, count_and_check,
}

-- The counts are within the limits of the settings.
abbrev pub Within : Settings → Counts → Type 0
Within s n =
    (n.burst ≤ s.flood_burst_messages)
    × (n.per_minute ≤ s.customer_limit_per_minute)
    × (n.per_hour ≤ s.customer_limit_per_hour)
    × (n.per_day ≤ s.customer_limit_per_day)

-- A decision that is returned satisfies a predicate.
abbrev pub Decides : (QuotaDecision → Type 0) → Outcome QuotaDecision × World → Type 0
Decides Q (ok d, w) = Q d
Decides Q (raise e, w) = Unit

module _ (Q : QuotaDecision → Type 0) where
  Decides-continue :
      {A : Type 0} (r : Outcome A) (k : A → M QuotaDecision) (w : World)
      → ((a : A) (u : World) → Decides Q (k a u))
      → Decides Q (continue r k w)
  Decides-continue (ok a) k w h = h a w
  Decides-continue (raise e) k w h = tt

  Decides-bind :
      {A : Type 0} (m : M A) (k : A → M QuotaDecision) (w : World)
      → ((a : A) (u : World) → Decides Q (k a u))
      → Decides Q ((m >>= k) w)
  unfolding ◌>>=◌
  Decides-bind m k w h = Decides-continue (m w).0 k (m w).1 h

  Decides-if :
      (b : Bool) (m n : M QuotaDecision) (w : World)
      → (b ≡ true → Decides Q (m w))
      → (b ≡ false → Decides Q (n w))
      → Decides Q ((if b then m else n) w)
  Decides-if true m n w hm hn = hm refl
  Decides-if false m n w hm hn = hn refl

  pure_if : (b : Bool) (x y : QuotaDecision) → Q x → Q y → Q (if b then x else y)
  pure_if true x y hx hy = hx
  pure_if false x y hx hy = hy

Decides-map :
    (Q R : QuotaDecision → Type 0) (r : Outcome QuotaDecision × World)
    → ((d : QuotaDecision) → Q d → R d)
    → Decides Q r
    → Decides R r
Decides-map Q R (ok d, w) f h = f d h
Decides-map Q R (raise e, w) f h = tt

check_rates_lem :
    (s : Settings) (n : Counts)
    → n.burst ≤ s.flood_burst_messages
    → (check_rates s n).is_allowed ≡ true
    → Within s n
unfolding check_rates
check_rates_lem s n b h = (b, ground arith, ground arith, ground arith)

module _ (o : Outside) (s : Settings) (x : Text) (wa_id member : String) (t : ℕ) (n : Counts) where
  abbrev Passed : QuotaDecision → Type 0
  Passed d = d.is_allowed ≡ true → Within s n

  repeats-Within :
      (text : Option String) (w : World)
      → n.burst ≤ s.flood_burst_messages
      → Decides Passed (check_repeats o s x wa_id member text t n w)
  unfolding check_repeats pure
  repeats-Within none w b = check_rates_lem s n b
  repeats-Within (some text) w b =
      Decides-if Passed (str_eq text "") _ _ w (λ e. check_rates_lem s n b)
        (λ e. Decides-bind Passed _ _ w (λ repeats u.
          pure_if Passed (ltb s.duplicate_message_limit repeats) _ _ (λ f. absurd (cc f))
            (check_rates_lem s n b)))

Decides-Within :
    (o : Outside) (s : Settings) (x : Text) (wa_id member : String) (text : Option String) (t : ℕ)
    (n : Counts) (w : World)
    → n.added ≡ true
    → Decides (Passed o s x wa_id member t n) (check_counts o s x wa_id member text t n w)
unfolding check_counts pure
Decides-Within o s x wa_id member text t n w new =
    Decides-if _ (not n.added) _ _ w (λ e. absurd (cc (ap not new, e)))
      (λ e.
        Decides-if _ (ltb s.flood_burst_messages n.burst) _ _ w
          (λ flood. Decides-bind _ _ _ w (λ a u f. absurd (cc f)))
          (λ calm. repeats-Within o s x wa_id member t n text w (ltb_false→le _ _ calm)))

-- The messages of the customer that Redis holds.
abbrev pub log_of : String → ℕ → Redis → List (String × ℕ)
log_of wa_id server r = members server (messages wa_id) r.sets

-- How many messages of a log are of the last seconds, and of the last day.
unfoldable pub heard : ℕ → ℕ → List (String × ℕ) → ℕ
heard t seconds [] = 0
heard t seconds ((member, sent) ∷ log) =
    let rest = heard t seconds log in
    if ltb t (sent + 86400) && leb t (sent + seconds) && leb sent t then suc rest else rest

-- The message is not among those of the last day.
abbrev pub is_new : String → ℕ → List (String × ℕ) → Bool
is_new member t log = not (any (λ (x : String × ℕ). str_eq x.0 member && ltb t (x.1 + 86400)) log)

-- With the message itself, the log is within the limits of the settings.
abbrev pub LogWithin : Settings → ℕ → List (String × ℕ) → Type 0
LogWithin s t log =
    (suc (heard t s.flood_burst_seconds log) ≤ s.flood_burst_messages)
    × (suc (heard t 60 log) ≤ s.customer_limit_per_minute)
    × (suc (heard t 3600 log) ≤ s.customer_limit_per_hour)
    × (suc (heard t 86400 log) ≤ s.customer_limit_per_day)

new_trim :
    (member : String) (t : ℕ) (log : List (String × ℕ))
    → any (λ (x : String × ℕ). str_eq x.0 member) (trim t 86400 log)
      ≡ any (λ (x : String × ℕ). str_eq x.0 member && ltb t (x.1 + 86400)) log
unfolding any trim select
new_trim member t [] = refl
new_trim member t (x ∷ log) = ground (arith, new_trim member t log)

counted_trim :
    (t seconds : ℕ) (log : List (String × ℕ))
    → count_within t seconds (trim t 86400 log) ≡ heard t seconds log
unfolding count_within trim select heard
counted_trim t seconds [] = refl
counted_trim t seconds (x ∷ log) = ground (arith, counted_trim t seconds log)

counted_with :
    (member : String) (t seconds : ℕ) (log : List (String × ℕ))
    → count_within t seconds ((member, t) ∷ trim t 86400 log) ≡ suc (heard t seconds log)
unfolding count_within select
counted_with member t seconds log =
    let before : length
          (select (λ (x : String × ℕ). leb t (x.1 + seconds) && leb x.1 t) (trim t 86400 log))
        ≡ heard t seconds log =
      counted_trim t seconds log in
    ground (arith, before)

counted_new :
    (member : String) (t seconds : ℕ) (log : List (String × ℕ))
    → is_new member t log ≡ true
    → ((add_new member t (trim t 86400 log)).0 ≡ true)
      × (count_within t seconds (add_new member t (trim t 86400 log)).1 ≡ suc (heard t seconds log))
unfolding add_new
counted_new member t seconds log new =
    let apart : any (λ (x : String × ℕ). str_eq x.0 member) (trim t 86400 log) ≡ false =
      new_trim member t log ∙ ground (arith, new) in
    rw apart (refl, counted_with member t seconds log)

module _ (o : Outside) (s : Settings) (x : Text) (wa_id member : String) (text : Option String)
    (t : ℕ) (w : World) where
  abbrev log : List (String × ℕ)
  log = log_of wa_id (o.clock w.tick) w.redis

  abbrev Kept : QuotaDecision → Type 0
  Kept d = d.is_allowed ≡ true → LogWithin s t log

  -- The limits on the counts are limits on the log.
  Within-log :
      is_new member t log ≡ true
      → ((count_message s wa_id member t (o.clock w.tick) w.redis).0.added ≡ true)
        × (Within s (count_message s wa_id member t (o.clock w.tick) w.redis).0 → LogWithin s t log)
  unfolding count_message
  Within-log new =
      let burst = counted_new member t s.flood_burst_seconds log new in
      let minute = counted_new member t 60 log new in
      let hour = counted_new member t 3600 log new in
      let day = counted_new member t 86400 log new in
      (
        burst.0,
        λ h. (
          omega (arith, h.0, burst.1),
          omega (arith, h.1, minute.1),
          omega (arith, h.2, hour.1),
          omega (arith, h.3, day.1),
        ),
      )

  Decides-Kept :
      is_new member t log ≡ true → Decides Kept (count_and_check o s x wa_id member text t w)
  unfolding count_and_check redis ◌>>=◌ die
  Decides-Kept new = elim (Bool-cases (o.dies w.tick)) [
    | inl dead ↦ rw dead tt
    | inr live ↦ elim (Bool-cases (o.redis_fails w.tick)) [
      | inl down ↦ rw (live, down) tt
      | inr up ↦
          rw (live, up)
            (let (added, limits) = Within-log new in
              Decides-map
                (Passed o s x wa_id member t
                  (count_message s wa_id member t (o.clock w.tick) w.redis).0)
                Kept _ (λ d h e. limits (h e))
                (Decides-Within o s x wa_id member text t
                  (count_message s wa_id member t (o.clock w.tick) w.redis).0 _ added))
    ]
  ]

-- A message that is not among those that Redis holds of the customer's last day is allowed by the count
-- and the checks after it only when, the message itself included, the messages of the burst, of the last
-- minute, hour and day are no more than the settings allow.
pub count_and_check-LogWithin :
    (o : Outside) (s : Settings) (x : Text) (wa_id member : String) (text : Option String) (t : ℕ)
    (w after : World) (d : QuotaDecision)
    → is_new member t (log_of wa_id (o.clock w.tick) w.redis) ≡ true
    → count_and_check o s x wa_id member text t w ≡ (ok d, after)
    → d.is_allowed ≡ true
    → LogWithin s t (log_of wa_id (o.clock w.tick) w.redis)
count_and_check-LogWithin o s x wa_id member text t w after d new e passed =
    subst (Decides (Kept o s x wa_id member text t w)) e
      (Decides-Kept o s x wa_id member text t w new) passed
