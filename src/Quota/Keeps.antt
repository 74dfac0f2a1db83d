-- ===== src/Quota/Keeps.antt =====
-- The quota touches only Redis: it keeps every view of the database and of the sends.
use whatsapp_ai_bot.Prelude.{ℕ, String, true, List, [], ◌∷◌, Option, none, some}
use whatsapp_ai_bot.Redis.{Redis}
use whatsapp_ai_bot.Settings.{Settings}
use whatsapp_ai_bot.World.{Fault, external_service, redis_down, killed, Outside}
use whatsapp_ai_bot.World.Effects.{redis, catch}
use whatsapp_ai_bot.World.Keeps.{
  View, Keeps, Durable, Keeps-pure, Keeps-throw, Keeps-bind, Keeps-catch, Keeps-if, Keeps-now,
  Keeps-redis,
}
use whatsapp_ai_bot.Quota.Types.{Text}
use whatsapp_ai_bot.Quota.Spend.{passed_over, alert_once, alert_all, check_spend, record_usage}
use whatsapp_ai_bot.Quota.Customer.{
  Counts, check_repeats, check_counts, count_and_check, check_customer,
}
use whatsapp_ai_bot.Quota.Check.{check_limits, check_guarded, check}

module _ {P : View} where
  pub Keeps-passed_over : {A : Type 0} (a : A) (e : Fault) → Keeps P (passed_over a e)
  Keeps-passed_over a external_service = Keeps-pure a
  Keeps-passed_over a redis_down = Keeps-pure a
  Keeps-passed_over a killed = Keeps-throw killed

module _ {P : View} (d : Durable P) (o : Outside) where
  pub Keeps-attempt :
      {A : Type 0} (f : ℕ → Redis → A × Redis) (a : A) → Keeps P (catch (redis o f) (passed_over a))
  Keeps-attempt f a = Keeps-catch _ _ (Keeps-redis d o f) (Keeps-passed_over a)

  Keeps-alert_all : (kinds : List String) (day : ℕ) → Keeps P (alert_all o kinds day)
  unfolding alert_all alert_once
  Keeps-alert_all [] day = Keeps-pure tt
  Keeps-alert_all (kind ∷ kinds) day =
      Keeps-bind _ _ (Keeps-attempt _ true) (λ first. Keeps-alert_all kinds day)

  Keeps-check_spend : (s : Settings) → Keeps P (check_spend o s)
  unfolding check_spend
  Keeps-check_spend s = Keeps-bind _ _ (Keeps-now d o) (λ t.
      Keeps-bind _ _ (Keeps-redis d o _)
        (λ u. Keeps-bind _ _ (Keeps-alert_all _ _) (λ a. Keeps-pure _)))

  pub Keeps-record_usage : (s : Settings) (p c : ℕ) → Keeps P (record_usage o s p c)
  unfolding record_usage
  Keeps-record_usage s p c =
      Keeps-if _ _ _
        (Keeps-if _ _ _ (Keeps-pure tt) (Keeps-bind _ _ (Keeps-now d o) (λ t. Keeps-attempt _ tt)))
        (Keeps-pure tt)

  module _ (s : Settings) (x : Text) where
    Keeps-check_repeats :
        (wa_id member : String) (text : Option String) (t : ℕ) (n : Counts)
        → Keeps P (check_repeats o s x wa_id member text t n)
    unfolding check_repeats
    Keeps-check_repeats wa_id member none t n = Keeps-pure _
    Keeps-check_repeats wa_id member (some text) t n =
        Keeps-if _ _ _ (Keeps-pure _) (Keeps-bind _ _ (Keeps-redis d o _) (λ r. Keeps-pure _))

    Keeps-check_counts :
        (wa_id member : String) (text : Option String) (t : ℕ) (n : Counts)
        → Keeps P (check_counts o s x wa_id member text t n)
    unfolding check_counts
    Keeps-check_counts wa_id member text t n = Keeps-if _ _ _ (Keeps-pure _) (
        Keeps-if _ _ _ (Keeps-bind _ _ (Keeps-redis d o _) (λ r. Keeps-pure _))
          (Keeps-check_repeats wa_id member text t n))

    Keeps-check_customer :
        (wa_id id : String) (text : Option String) → Keeps P (check_customer o s x wa_id id text)
    unfolding check_customer count_and_check
    Keeps-check_customer wa_id id text = Keeps-bind _ _ (Keeps-now d o) (λ t.
        Keeps-bind _ _ (Keeps-redis d o _) (λ left.
          Keeps-if _ _ _ (Keeps-pure _)
            (Keeps-bind _ _ (Keeps-redis d o _) (λ n. Keeps-check_counts wa_id _ text t n))))

    Keeps-check_limits :
        (wa_id id : String) (text : Option String) → Keeps P (check_limits o s x wa_id id text)
    unfolding check_limits
    Keeps-check_limits wa_id id text =
        Keeps-if _ _ _ (Keeps-check_customer wa_id id text) (Keeps-pure _)

    pub Keeps-check :
        (wa_id id : String) (text : Option String) → Keeps P (check o s x wa_id id text)
    unfolding check check_guarded
    Keeps-check wa_id id text = Keeps-if _ _ _ (Keeps-pure _) (
        Keeps-catch _ _
          (Keeps-if _ _ _
            (Keeps-bind _ _ (Keeps-check_spend s)
              (λ decision. Keeps-if _ _ _ (Keeps-check_limits wa_id id text) (Keeps-pure _)))
            (Keeps-check_limits wa_id id text))
          (Keeps-passed_over _))
