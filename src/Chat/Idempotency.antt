-- ===== src/Chat/Idempotency.antt =====
-- app/core/idempotency.py: the cached completion of an inbound message. An entry is kept as the
-- record, not as its JSON text, and does not expire. Every failure of Redis is passed over.
use whatsapp_ai_bot.Prelude.{ℕ, String, ◌∷◌, Option, none, if◌then◌else◌, str_eq}
use whatsapp_ai_bot.Redis.{Redis, CachedGeneration, value_at, without}
use whatsapp_ai_bot.World.{M, Outside}
use whatsapp_ai_bot.World.Effects.{pure, catch, redis}
use whatsapp_ai_bot.Quota.Spend.{passed_over}

unfoldable pub read_generation : String → ℕ → Redis → Option CachedGeneration × Redis
read_generation id server r = (value_at id r.generations, r)

unfoldable pub write_generation : String → CachedGeneration → ℕ → Redis → Unit {0} × Redis
write_generation id g server r = (tt, record r { generations = (id, g) ∷ r.generations })

unfoldable pub delete_generation : String → ℕ → Redis → Unit {0} × Redis
delete_generation id server r = (tt, record r { generations = without id r.generations })

module _ (o : Outside) where
  unfoldable pub get_cached_generation : String → M (Option CachedGeneration)
  get_cached_generation id =
      if str_eq id "" then pure none else catch (redis o (read_generation id)) (passed_over none)

  unfoldable pub store_generation : String → CachedGeneration → M (Unit {0})
  store_generation id g =
      if str_eq id "" then pure tt else catch (redis o (write_generation id g)) (passed_over tt)

  unfoldable pub clear_generation : String → M (Unit {0})
  clear_generation id =
      if str_eq id "" then pure tt else catch (redis o (delete_generation id)) (passed_over tt)
