-- ===== src/Redis.antt =====
-- What the program keeps in Redis: the sorted sets, blocks and counters of app/core/quota.py and
-- the cached completions of app/core/idempotency.py. A key's time to live is kept as the moment at
-- which it expires. A sorted set is the list of its members with their scores.
use whatsapp_ai_bot.Prelude.{
  ℕ, ◌+◌, String, Bool, true, false, not, ◌&&◌, List, [], ◌∷◌, Option, none, some, ◌==◌, ltb, leb,
  if◌then◌else◌, select, any, length, str_eq,
}

pub record CachedGeneration : Type 0 where
  pub text : String
  pub model : String
  pub prompt_tokens : ℕ
  pub completion_tokens : ℕ
  pub total_tokens : ℕ
  pub latency_ms : ℕ

-- `quota:msgs:<wa_id>` and `quota:dup:<wa_id>:<fingerprint>`
pub data SetKey : Type 0 where
  messages : String → SetKey
  duplicates : String → String → SetKey

pub record SortedSet : Type 0 where
  pub members : List (String × ℕ)
  pub expires : ℕ

pub record Redis : Type 0 where
  pub sets : List (SetKey × SortedSet)
  -- `quota:blocked:<wa_id>`: the moment at which the block ends
  pub blocked : List (String × ℕ)
  -- `quota:spend:<day>`, a float, and `quota:tokens:<day>`
  pub spend : List (ℕ × ℕ)
  pub tokens : List (ℕ × ℕ)
  -- `quota:alerted:<kind>:<day>`, of the kinds that were alerted
  pub alerted : List (String × ℕ)
  -- `quota:ai:disabled`
  pub kill_switch : Bool
  -- `idem:reply:<wa_message_id>`
  pub generations : List (String × CachedGeneration)

abbrev pub fresh : Redis
fresh = record {
  sets = [];
  blocked = [];
  spend = [];
  tokens = [];
  alerted = [];
  kill_switch = false;
  generations = [];
}

unfoldable pub same_key : SetKey → SetKey → Bool
same_key (messages a) (messages b) = str_eq a b
same_key (duplicates a f) (duplicates b g) = str_eq a b && str_eq f g
same_key _ _ = false

-- The members of a set at a moment: none when the key has expired or was never written.
unfoldable pub members : ℕ → SetKey → List (SetKey × SortedSet) → List (String × ℕ)
unfolding same_key
members t key [] = []
members t key ((k, z) ∷ rest) =
    let others = members t key rest in
    if same_key k key then (if leb z.expires t then [] else z.members) else others

-- A write shadows the earlier value of the key.
abbrev pub write_set : SetKey → SortedSet → Redis → Redis
write_set key z r = record r { sets = (key, z) ∷ r.sets }

-- `ZREMRANGEBYSCORE key 0 (t - window)`
unfoldable pub trim : ℕ → ℕ → List (String × ℕ) → List (String × ℕ)
trim t window = select (λ entry. ltb t (entry.1 + window))

-- `ZADD key NX`: whether the member was added, and the set.
unfoldable pub add_new : String → ℕ → List (String × ℕ) → Bool × List (String × ℕ)
add_new member score entries =
    if any (λ entry. str_eq entry.0 member) entries
    then (false, entries)
    else (true, (member, score) ∷ entries)

-- `ZCOUNT key (t - window) t`
unfoldable pub count_within : ℕ → ℕ → List (String × ℕ) → ℕ
count_within t window entries =
    length (select (λ entry. leb t (entry.1 + window) && leb entry.1 t) entries)

-- A counter of one day.
unfoldable pub counter : ℕ → List (ℕ × ℕ) → ℕ
counter day [] = 0
counter day ((d, n) ∷ rest) = let others = counter day rest in if d == day then n else others

-- A value that is kept under a text.
module _ {ℓ} {V : Type ℓ} where
  unfoldable pub value_at : String → List (String × V) → Option V
  value_at key [] = none
  value_at key ((k, v) ∷ rest) =
      let others = value_at key rest in if str_eq k key then some v else others

  unfoldable pub without : String → List (String × V) → List (String × V)
  without key = select (λ entry. not (str_eq entry.0 key))
