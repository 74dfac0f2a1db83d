-- ===== src/Quota/Customer/Recount.antt =====
-- The pipeline of `_check_customer` (app/core/quota.py) on a redelivered message.
use whatsapp_ai_bot.Prelude.{
  ℕ, ◌+◌, ◌<◌, ◌≤◌, String, Bool, true, false, ◌&&◌, List, [], ◌∷◌, ◌≡◌, refl, sym, subst, arith,
  any, select, str_eq, eq_iff, leb, All, Bool-cases, inl, inr,
}
use text.Mathlib.TextPositions.{eq_refl}
use whatsapp_ai_bot.Redis.{
  Redis, SetKey, SortedSet, messages, members, trim, add_new, same_key, write_set,
}
use whatsapp_ai_bot.Settings.{Settings}
use whatsapp_ai_bot.Quota.Customer.{count_message, count_repeats, set_block}

-- What the checks of other messages write between two deliveries of one: the count of a message, the
-- repeats of a text, and a block.
pub data QuotaStep : Type 0 where
  counted : String → String → ℕ → ℕ → QuotaStep
  repeated : String → String → String → ℕ → ℕ → QuotaStep
  blocked : String → ℕ → ℕ → QuotaStep

unfoldable pub run_step : Settings → QuotaStep → Redis → Redis
run_step s (counted wa_id member t server) r = (count_message s wa_id member t server r).1
run_step s (repeated wa_id mark member t server) r =
    (count_repeats s wa_id mark member t server r).1
run_step s (blocked wa_id seconds server) r = (set_block wa_id seconds server r).1

unfoldable pub run_steps : Settings → List QuotaStep → Redis → Redis
unfolding run_step
run_steps s [] r = r
run_steps s (step ∷ steps) r = run_steps s steps (run_step s step r)

-- A step within a day of a message that was counted at `t`, when the server's clock showed `server`.
abbrev pub Soon : ℕ → ℕ → QuotaStep → Type 0
Soon t server (counted wa_id member later later_server) =
    (later < t + 86400) × (server ≤ later_server) × (later_server < server + 86400)
Soon t server (repeated wa_id mark member later later_server) = Unit
Soon t server (blocked wa_id seconds later_server) = Unit

not_added :
    (member : String) (t : ℕ) (entries : List (String × ℕ))
    → any (λ (entry : String × ℕ). str_eq entry.0 member) entries ≡ true
    → (add_new member t entries).0 ≡ false
unfolding add_new
not_added member t entries h = rw h refl

module _ (wa_id member : String) (t server : ℕ) where
  -- An entry of the member that a trim within the day keeps.
  abbrev is_fresh : String × ℕ → Bool
  is_fresh entry = str_eq entry.0 member && leb t entry.1

  abbrev Held : Redis → Type 0
  Held r =
      (now : ℕ) → now < server + 86400 → any is_fresh (members now (messages wa_id) r.sets) ≡ true

  fresh_trim :
      (later : ℕ) (entries : List (String × ℕ))
      → later < t + 86400
      → any is_fresh entries ≡ true
      → any is_fresh (trim later 86400 entries) ≡ true
  unfolding trim select any
  fresh_trim later [] h e = e
  fresh_trim later (x ∷ xs) h e = ground (arith, h, e, fresh_trim later xs h)

  fresh_add :
      (other : String) (later : ℕ) (entries : List (String × ℕ))
      → any is_fresh entries ≡ true
      → any is_fresh (add_new other later entries).1 ≡ true
  unfolding add_new any
  fresh_add other later entries e = ground (arith, e)

  fresh_mentioned :
      (entries : List (String × ℕ))
      → any is_fresh entries ≡ true
      → any (λ (entry : String × ℕ). str_eq entry.0 member) entries ≡ true
  unfolding any
  fresh_mentioned [] e = e
  fresh_mentioned (x ∷ xs) e = ground (arith, e, fresh_mentioned xs)

  -- A write of the customer's set that holds the entry long enough.
  written-Held :
      (z : SortedSet) (r : Redis)
      → any is_fresh z.members ≡ true
      → server + 86400 ≤ z.expires
      → Held (write_set (messages wa_id) z r)
  unfolding members same_key
  written-Held z r e long now soon =
      let alive : leb z.expires now ≡ false = ground (arith, long, soon) in
      rw (eq_refl wa_id, alive) e

  other-Held :
      (key : SetKey) (z : SortedSet) (r : Redis)
      → same_key key (messages wa_id) ≡ false
      → Held r
      → Held (write_set key z r)
  unfolding members
  other-Held key z r e h now soon = rw e (h now soon)

  counted-Held :
      (s : Settings) (m : String) (later now : ℕ) (r : Redis)
      → Soon t server (counted wa_id m later now)
      → Held r
      → Held (count_message s wa_id m later now r).1
  unfolding count_message
  counted-Held s m later now r k h =
      written-Held
        (record {
          members = (add_new m later (trim later 86400 (members now (messages wa_id) r.sets))).1;
          expires = now + 86400;
        })
        r (fresh_add m later _ (fresh_trim later _ k.0 (h now k.2))) (omega (arith, k.1))

  step-Held :
      (s : Settings) (step : QuotaStep) (r : Redis)
      → Soon t server step
      → Held r
      → Held (run_step s step r)
  unfolding run_step count_message count_repeats set_block same_key
  step-Held s (repeated w mark m later now') r k h = other-Held _ _ r refl h
  step-Held s (blocked w seconds now') r k h = h
  step-Held s (counted w m later now') r k h = elim (Bool-cases (str_eq w wa_id)) [
    | inl same ↦
        subst (λ x. Held (count_message s x m later now' r).1) (sym ((eq_iff w wa_id).0 same))
          (counted-Held s m later now' r k h)
    | inr apart ↦ other-Held (messages w) _ r apart h
  ]

  steps-Held :
      (s : Settings) (steps : List QuotaStep) (r : Redis)
      → All (Soon t server) steps
      → Held r
      → Held (run_steps s steps r)
  unfolding run_steps
  steps-Held s [] r k h = h
  steps-Held s (step ∷ steps) r k h =
      steps-Held s steps (run_step s step r) k.1 (step-Held s step r k.0 h)

  added_fresh :
      (entries : List (String × ℕ))
      → (add_new member t entries).0 ≡ true
      → any is_fresh (add_new member t entries).1 ≡ true
  unfolding add_new any
  added_fresh entries a = ground (arith, a, eq_refl member)

  first-Held :
      (s : Settings) (r : Redis)
      → (count_message s wa_id member t server r).0.added ≡ true
      → Held (count_message s wa_id member t server r).1
  unfolding count_message
  first-Held s r a =
      written-Held
        (record {
          members = (add_new member t (trim t 86400 (members server (messages wa_id) r.sets))).1;
          expires = server + 86400;
        })
        r (added_fresh (trim t 86400 (members server (messages wa_id) r.sets)) a) (omega arith)

-- A delivery of a message that was counted as new, repeated within a day of it, is not counted again,
-- whatever the checks of other messages (of this customer or of others) counted and blocked in
-- between within that day; an operator's unblocking, which forgets the messages, is not among them.
pub count_message_again :
    (s : Settings) (wa_id member : String) (t server later later_server : ℕ)
    (steps : List QuotaStep) (r : Redis)
    → (count_message s wa_id member t server r).0.added ≡ true
    → All (Soon t server) steps
    → later < t + 86400
    → later_server < server + 86400
    → (count_message s wa_id member later later_server
        (run_steps s steps (count_message s wa_id member t server r).1)).0.added
      ≡ false
unfolding count_message
count_message_again s wa_id member t server later later_server steps r a k h now =
    let first = (count_message s wa_id member t server r).1 in
    let held =
      steps-Held wa_id member t server s steps first k (first-Held wa_id member t server s r a) in
    let kept = fresh_trim wa_id member t server later _ h (held later_server now) in
    not_added member later _ (fresh_mentioned wa_id member t server _ kept)
