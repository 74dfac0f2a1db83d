-- ===== src/Sessions/Goodbye.antt =====
-- The goodbyes to one session over sequences of sweeps, for
-- app/services/session_service.py: what holds between the steps of `close_idle_sessions`.
pub mod Rows
pub mod Steps
pub mod Once
use whatsapp_ai_bot.Prelude.{
  ℕ, suc, ◌+◌, ◌≤◌, String, Bool, true, false, ◌&&◌, List, [], ◌∷◌, Option, none, some, ◌==◌, ◌≡◌,
  refl, arith, select, any, length, if◌then◌else◌,
}
use whatsapp_ai_bot.Store.Rows.{Db}
use whatsapp_ai_bot.Store.Conversations.{is_null}
use whatsapp_ai_bot.Store.Users.{IdleSession}
use whatsapp_ai_bot.World.{Wire}
use whatsapp_ai_bot.World.Effects.{wire_of}

abbrev pub says_goodbye : ℕ → Option ℕ → Bool
says_goodbye i none = false
says_goodbye i (some j) = j == i

-- The calls that were made to say goodbye to the session.
unfoldable pub goodbyes : ℕ → List Wire → ℕ
goodbyes i wire = length (select (λ x. says_goodbye i x.closing) wire)

-- The rows with this id.
unfoldable pub rows_of : ℕ → Db → ℕ
rows_of i db = length (select (λ c. c.id == i) db.conversations)

-- A row with this id carries no claim.
unfoldable pub unmarked : ℕ → Db → Bool
unmarked i db = any (λ c. c.id == i && is_null c.closing_sent_at) db.conversations

-- The sessions with this id that are still to be finished.
unfoldable pub remaining : ℕ → List IdleSession → ℕ
remaining i targets = length (select (λ t. t.conversation_id == i) targets)

module _ (i : ℕ) where
  -- With the claim of `n` goodbyes committed.
  pub record Left (n : ℕ) (committed current : Db) (wire : List Wire) : Type 0 where
    pub single_committed : rows_of i committed ≤ 1
    pub single : rows_of i current ≤ 1
    pub few : n + goodbyes i wire ≤ 1
    pub held : 1 ≤ n + goodbyes i wire → unmarked i committed ≡ false
    pub here : 1 ≤ n + goodbyes i wire → unmarked i current ≡ false

  -- With the claim of `n` goodbyes written, and not yet committed.
  pub record Taken (n : ℕ) (committed current : Db) (wire : List Wire) : Type 0 where
    pub single_committed : rows_of i committed ≤ 1
    pub single : rows_of i current ≤ 1
    pub few : n + goodbyes i wire ≤ 1
    pub held : 1 ≤ goodbyes i wire → unmarked i committed ≡ false
    pub here : 1 ≤ n + goodbyes i wire → unmarked i current ≡ false

  -- A lost transaction, or a lost goodbye, leaves the session claimed.
  pub Left-lost :
      (n : ℕ) (committed current : Db) (wire : List Wire)
      → Left n committed current wire
      → Left 0 committed committed wire
  Left-lost n committed current wire h = record {
    single_committed = h.single_committed;
    single = h.single_committed;
    few = omega (arith, h.few);
    held = λ e. h.held (omega (arith, e));
    here = λ e. h.held (omega (arith, e));
  }

  pub Taken-lost :
      (n : ℕ) (committed current : Db) (wire : List Wire)
      → Taken n committed current wire
      → Left 0 committed committed wire
  Taken-lost n committed current wire h = record {
    single_committed = h.single_committed;
    single = h.single_committed;
    few = omega (arith, h.few);
    held = λ e. h.held (omega (arith, e));
    here = λ e. h.held (omega (arith, e));
  }

  pub Left-fewer :
      (n k : ℕ) (committed current : Db) (wire : List Wire)
      → k ≤ n
      → Left n committed current wire
      → Left k committed current wire
  Left-fewer n k committed current wire le h = record {
    single_committed = h.single_committed;
    single = h.single;
    few = omega (arith, h.few);
    held = λ e. h.held (omega (arith, e));
    here = λ e. h.here (omega (arith, e));
  }

  pub Taken-commit :
      (n : ℕ) (committed current : Db) (wire : List Wire)
      → Taken n committed current wire
      → Left n current current wire
  Taken-commit n committed current wire h = record {
    single_committed = h.single;
    single = h.single;
    few = h.few;
    held = h.here;
    here = h.here;
  }

  pub Left-commit :
      (n : ℕ) (committed current : Db) (wire : List Wire)
      → Left n committed current wire
      → Left n current current wire
  Left-commit n committed current wire h = record {
    single_committed = h.single;
    single = h.single;
    few = h.few;
    held = h.here;
    here = h.here;
  }

  -- A statement that keeps the ids and the claims.
  pub Left-of_kept :
      (n : ℕ) (committed current after : Db) (wire : List Wire)
      → rows_of i after ≡ rows_of i current
      → unmarked i after ≡ unmarked i current
      → Left n committed current wire
      → Left n committed after wire
  Left-of_kept n committed current after wire same claims h = record {
    single_committed = h.single_committed;
    single = omega (arith, same, h.single);
    few = h.few;
    held = h.held;
    here = λ e. cc (claims, h.here e);
  }

  -- A goodbye uses up one of those that are left.
  pub Left-sent :
      (n j : ℕ) (taken : Bool) (recipient text : String) (committed current : Db) (wire : List Wire)
      → Left ((if j == i then 1 else 0) + n) committed current wire
      → Left n committed current (wire_of taken recipient text none (some j) ∷ wire)
  unfolding goodbyes select
  Left-sent n j taken recipient text committed current wire h = record {
    single_committed = h.single_committed;
    single = h.single;
    few = ground (arith, h.few);
    held = λ e. ground (arith, e, h.held);
    here = λ e. ground (arith, e, h.here);
  }
