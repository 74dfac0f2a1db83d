-- ===== src/Invites/Views.antt =====
-- What holds between the steps of `invite_after_comment` of app/services/comment_invite.py.
use whatsapp_ai_bot.Prelude.{◌≤◌, String, true, false, List, ◌≡◌, arith, Bool-cases, inl, inr}
use whatsapp_ai_bot.Store.Rows.{Db}
use whatsapp_ai_bot.Store.Messages.{reserved}
use whatsapp_ai_bot.World.{Wire}
use whatsapp_ai_bot.World.Keeps.{Durable}
use whatsapp_ai_bot.Chat.Reservation.Views.{answers}

module _ (k : String) where
  -- Before and after every invitation.
  pub record Invited (committed current : Db) (wire : List Wire) : Type 0 where
    pub stays : reserved k committed ≡ true → reserved k current ≡ true
    pub few : answers k wire ≤ 1
    pub uninvited : reserved k committed ≡ false → answers k wire ≡ 0

  -- The reservation is written, and not yet committed.
  pub record Noted (committed current : Db) (wire : List Wire) : Type 0 where
    pub here : reserved k current ≡ true
    pub invited : Invited committed current wire
    pub silent : answers k wire ≡ 0

  -- It is committed, and no call was made.
  pub record Due (committed current : Db) (wire : List Wire) : Type 0 where
    pub durable : reserved k committed ≡ true
    pub here : reserved k current ≡ true
    pub silent : answers k wire ≡ 0

  pub Invited-Durable : Durable Invited
  Invited-Durable = record {
    lost =
        λ committed current wire h. record { stays = λ e. e; few = h.few; uninvited = h.uninvited };
  }

  pub Invited-of_grown :
      (committed current after : Db) (wire : List Wire)
      → (reserved k current ≡ true → reserved k after ≡ true)
      → Invited committed current wire
      → Invited committed after wire
  Invited-of_grown committed current after wire g h = record {
    stays = λ e. g (h.stays e);
    few = h.few;
    uninvited = h.uninvited;
  }

  pub Invited-commit :
      (committed current : Db) (wire : List Wire)
      → Invited committed current wire
      → Invited current current wire
  Invited-commit committed current wire h = record {
    stays = λ e. e;
    few = h.few;
    uninvited = λ e. elim (Bool-cases (reserved k committed)) [
      | inl t ↦ absurd (cc (h.stays t, e))
      | inr f ↦ h.uninvited f
    ];
  }

  pub Due-Invited :
      (committed current : Db) (wire : List Wire)
      → Due committed current wire
      → Invited committed current wire
  Due-Invited committed current wire h = record {
    stays = λ e. h.here;
    few = omega (arith, h.silent);
    uninvited = λ e. h.silent;
  }
