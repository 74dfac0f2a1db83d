-- ===== src/Examples/Accounts.antt =====
-- Sessions of operators, and invitations after a comment, at concrete inputs.
use whatsapp_ai_bot.Prelude.{
  ℕ, ◌≤◌, true, false, List, [], ◌∷◌, none, some, ◌≡◌, refl, arith, any, select, find, str_eq,
  update_where,
}
use whatsapp_ai_bot.Store.Messages.{reserved}
use whatsapp_ai_bot.Channels.{facebook_comment}
use whatsapp_ai_bot.Chat.Reservation.Views.{answers}
use whatsapp_ai_bot.Webhook.{InboundEvent}
use whatsapp_ai_bot.Auth.{
  Accounts, Crypto, Call, login_call, resolve_call, purge_call, login, resolve, revoke, run_calls,
  start_session, can_log_in, get_by_username,
}
use whatsapp_ai_bot.Auth.Revocation.{sessions_of, revoked_never_resolves}
use whatsapp_ai_bot.Auth.Lifecycle.{
  TokenCall, log_in, use_token, log_out, ended, token_state, run_token_calls, run_token_call,
  follow, next_state, admitted, answer,
}
use whatsapp_ai_bot.Auth.Lifecycle.Runs.{token_lifecycle}
use whatsapp_ai_bot.Invites.{Inviter, reservation_key, invite_attempts}
use whatsapp_ai_bot.Invites.Once.{invite_attempts_once}
use whatsapp_ai_bot.Examples.{service, killed_at, start}
use whatsapp_ai_bot.Examples.Sweeps.{channels, same_text}

abbrev crypto : Crypto
crypto = record {
  hash_token = λ t. t;
  hash_password = λ p. p;
  verify_password = str_eq;
  dummy_hash = "dummy";
  unusable_password_hash = "!";
}

-- Omar is logged in with a token.
abbrev logged_in : Accounts
logged_in =
    (login crypto 1000 "token1" "omar" "secret" (record {
      operators =
          record {
            id = 1;
            username = "omar";
            display_name = "Omar";
            password_hash = "secret";
            is_active = true;
            is_admin = false;
            last_login_at = none;
          }
          ∷ [];
      sessions = [];
      next_operator = 2;
      next_session = 1;
    })).1

-- He logs in again, and the first token is tried.
abbrev later_calls : List Call
later_calls =
    login_call 1200 "token2" "omar" "secret" ∷ resolve_call 1300 "token1" ∷ purge_call 90000 ∷ []

revoked_never_resolves_example :
    (resolve crypto 1400 "token1"
      (run_calls crypto later_calls (revoke crypto 1100 "token1" logged_in).1)).0
    ≡ none
unfolding sessions_of login get_by_username can_log_in start_session select find any
revoked_never_resolves_example =
    revoked_never_resolves crypto "token1" 1100 later_calls 1400 logged_in refl (omega arith)
      (refl, (tt, (tt, tt)))

-- He uses his token, logs out, and the token is given out once more.
abbrev token_calls : List TokenCall
token_calls = use_token 1100 ∷ log_out 1200 ∷ log_in 1300 "omar" "secret" ∷ []

token_lifecycle_example :
    (token_state "token1" (run_token_calls crypto "token1" token_calls logged_in) ≡ ended 44200)
    × ((resolve crypto 1400 "token1" (run_token_calls crypto "token1" token_calls logged_in)).0
        ≡ none)
unfolding sessions_of login get_by_username can_log_in start_session select find any follow
    next_state admitted answer token_state run_token_call resolve revoke update_where
token_lifecycle_example =
    token_lifecycle crypto "token1" token_calls 1400 logged_in refl (omega arith)

abbrev comment : InboundEvent
comment = record {
  sender_id = "301";
  provider_message_id = "comment1";
  kind = "text";
  sender_name = some "Mona";
  text = some "How much is it?";
  selection_id = none;
  selection_title = none;
  media_type = none;
  media_id = none;
  caption = none;
  sent_at = none;
}

abbrev inviter : ℕ → Inviter
inviter n = record {
  service = record (service (killed_at n)) { channel = facebook_comment };
  channels = record channels { facebook_comment_dm_invite = true };
  channel = facebook_comment;
  default_invite = λ channel. "We have sent you a message.";
  strip = same_text;
}

-- An attempt that is killed after its send, and a redelivery.
abbrev redelivered : List (Inviter × InboundEvent)
redelivered = (inviter 5, comment) ∷ (inviter 99, comment) ∷ []

invite_attempts_once_example :
    answers (reservation_key "comment1") (invite_attempts redelivered start).wire ≤ 1
unfolding reserved any answers select
invite_attempts_once_example = invite_attempts_once redelivered start "comment1" refl refl
