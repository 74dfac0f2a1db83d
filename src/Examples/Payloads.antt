-- ===== src/Examples/Payloads.antt =====
-- Payloads of the WhatsApp API at concrete inputs.
use whatsapp_ai_bot.Prelude.{List, [], ◌∷◌, none, some, ◌≡◌, refl}
use whatsapp_ai_bot.Json.{Json, Fields, str, arr, obj, cons, nil, field, end}
use whatsapp_ai_bot.Chat.Service.{Service}
use whatsapp_ai_bot.Webhook.Payload.{Python, and_then, contacts_from, delivery_of}
use whatsapp_ai_bot.Webhook.Payload.Render.{
  Sent, Head, button_reply, rendered, meant, delivery_of-rendered,
}
use whatsapp_ai_bot.Examples.{service, killed_at}

abbrev python : Python
python = record { int_of = λ j. none; str_of = λ j. "value" }

abbrev message : Fields
message = field "from" (str "201") (
    field "id" (str "wamid.1") (
      field "type" (str "text")
        (field "text" (obj (field "body" (str "How much is it?") end)) end)))

abbrev one_of : Json → Json
one_of j = arr (cons j nil)

-- One text of Sara's.
abbrev payload : Json
payload = obj (
    field "entry"
      (one_of (
        obj (
          field "changes"
            (one_of (obj (field "value" (obj (field "messages" (one_of (obj message)) end)) end)))
            end)))
      end)

-- A first attempt that is killed at its seventh effect, and a retry.
abbrev retried : List (Service × Json)
retried = (service (killed_at 6), payload) ∷ (service (killed_at 99), payload) ∷ []

abbrev tapped : Sent
tapped = button_reply "request_quote" "Quote"

abbrev sara_head : Head
sara_head = record { wa_id = "201"; name = some "Sara"; id = "wamid.1"; timestamp = "1700000000" }

delivery_of-rendered_example :
    and_then
      (contacts_from (rendered sara_head tapped).contacts [])
      (λ contacts. delivery_of python contacts (rendered sara_head tapped).message)
    ≡ some (meant sara_head tapped)
delivery_of-rendered_example = delivery_of-rendered python sara_head tapped refl
