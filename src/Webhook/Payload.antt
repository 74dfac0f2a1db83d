-- ===== src/Webhook/Payload.antt =====
-- `process_webhook_payload` of app/services/webhook_processor.py, on the JSON that the WhatsApp Cloud API
-- posts. A text that PostgreSQL is to store or to compare and that is no text raises in the statement,
-- before anything is committed: `none` here, and the fault `killed` in the process. So does the name of
-- a contact, for that contact's messages. Python's `int` and `str` are parameters.
pub mod Render
pub mod Once
use whatsapp_ai_bot.Prelude.{
  ℕ, String, Bool, true, false, not, ◌&&◌, ◌||◌, List, [], ◌∷◌, Option, none, some, if◌then◌else◌,
  str_eq, find,
}
use whatsapp_ai_bot.Json.{Json, null, str, arr, obj, Items, nil, cons, Fields, end, lookup, truthy}
use whatsapp_ai_bot.World.{M, World, Outcome, killed}
use whatsapp_ai_bot.World.Effects.{pure, throw, ◌>>=◌, ◌>>◌, now}
use whatsapp_ai_bot.Chat.Service.{Service, received, text_or}
use whatsapp_ai_bot.Chat.Send.{text_of}
use whatsapp_ai_bot.Chat.Handlers.{handle_status_update}
use whatsapp_ai_bot.Webhook.{
  Delivery, text_message, interactive_message, media_message, unsupported_message, is_enforced,
  is_too_old, record_without_answering, handle,
}

-- `d.get(key, other)` of a text.
abbrev pub as_text : Option Json → String → Option String
as_text none other = some other
as_text (some (str s)) other = some s
as_text (some _) other = none

-- `d.get(key)` of a text that may be missing or null.
abbrev pub as_nullable : Option Json → Option (Option String)
as_nullable none = some none
as_nullable (some null) = some none
as_nullable (some (str s)) = some (some s)
as_nullable (some _) = none

-- `d.get(key, {})`
abbrev pub as_object : Option Json → Option Fields
as_object none = some end
as_object (some (obj fields)) = some fields
as_object (some _) = none

-- A loop over an empty text or dictionary does nothing; the items of another text or dictionary are
-- texts, whose `get` raises.
abbrev without_items : Json → Option Items
without_items (str s) = if str_eq s "" then some nil else none
without_items (obj end) = some nil
without_items _ = none

-- `d.get(key, [])`, to loop over
abbrev pub as_list : Option Json → Option Items
as_list none = some nil
as_list (some (arr items)) = some items
as_list (some j) = without_items j

abbrev pub and_then : {A B : Type 0} → Option A → (A → Option B) → Option B
and_then none f = none
and_then (some a) f = f a

-- Python's `int`, `none` where it raises, and `str` of a value that is no text.
pub record Python : Type 0 where
  pub int_of : Json → Option ℕ
  pub str_of : Json → String

-- `if d.get(key)`
abbrev pub is_set : Option Json → Bool
is_set none = false
is_set (some j) = truthy j

-- `d.get(key) or None` of a text.
abbrev pub as_optional : Option Json → Option (Option String)
as_optional none = some none
as_optional (some (str s)) = some (some s)
as_optional (some j) = if truthy j then none else some none

-- The names of the contacts: of two with one id, the later counts.
abbrev pub Contacts : Type 0
Contacts = List (String × Option Json)

-- A key of the dictionary of contacts: a list or a dictionary is no key, and a key that is no text is no
-- message's sender.
abbrev pub as_key : Option Json → Option (Option String)
as_key (some (str s)) = some (some s)
as_key (some (arr items)) = none
as_key (some (obj fields)) = none
as_key _ = some none

unfoldable pub contacts_from : Items → Contacts → Option Contacts
contacts_from nil known = some known
contacts_from (cons (obj contact) rest) known =
    and_then (as_object (lookup "profile" contact)) (λ profile.
      and_then (as_key (lookup "wa_id" contact)) (λ wa_id.
        contacts_from rest
          (elim wa_id [ none ↦ known | some id ↦ (id, lookup "name" profile) ∷ known ])))
contacts_from (cons _ rest) known = none

-- `contacts.get(wa_id)`
unfoldable pub name_of : String → Contacts → Option Json
name_of wa_id [] = none
name_of wa_id ((id, name) ∷ rest) =
    let other = name_of wa_id rest in if str_eq id wa_id then name else other

module _ (p : Python) where
  -- `str(value)`
  abbrev pub shown : Json → String
  shown (str s) = s
  shown j = p.str_of j

  -- `str(d[key])` where `d.get(key)` is set.
  abbrev pub set_text : Option Json → Option String
  set_text none = none
  set_text (some j) = if truthy j then some (shown j) else none

  -- `str(d.get(key) or "")`
  abbrev pub text_or_empty : Option Json → String
  text_or_empty none = ""
  text_or_empty (some j) = if truthy j then shown j else ""

  abbrev pub picked : Option String → String → Option (String × String)
  picked none title = none
  picked (some id) title = some (id, title)

  abbrev pub selection_in : Option Json → Option (String × String)
  selection_in (some (obj reply)) =
      picked (set_text (lookup "id" reply)) (text_or_empty (lookup "title" reply))
  selection_in _ = none

  abbrev pub or_selection :
      Option (String × String) → Option (String × String) → Option (String × String)
  or_selection none other = other
  or_selection (some s) other = some s

  abbrev selection_of : Option Json → Option (String × String)
  selection_of (some (obj interactive)) =
      or_selection (selection_in (lookup "button_reply" interactive))
        (selection_in (lookup "list_reply" interactive))
  selection_of _ = none

  -- `_interactive_selection`
  unfoldable pub interactive_selection : Fields → Option (String × String)
  interactive_selection message = selection_of (lookup "interactive" message)

  abbrev pub payload_of : Option Json → Option String
  payload_of (some (obj button)) = set_text (lookup "payload" button)
  payload_of _ = none

  abbrev pub button_title : Option Json → String
  button_title (some (obj button)) = text_or_empty (lookup "text" button)
  button_title _ = ""

abbrev pub is_media : String → Bool
is_media type = str_eq type "image" || str_eq type "document"

abbrev pub selected : String → Option String → String → String → Option (String × String) → Delivery
selected wa_id name id type none = unsupported_message wa_id name id type
selected wa_id name id type (some (selection_id, title)) =
    interactive_message wa_id name id selection_id title

abbrev pub pressed : String → Option String → String → String → Option String → String → Delivery
pressed wa_id name id type none title = unsupported_message wa_id name id type
pressed wa_id name id type (some payload) title = interactive_message wa_id name id payload title

-- `d.get("body", "")` of a text that may be null.
abbrev pub body_in : Fields → Option (Option String)
body_in text = elim (lookup "body" text) [ none ↦ some (some "") | some j ↦ as_nullable (some j) ]

unfoldable pub body_of : Fields → Option (Option String)
body_of message = and_then (as_object (lookup "text" message)) body_in

unfoldable pub media_of : String → Option String → String → String → Fields → Option Delivery
media_of wa_id name id type message = and_then (as_object (lookup type message)) (λ media.
    and_then (as_nullable (lookup "id" media)) (λ media_id.
      and_then (as_optional (lookup "caption" media))
        (λ caption. some (media_message wa_id name id type media_id caption))))

abbrev caption_of : Option Json → String → Option (Option String)
caption_of (some (obj media)) type =
    and_then (as_optional (lookup "caption" media)) (λ c. some (some (text_or c (received type))))
caption_of _ type = some (some (received type))

abbrev selection_text : Option (String × String) → String
selection_text none = received "interactive"
selection_text (some (id, title)) = if str_eq title "" then id else title

module _ (p : Python) where
  -- The handler that `_dispatch_message` chooses, with its arguments.
  unfoldable pub routed : String → Option String → String → String → Fields → Option Delivery
  unfolding body_of media_of interactive_selection
  routed wa_id name id type message =
      if str_eq type "text"
      then and_then (body_of message) (λ body. some (text_message wa_id name id body))
      else if is_media type
      then media_of wa_id name id type message
      else if str_eq type "interactive"
      then some (selected wa_id name id type (interactive_selection p message))
      else if str_eq type "button"
      then some (
          pressed wa_id name id type (payload_of p (lookup "button" message))
            (button_title p (lookup "button" message)))
      else some (unsupported_message wa_id name id type)

  -- `_dispatch_message`, up to the call of the handler.
  unfoldable pub delivery_of : Contacts → Fields → Option Delivery
  unfolding name_of routed
  delivery_of contacts message = and_then (as_text (lookup "from" message) "") (λ wa_id.
      and_then (as_text (lookup "id" message) "") (λ id.
        and_then (as_text (lookup "type" message) "unknown") (λ type.
          and_then (as_nullable (name_of wa_id contacts))
            (λ name. routed wa_id name id type message))))

  abbrev button_text : Option Json → String
  button_text (some (obj button)) =
      if is_set (lookup "text" button)
      then text_or_empty p (lookup "text" button)
      else text_or_empty p (lookup "payload" button)
  button_text none = ""
  button_text (some _) = received "button"

  -- `_content_of`
  unfoldable pub content_of : String → Fields → Option (Option String)
  unfolding interactive_selection
  content_of type message =
      if str_eq type "text"
      then and_then (as_object (lookup "text" message)) (λ text. as_nullable (lookup "body" text))
      else if is_media type
      then caption_of (lookup type message) type
      else if str_eq type "interactive"
      then some (some (selection_text (interactive_selection p message)))
      else if str_eq type "button"
      then some (some (button_text (lookup "button" message)))
      else some (some (received type))

-- A value that could not be read raises.
abbrev pub or_throw : {A : Type 0} → Option A → M A
or_throw none = throw killed
or_throw (some a) = pure a

abbrev pub fields_of : Json → Option Fields
fields_of (obj fields) = some fields
fields_of _ = none

-- `for item in items`
unfoldable pub each : (Json → M (Unit {0})) → Items → M (Unit {0})
each f nil = pure tt
each f (cons j rest) = f j >> each f rest
