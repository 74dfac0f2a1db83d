-- ===== src/Webhook/Payload/Render.antt =====
-- The messages of a payload as the WhatsApp Cloud API documents them, and what is read from them.
use whatsapp_ai_bot.Prelude.{
  String, Bool, true, false, not, ◌||◌, [], ◌∷◌, Option, none, some, ◌≡◌, refl, ap, ◌∙◌, sym,
  str_eq, eq_iff, Bool-cases, inl, inr, arith,
}
use whatsapp_ai_bot.Json.{Json, str, obj, cons, nil, Items, Fields, field, end, lookup, truthy}
use whatsapp_ai_bot.Webhook.{
  Delivery, text_message, interactive_message, media_message, unsupported_message,
}
use whatsapp_ai_bot.Webhook.Payload.{
  Python, contacts_from, name_of, delivery_of, routed, body_of, media_of, interactive_selection,
  and_then, as_nullable, text_or_empty, set_text, picked, or_selection, selected, pressed, Contacts,
  is_media,
}

-- A field that is left out when there is nothing to say.
abbrev maybe_field : String → Option String → Fields → Fields
maybe_field key none rest = rest
maybe_field key (some s) rest = field key (str s) rest

-- A message of the API with its contacts.
pub record Received : Type 0 where
  pub contacts : Items
  pub message : Fields

-- Who sent a message, when, and under which id.
pub record Head : Type 0 where
  pub wa_id : String
  pub name : Option String
  pub id : String
  pub timestamp : String

abbrev contact_of : Head → Items
contact_of h =
    cons
      (obj
        (field "profile" (obj (maybe_field "name" h.name end)) (field "wa_id" (str h.wa_id) end)))
      nil

abbrev envelope : Head → String → Fields → Received
envelope h type body = record {
  contacts = contact_of h;
  message =
      field "from" (str h.wa_id) (
        field "id" (str h.id) (field "timestamp" (str h.timestamp) (field "type" (str type) body)));
}

abbrev pair_of : String → String → Json
pair_of id title = obj (field "id" (str id) (field "title" (str title) end))

-- The caption comes first, then what the server does not read.
abbrev media_fields : Option String → String → String → Fields
media_fields caption mime_type media_id =
    maybe_field "caption" caption
      (field "mime_type" (str mime_type) (field "id" (str media_id) end))

-- A text, a picture or document, a tapped button or row, the button of a template, and a message of any
-- other type with its body.
pub data Sent : Type 0 where
  text_sent : String → Sent
  picture document : Option String → String → String → Sent
  button_reply list_reply : String → String → Sent
  template_button : String → String → Sent
  other_sent : String → Json → Sent

abbrev type_of : Sent → String
type_of (text_sent body) = "text"
type_of (picture caption mime_type media_id) = "image"
type_of (document caption mime_type media_id) = "document"
type_of (button_reply selection_id title) = "interactive"
type_of (list_reply selection_id title) = "interactive"
type_of (template_button payload title) = "button"
type_of (other_sent type body) = type

abbrev body_fields : Sent → Fields
body_fields (text_sent body) = field "text" (obj (field "body" (str body) end)) end
body_fields (picture caption mime_type media_id) =
    field "image" (obj (media_fields caption mime_type media_id)) end
body_fields (document caption mime_type media_id) =
    field "document" (obj (media_fields caption mime_type media_id)) end
body_fields (button_reply selection_id title) =
    field "interactive"
      (obj
        (field "type" (str "button_reply") (field "button_reply" (pair_of selection_id title) end)))
      end
body_fields (list_reply selection_id title) =
    field "interactive"
      (obj (field "type" (str "list_reply") (field "list_reply" (pair_of selection_id title) end)))
      end
body_fields (template_button payload title) =
    field "button" (obj (field "payload" (str payload) (field "text" (str title) end))) end
body_fields (other_sent type body) = field type body end

unfoldable pub rendered : Head → Sent → Received
rendered h sent = envelope h (type_of sent) (body_fields sent)

-- The handler that is to answer it, with its arguments.
unfoldable pub meant : Head → Sent → Delivery
meant h (text_sent body) = text_message h.wa_id h.name h.id (some body)
meant h (picture caption mime_type media_id) =
    media_message h.wa_id h.name h.id "image" (some media_id) caption
meant h (document caption mime_type media_id) =
    media_message h.wa_id h.name h.id "document" (some media_id) caption
meant h (button_reply selection_id title) =
    interactive_message h.wa_id h.name h.id selection_id title
meant h (list_reply selection_id title) = interactive_message h.wa_id h.name h.id selection_id title
meant h (template_button payload title) = interactive_message h.wa_id h.name h.id payload title
meant h (other_sent type body) = unsupported_message h.wa_id h.name h.id type

-- The type is none of those that are read.
abbrev pub is_other : String → Bool
is_other type =
    not (str_eq type "text" || is_media type || str_eq type "interactive" || str_eq type "button")

-- The id of a selection is not empty, and another type is another.
abbrev pub Regular : Sent → Type 0
Regular (button_reply selection_id title) = str_eq selection_id "" ≡ false
Regular (list_reply selection_id title) = str_eq selection_id "" ≡ false
Regular (template_button payload title) = str_eq payload "" ≡ false
Regular (other_sent type body) = is_other type ≡ true
Regular _ = Unit

same_text : (s : String) → str_eq s s ≡ true
same_text s = (eq_iff s s).1 refl

module _ (p : Python) where
  text_or_empty-str : (s : String) → text_or_empty p (some (str s)) ≡ s
  unfolding truthy
  text_or_empty-str s = elim (Bool-cases (str_eq s "")) [
    | inl blank ↦ rw blank (sym ((eq_iff s "").0 blank))
    | inr full ↦ rw full refl
  ]

  set_text-str : (s : String) → str_eq s "" ≡ false → set_text p (some (str s)) ≡ some s
  unfolding truthy
  set_text-str s h = rw h refl

  picked_pair :
      (id title : String)
      → str_eq id "" ≡ false
      → picked p (set_text p (some (str id))) (text_or_empty p (some (str title)))
        ≡ some (id, title)
  picked_pair id title h =
      ap (λ o. picked p o (text_or_empty p (some (str title)))) (set_text-str id h)
      ∙ ap (λ t. some (id, t)) (text_or_empty-str title)

  named :
      (name : Option String) → as_nullable (lookup "name" (maybe_field "name" name end)) ≡ some name
  unfolding lookup
  named none = refl
  named (some n) = refl

  -- What is found of the contacts, and the sender's name.
  contacts_from-contact :
      (h : Head)
      → (contacts : Contacts) × (contacts_from (contact_of h) [] ≡ some contacts)
        × (as_nullable (name_of h.wa_id contacts) ≡ some h.name)
  unfolding contacts_from lookup name_of
  contacts_from-contact h = (
    (h.wa_id, lookup "name" (maybe_field "name" h.name end)) ∷ [],
    refl,
    rw (same_text h.wa_id) (named h.name),
  )

  apart :
      (type : String)
      → is_other type ≡ true
      → (str_eq type "text" ≡ false)
        × (is_media type ≡ false)
        × (str_eq type "interactive" ≡ false)
        × (str_eq type "button" ≡ false)
  apart type k =
      split (str_eq type "text") (is_media type) (str_eq type "interactive") (str_eq type "button")
        k
    where
      split :
          (a b c d : Bool)
          → not (a || b || c || d) ≡ true
          → (a ≡ false) × (b ≡ false) × (c ≡ false) × (d ≡ false)
      split a b c d k = (ground (arith, k), ground (arith, k), ground (arith, k), ground (arith, k))

  routed-rendered :
      (h : Head) (sent : Sent)
      → Regular sent
      → routed p h.wa_id h.name h.id (type_of sent) (rendered h sent).message ≡ some (meant h sent)
  unfolding rendered meant routed body_of media_of interactive_selection lookup
  routed-rendered h (text_sent body) k = refl
  routed-rendered h (picture none mime_type media_id) k = refl
  routed-rendered h (picture (some caption) mime_type media_id) k = refl
  routed-rendered h (document none mime_type media_id) k = refl
  routed-rendered h (document (some caption) mime_type media_id) k = refl
  routed-rendered h (button_reply selection_id title) k =
      ap (λ o. some (selected h.wa_id h.name h.id "interactive" (or_selection p o none)))
        (picked_pair selection_id title k)
  routed-rendered h (list_reply selection_id title) k =
      ap (λ o. some (selected h.wa_id h.name h.id "interactive" o))
        (picked_pair selection_id title k)
  routed-rendered h (template_button payload title) k =
      ap (λ o. some (pressed h.wa_id h.name h.id "button" o (text_or_empty p (some (str title)))))
        (set_text-str payload k)
      ∙ ap (λ t. some (interactive_message h.wa_id h.name h.id payload t)) (text_or_empty-str title)
  routed-rendered h (other_sent type body) k =
      let (text, media, interactive, button) = apart type k in
      rw (text, media, interactive, button) refl

  read-rendered :
      (contacts : Contacts) (h : Head) (sent : Sent)
      → delivery_of p contacts (rendered h sent).message
        ≡ and_then
            (as_nullable (name_of h.wa_id contacts))
            (λ name. routed p h.wa_id name h.id (type_of sent) (rendered h sent).message)
  unfolding delivery_of rendered lookup
  read-rendered contacts h sent = refl

-- A text, a picture or document with or without a caption, a tapped button or row, the button of a
-- template, and a message of any other type, each with its sender, its contact with or without a name,
-- its id and its timestamp, written in the fields of the API, is read as it was meant, whatever its
-- texts, if the id of its selection is not empty.
pub delivery_of-rendered :
    (p : Python) (h : Head) (sent : Sent)
    → Regular sent
    → and_then
        (contacts_from (rendered h sent).contacts [])
        (λ contacts. delivery_of p contacts (rendered h sent).message)
      ≡ some (meant h sent)
unfolding rendered
delivery_of-rendered p h sent k =
    let message = (rendered h sent).message in
    let (contacts, known, name) = contacts_from-contact p h in
    ap (λ r. and_then r (λ cs. delivery_of p cs message)) known
    ∙ read-rendered p contacts h sent
    ∙ ap (λ n. and_then n (λ name. routed p h.wa_id name h.id (type_of sent) message)) name
    ∙ routed-rendered p h sent k
