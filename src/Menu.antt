-- ===== src/Menu.antt =====
-- app/services/menu.py: the selection ids. The labels are Arabic texts, a parameter of the model.
use whatsapp_ai_bot.Prelude.{String, Bool, List, [], ◌∷◌, any, str_eq}

abbrev pub service_finishing : String
service_finishing = "service_finishing"

abbrev pub service_commercial : String
service_commercial = "service_commercial"

abbrev pub service_contracting : String
service_contracting = "service_contracting"

abbrev pub view_portfolio : String
view_portfolio = "view_portfolio"

abbrev pub request_quote : String
request_quote = "request_quote"

abbrev pub request_visit : String
request_visit = "request_visit"

abbrev pub request_callback : String
request_callback = "request_callback"

abbrev pub talk_to_employee : String
talk_to_employee = "talk_to_employee"

abbrev pub is_one_of : String → List String → Bool
is_one_of id ids = any (λ j. str_eq j id) ids

-- `SERVICE_SELECTIONS`
unfoldable pub is_service : String → Bool
is_service id = is_one_of id (service_finishing ∷ service_commercial ∷ service_contracting ∷ [])

-- `SALES_SELECTIONS`
unfoldable pub is_sales : String → Bool
is_sales id = is_one_of id (request_quote ∷ request_visit ∷ request_callback ∷ [])

-- `KNOWN_SELECTIONS`, the keys of `LABELS`.
unfoldable pub is_known : String → Bool
is_known id = is_one_of id (
    service_finishing ∷ service_commercial ∷ service_contracting ∷ view_portfolio ∷ request_quote
    ∷ request_visit ∷ request_callback ∷ talk_to_employee ∷ [])
