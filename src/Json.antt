-- ===== src/Json.antt =====
-- JSON values as Python holds them (`dict[str, Any]`), for the payloads and the responses of
-- Meta's APIs. Numbers are non-negative integers; no field that the code reads is anything else.
use whatsapp_ai_bot.Prelude.{
  ℕ, zero, suc, String, Bool, true, false, Option, none, some, if◌then◌else◌, str_eq, not,
}

mutual
  pub data Json : Type 0 where
    null : Json
    bool : Bool → Json
    num : ℕ → Json
    str : String → Json
    arr : Items → Json
    obj : Fields → Json

  pub data Items : Type 0 where
    nil : Items
    cons : Json → Items → Items

  pub data Fields : Type 0 where
    end : Fields
    field : String → Json → Fields → Fields

-- Python's truth value.
unfoldable pub truthy : Json → Bool
truthy null = false
truthy (bool b) = b
truthy (num zero) = false
truthy (num (suc n)) = true
truthy (str s) = not (str_eq s "")
truthy (arr nil) = false
truthy (arr (cons x xs)) = true
truthy (obj end) = false
truthy (obj (field k v fs)) = true

-- `fs.get(key)`; a parsed object has each key once.
unfoldable pub lookup : String → Fields → Option Json
lookup key end = none
lookup key (field k v fs) = let rest = lookup key fs in if str_eq k key then some v else rest
