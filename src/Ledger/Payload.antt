-- ===== src/Ledger/Payload.antt =====
-- `parsePayload` of packages/ledger/src/outbox.ts.
use verity_mem.Prelude.{String, Option, none, some, List, nat_eq, string_eq}

-- What the code reads of a payload: the two lists, absent unless the value is an array, and `none`
-- for an element that is no string.
pub record Payload : Type 0 where
  pub scope_ids : Option (List (Option String))
  pub purposes : Option (List (Option String))

abbrev pub empty_payload : Payload
empty_payload = record { scope_ids = none; purposes = none }

-- A column value as the driver hands it over.
pub data RawPayload : Type 0 where
  nothing : RawPayload
  json_text : String → RawPayload
  object : Payload → RawPayload
  array : RawPayload
  primitive : RawPayload

-- `JSON.parse`, which throws for `none`.
abbrev pub JsonParse : Type 0
JsonParse = String → Option RawPayload

abbrev pub object_or_empty : RawPayload → Payload
object_or_empty (object p) = p
object_or_empty _ = empty_payload

unfoldable pub parse_payload : JsonParse → RawPayload → Payload
parse_payload json (json_text s) = elim (json s) [
  | none ↦ empty_payload
  | some value ↦ object_or_empty value
]
parse_payload json raw = object_or_empty raw
