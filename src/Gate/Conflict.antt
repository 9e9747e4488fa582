-- ===== src/Gate/Conflict.antt =====
-- `findConflicts`, `normalizeObject` and `classifyConflict` of packages/gate/src/commit-gate.ts.
-- What JavaScript's text functions give is a parameter: `trim().toLowerCase()`, `Number` as the
-- text of a finite number, and `JSON.parse` of a text that begins with a brace.
use package.text.Mathlib.Text.{starts_with}
use verity_mem.Prelude.{
  ℕ, String, Bool, false, not, ◌&&◌, ◌||◌, Option, none, some, List, [], ◌∷◌, filter, any, is_empty,
  contains, length, take, map, ◌==◌, ◌=?◌, ltb, string_eq, is_some, if◌then◌else◌,
}
use verity_mem.Contracts.Vocabulary.{RelationKind, duplicates, narrows, contradicts, supersedes}
use verity_mem.Claims.Use.{is_accepted}
use verity_mem.Store.{Value, null, text, scalar, composite, ClaimRow}

-- What `JSON.parse` makes of a text: it throws, gives no plain object, or gives an object as its
-- keys with the JSON text of each value.
pub data Parsed : Type 0 where
  throws : Parsed
  no_object : Parsed
  plain : List (String × String) → Parsed

pub record TextRuntime : Type 0 where
  pub trim_lower : String → String
  pub finite_number : String → Option ℕ
  pub json_parse : String → Parsed

pub record ConflictHit : Type 0 where
  pub claim_id : ℕ
  pub rel : RelationKind
  pub object : Value

abbrev pub keys : List (String × String) → List String
keys fields = map (λ f. f.0) fields

-- The JSON text of a property that the object has.
unfoldable pub property : String → List (String × String) → Option String
property key [] = none
property key ((k, v) ∷ rest) = let later = property key rest in if k == key then some v else later

abbrev pub same_property : Option String → Option String → Bool
same_property (some a) (some b) = a == b
same_property _ _ = false

unfoldable pub classify_objects :
    List (String × String) → List (String × String) → Option RelationKind
unfolding property
classify_objects left right =
    let shared = filter (λ key. contains (keys right) key) (keys left) in
    let conflicting =
      any (λ key. not (same_property (property key left) (property key right))) shared in
    if is_empty shared
    then none
    else if not conflicting && (length left =? length right)
    then some duplicates
    else if not conflicting
    then (if ltb (length left) (length right) then some supersedes else some narrows)
    else some contradicts

module _ (js : TextRuntime) where
  unfoldable pub normalize_object : Value → String
  normalize_object null = ""
  normalize_object (text s) = js.trim_lower s
  normalize_object (scalar s) = s
  normalize_object (composite s) = s

  abbrev pub numeric_equal : String → String → Bool
  numeric_equal left right = elim (js.finite_number left) [
    | none ↦ false
    | some a ↦ elim (js.finite_number right) [ none ↦ false | some b ↦ a =? b ]
  ]

  abbrev pub is_object_text : String → Bool
  is_object_text s = starts_with s "{" || starts_with s "["

  -- The end of `classifyConflict`: both are scalars, or nothing is said.
  unfoldable pub classify_scalars : String → String → Option RelationKind
  classify_scalars existing candidate =
      if not (is_object_text existing) && not (is_object_text candidate)
      then (if numeric_equal existing candidate then some duplicates else some contradicts)
      else none

  -- Both texts look like objects or arrays.
  abbrev pub classify_parsed : String → String → Parsed → Parsed → Option RelationKind
  classify_parsed existing candidate (plain left) (plain right) = classify_objects left right
  classify_parsed existing candidate _ _ = classify_scalars existing candidate

  unfoldable pub classify_conflict : String → String → Option RelationKind
  unfolding classify_objects classify_scalars
  classify_conflict existing candidate =
      if existing == candidate
      then some duplicates
      else if is_object_text existing && is_object_text candidate
      then classify_parsed existing candidate (js.json_parse existing) (js.json_parse candidate)
      else classify_scalars existing candidate

  -- The WHERE clause of `findConflicts`.
  abbrev pub bears_on : ℕ → String → String → ClaimRow → Bool
  bears_on tenant subject predicate row =
      (row.tenant_id =? tenant)
      && (row.subject == subject)
      && (row.predicate == predicate)
      && is_accepted row.status
      && not (is_some row.valid_to)

  abbrev pub hits_of : Value → List ClaimRow → List ConflictHit
  hits_of object [] = []
  hits_of object (row ∷ rows) =
      let rest = hits_of object rows in
      elim (classify_conflict (normalize_object row.object) (normalize_object object)) [
        | none ↦ rest
        | some rel ↦ record { claim_id = row.claim_id; rel = rel; object = row.object } ∷ rest
      ]

  unfoldable pub find_conflicts : ℕ → String → String → Value → List ClaimRow → List ConflictHit
  unfolding classify_conflict normalize_object
  find_conflicts tenant subject predicate object rows =
      hits_of object (take 64 (filter (bears_on tenant subject predicate) rows))
