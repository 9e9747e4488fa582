-- ===== src/Retrieval/Planner/Keyed.antt =====
-- Rows of the table of scopes, whose `scope_id` is a key, and the rows that `Map.set` keeps.
use verity_mem.Prelude.{
  ℕ, ◌≡◌, refl, ◌∙◌, inl, inr, Bool, false, ◌&&◌, ◌||◌, Option, none, some, List, [], ◌∷◌, ◌++◌,
  any, filter, find, ◌=?◌, string_eq, nat_eq, is_some, Bool-cases, All, arith, any-filter,
  find-true, find-true,
}
use verity_mem.Store.{ScopeRow}
use verity_mem.Retrieval.Planner.{set_scope, set_scopes}

abbrev pub find_scope : List ScopeRow → ℕ → Option ScopeRow
find_scope scopes id = find (λ (s : ScopeRow). s.scope_id =? id) scopes

abbrev pub holds_of {ℓ} : {A : Type ℓ} → (A → Bool) → Option A → Bool
holds_of p none = false
holds_of p (some a) = p a

-- `scope_id` is the key of the table.
abbrev pub IsKeyed : List ScopeRow → List ScopeRow → Type 0
IsKeyed scopes rows = All (λ (s : ScopeRow). find_scope scopes s.scope_id ≡ some s) rows

abbrev pub has_scope : ℕ → List ScopeRow → Bool
has_scope id rows = any (λ (s : ScopeRow). s.scope_id =? id) rows

-- In rows of a keyed table a test beside the id is a test of the row of that id.
pub any-keyed :
    (scopes : List ScopeRow) (q : ScopeRow → Bool) (id : ℕ) (rows : List ScopeRow)
    → IsKeyed scopes rows
    → any (λ (s : ScopeRow). q s && (s.scope_id =? id)) rows
      ≡ (has_scope id rows && holds_of q (find_scope scopes id))
any-keyed scopes q id [] keyed = refl
any-keyed scopes q id (s ∷ rows) keyed =
    let rest = any-keyed scopes q id rows keyed.1 in
    elim (Bool-cases (s.scope_id =? id)) [
      | inl hit ↦
          let same : s.scope_id ≡ id = ground arith in
          let own : find_scope scopes id ≡ some s = cc (keyed.0, same) in
          ground (arith, hit, rest, own)
      | inr miss ↦ ground (arith, miss, rest)
    ]

pub has_scope-filter :
    (scopes : List ScopeRow) (q : ScopeRow → Bool) (id : ℕ) (rows : List ScopeRow)
    → IsKeyed scopes rows
    → has_scope id (filter q rows) ≡ (has_scope id rows && holds_of q (find_scope scopes id))
has_scope-filter scopes q id rows keyed =
    any-filter (λ (s : ScopeRow). s.scope_id =? id) q rows ∙ any-keyed scopes q id rows keyed

pub has_scope-append :
    (id : ℕ) (xs ys : List ScopeRow)
    → has_scope id (xs ++ ys) ≡ (has_scope id xs || has_scope id ys)
has_scope-append id [] ys = refl
has_scope-append id (x ∷ xs) ys = ground (arith, has_scope-append id xs ys)

pub has_scope-set :
    (id : ℕ) (s : ScopeRow) (rows : List ScopeRow)
    → has_scope id (set_scope s rows) ≡ ((s.scope_id =? id) || has_scope id rows)
has_scope-set id s [] = refl
has_scope-set id s (x ∷ rows) = ground (arith, has_scope-set id s rows)

pub has_scope-set_scopes :
    (id : ℕ) (rows held : List ScopeRow)
    → has_scope id (set_scopes rows held) ≡ (has_scope id rows || has_scope id held)
has_scope-set_scopes id [] held = refl
has_scope-set_scopes id (s ∷ rows) held =
    ground (arith, has_scope-set_scopes id rows (set_scope s held), has_scope-set id s held)

pub IsKeyed-filter :
    (scopes : List ScopeRow) (q : ScopeRow → Bool) (rows : List ScopeRow)
    → IsKeyed scopes rows
    → IsKeyed scopes (filter q rows)
IsKeyed-filter scopes q [] keyed = tt
IsKeyed-filter scopes q (s ∷ rows) keyed = elim (Bool-cases (q s)) [
  | inl hit ↦ rw hit (keyed.0, IsKeyed-filter scopes q rows keyed.1)
  | inr miss ↦ rw miss (IsKeyed-filter scopes q rows keyed.1)
]

pub IsKeyed-append :
    (scopes xs ys : List ScopeRow)
    → IsKeyed scopes xs
    → IsKeyed scopes ys
    → IsKeyed scopes (xs ++ ys)
IsKeyed-append scopes [] ys h k = k
IsKeyed-append scopes (x ∷ xs) ys h k = (h.0, IsKeyed-append scopes xs ys h.1 k)

pub IsKeyed-set :
    (scopes : List ScopeRow) (s : ScopeRow) (rows : List ScopeRow)
    → find_scope scopes s.scope_id ≡ some s
    → IsKeyed scopes rows
    → IsKeyed scopes (set_scope s rows)
IsKeyed-set scopes s [] own keyed = (own, tt)
IsKeyed-set scopes s (x ∷ rows) own keyed = elim (Bool-cases (x.scope_id =? s.scope_id)) [
  | inl hit ↦ rw hit (own, keyed.1)
  | inr miss ↦ rw miss (keyed.0, IsKeyed-set scopes s rows own keyed.1)
]

pub IsKeyed-set_scopes :
    (scopes rows held : List ScopeRow)
    → IsKeyed scopes rows
    → IsKeyed scopes held
    → IsKeyed scopes (set_scopes rows held)
IsKeyed-set_scopes scopes [] held h k = k
IsKeyed-set_scopes scopes (s ∷ rows) held h k =
    IsKeyed-set_scopes scopes rows (set_scope s held) h.1 (IsKeyed-set scopes s held h.0 k)

-- The row of an id, and whether there is one.
pub has_scope-find :
    (scopes : List ScopeRow) (id : ℕ) → has_scope id scopes ≡ is_some (find_scope scopes id)
has_scope-find [] id = refl
has_scope-find (s ∷ scopes) id = ground (arith, has_scope-find scopes id)

pub find_scope-id :
    (scopes : List ScopeRow) (id : ℕ) {s : ScopeRow}
    → find_scope scopes id ≡ some s
    → s.scope_id ≡ id
find_scope-id scopes id {s} h =
    let hit = find-true (λ (x : ScopeRow). x.scope_id =? id) scopes h in ground (arith, hit)
