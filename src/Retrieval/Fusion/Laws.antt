-- ===== src/Retrieval/Fusion/Laws.antt =====
-- Fusion neither loses, repeats nor makes up a candidate.
use verity_mem.Prelude.{
  ℕ, suc, ◌+◌, ◌≡◌, refl, ◌∙◌, inl, inr, Bool, false, ◌&&◌, ◌||◌, Option, none, some, List, [], ◌∷◌,
  map, any, ◌=?◌, if◌then◌else◌, Bool-cases, arith,
}
use verity_mem.Retrieval.Fusion.{
  ScoreOps, LocaleBefore, Channel, ChannelHit, ChannelResult, FuseEntry, FusedCandidate, add_hit,
  add_hits, add_results, candidate_of, comes_before, insert_candidate, sort_candidates,
  fuse_results,
}

abbrev pub bit : Bool → ℕ
bit b = if b then 1 else 0

abbrev pub count_entries : {Score : Type 0} → ℕ → List (FuseEntry Score) → ℕ
count_entries id [] = 0
count_entries id (e ∷ rest) = bit (e.claim_id =? id) + count_entries id rest

abbrev pub count_candidates : {Score : Type 0} → ℕ → List (FusedCandidate Score) → ℕ
count_candidates id [] = 0
count_candidates id (c ∷ rest) = bit (c.claim_id =? id) + count_candidates id rest

abbrev pub is_hit_in : {Score : Type 0} → ℕ → List (ChannelHit Score) → Bool
is_hit_in {Score} id hits = any (λ (h : ChannelHit Score). h.claim_id =? id) hits

-- Some channel that ran returned the claim.
abbrev pub was_hit : {Score : Type 0} → ℕ → List (ChannelResult Score) → Bool
was_hit {Score} id results = any (λ (r : ChannelResult Score). r.ran && is_hit_in id r.hits) results

swap_bits : (x y z : Bool) → bit (x || (y || z)) ≡ bit ((y || x) || z)
swap_bits x y z = ground arith

module _ {Score : Type 0} (ops : ScoreOps Score) (before : LocaleBefore) (id : ℕ) where
  count-add_hit :
      (k rank : ℕ) (channel : Channel) (h : ChannelHit Score) (entries : List (FuseEntry Score))
      (b : Bool)
      → count_entries id entries ≡ bit b
      → count_entries id (add_hit ops before k rank channel h entries)
        ≡ bit ((h.claim_id =? id) || b)
  unfolding add_hit
  count-add_hit k rank channel h [] b e = ground (arith, e)
  count-add_hit k rank channel h (x ∷ rest) b e = elim (Bool-cases (x.claim_id =? h.claim_id)) [
    | inl hit ↦ rw hit (ground (arith, hit, e))
    | inr miss ↦ elim (Bool-cases (x.claim_id =? id)) [
      | inl own ↦ rw miss (ground (arith, miss, own, e, count-add_hit k rank channel h rest false))
      | inr other ↦ rw miss (ground (arith, other, e, count-add_hit k rank channel h rest b))
    ]
  ]

  count-add_hits :
      (k rank : ℕ) (channel : Channel) (hits : List (ChannelHit Score))
      (entries : List (FuseEntry Score)) (b : Bool)
      → count_entries id entries ≡ bit b
      → count_entries id (add_hits ops before k rank channel hits entries)
        ≡ bit (is_hit_in id hits || b)
  unfolding add_hits
  count-add_hits k rank channel [] entries b e = e
  count-add_hits k rank channel (h ∷ hits) entries b e =
      let first = count-add_hit k (suc rank) channel h entries b e in
      let rest =
        count-add_hits k (suc rank) channel hits (add_hit ops before k (suc rank) channel h entries)
          ((h.claim_id =? id) || b) first in
      rest ∙ swap_bits (is_hit_in id hits) (h.claim_id =? id) b

  count-add_results :
      (k : ℕ) (results : List (ChannelResult Score)) (entries : List (FuseEntry Score)) (b : Bool)
      → count_entries id entries ≡ bit b
      → count_entries id (add_results ops before k results entries) ≡ bit (was_hit id results || b)
  unfolding add_results
  count-add_results k [] entries b e = e
  count-add_results k (r ∷ results) entries b e = elim (Bool-cases r.ran) [
    | inl ran ↦
        let first = count-add_hits k 0 r.channel r.hits entries b e in
        let rest =
          count-add_results k results (add_hits ops before k 0 r.channel r.hits entries)
            (is_hit_in id r.hits || b) first in
        rw ran (rest ∙ swap_bits (was_hit id results) (is_hit_in id r.hits) b)
    | inr skipped ↦ rw skipped (count-add_results k results entries b e)
  ]

  count-candidate_of :
      (entries : List (FuseEntry Score))
      → count_candidates id (map (candidate_of ops before) entries) ≡ count_entries id entries
  count-candidate_of [] = refl
  count-candidate_of (e ∷ entries) = ground (arith, count-candidate_of entries)

  count-insert :
      (c : FusedCandidate Score) (rest : List (FusedCandidate Score))
      → count_candidates id (insert_candidate ops before c rest)
        ≡ bit (c.claim_id =? id) + count_candidates id rest
  unfolding insert_candidate
  count-insert c [] = refl
  count-insert c (x ∷ rest) = elim (Bool-cases (comes_before ops before x c)) [
    | inl first ↦ rw first (omega (arith, count-insert c rest))
    | inr later ↦ rw later refl
  ]

  count-sort :
      (candidates : List (FusedCandidate Score))
      → count_candidates id (sort_candidates ops before candidates) ≡ count_candidates id candidates
  unfolding sort_candidates
  count-sort [] = refl
  count-sort (c ∷ rest) =
      omega (arith, count-insert c (sort_candidates ops before rest), count-sort rest)

-- Before the cut, fusion lists a claim exactly once when some channel that ran returned it, and not
-- at all otherwise, whatever the scores and however often and by however many channels it was
-- returned.
pub fuse_results-once :
    {Score : Type 0} (ops : ScoreOps Score) (before : LocaleBefore) (k : Option ℕ)
    (results : List (ChannelResult Score)) (id : ℕ)
    → count_candidates id (fuse_results ops before k none results) ≡ bit (was_hit id results)
unfolding fuse_results
fuse_results-once ops before k results id =
    let n = elim k as (λ x. ℕ) [ none ↦ 60 | some n ↦ n ] in
    let entries = add_results ops before n results [] in
    count-sort ops before id (map (candidate_of ops before) entries)
    ∙ count-candidate_of ops before id entries
    ∙ count-add_results ops before id n results [] false refl
    ∙ drop_false (was_hit id results)
  where
    drop_false : (b : Bool) → bit (b || false) ≡ bit b
    drop_false b = ground arith
