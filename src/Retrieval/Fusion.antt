-- ===== src/Retrieval/Fusion.antt =====
-- `fuseResults` of packages/retrieval/src/channels.ts. The arithmetic of scores and the order of
-- texts are the runtime's, and parameters.
pub mod Laws
use verity_mem.Prelude.{
  ℕ, zero, suc, ◌+◌, String, Bool, true, false, not, ◌&&◌, ◌||◌, Option, none, some, List, [], ◌∷◌,
  ◌++◌, map, any, take, contains, ◌=?◌, Eq, if◌then◌else◌,
}
use verity_mem.Retrieval.Plan.{Channel, lexical, dense, entity, temporal, relation}

abbrev pub channel_rank : Channel → ℕ
channel_rank Channel.lexical = 0
channel_rank Channel.dense = 1
channel_rank Channel.entity = 2
channel_rank Channel.temporal = 3
channel_rank Channel.relation = 4

abbrev pub same_channel : Channel → Channel → Bool
same_channel c d = channel_rank c =? channel_rank d

-- The numbers of the runtime: `0`, `fuse + 1 / n`, `Number(fuse.toFixed(8))`, `===` and `>`.
pub record ScoreOps (Score : Type 0) : Type 0 where
  pub nothing : Score
  pub add_reciprocal : Score → ℕ → Score
  pub rounded : Score → Score
  pub same : Score → Score → Bool
  pub greater : Score → Score → Bool

-- `localeCompare` of two claim ids, below zero.
abbrev pub LocaleBefore : Type 0
LocaleBefore = ℕ → ℕ → Bool

pub record ChannelHit (Score : Type 0) : Type 0 where
  pub claim_id : ℕ
  pub score : Score

pub record ChannelResult (Score : Type 0) : Type 0 where
  pub channel : Channel
  pub hits : List (ChannelHit Score)
  pub ran : Bool

-- An entry of `byClaim`; the signals are the scores by channel, the last one set first.
pub record FuseEntry (Score : Type 0) : Type 0 where
  pub claim_id : ℕ
  pub fuse : Score
  pub channels : List Channel
  pub signals : List (Channel × Score)

pub record Signals (Score : Type 0) : Type 0 where
  pub lexical : Option Score
  pub dense : Option Score
  pub entity : Option Score
  pub temporal : Option Score
  pub relation : Option Score

pub record FusedCandidate (Score : Type 0) : Type 0 where
  pub claim_id : ℕ
  pub fuse_score : Score
  pub channels : List Channel
  pub signals : Signals Score

abbrev pub signal_of : {Score : Type 0} → Channel → List (Channel × Score) → Option Score
signal_of channel [] = none
signal_of channel ((c, score) ∷ rest) =
    let older = signal_of channel rest in if same_channel c channel then some score else older

-- The channels of an entry, without repetition and in the order of their names.
abbrev pub channel_names : List Channel → List Channel
channel_names used =
    pick Channel.dense
    ++ pick Channel.entity
    ++ pick Channel.lexical
    ++ pick Channel.relation
    ++ pick Channel.temporal
  where
    pick : Channel → List Channel
    pick channel = if any (same_channel channel) used then channel ∷ [] else []

module _ {Score : Type 0} (ops : ScoreOps Score) (before : LocaleBefore) where
  abbrev pub scored : ℕ → ℕ → Channel → ChannelHit Score → FuseEntry Score → FuseEntry Score
  scored k rank channel hit entry = record entry {
    fuse = ops.add_reciprocal entry.fuse (k + rank);
    channels = entry.channels ++ (channel ∷ []);
    signals = (channel, hit.score) ∷ entry.signals;
  }

  abbrev pub fresh_entry : ℕ → FuseEntry Score
  fresh_entry id = record { claim_id = id; fuse = ops.nothing; channels = []; signals = [] }

  -- One hit: its entry is set, at its place if it has one.
  unfoldable pub add_hit :
      ℕ → ℕ → Channel → ChannelHit Score → List (FuseEntry Score) → List (FuseEntry Score)
  add_hit k rank channel hit [] = scored k rank channel hit (fresh_entry hit.claim_id) ∷ []
  add_hit k rank channel hit (e ∷ rest) =
      let later = add_hit k rank channel hit rest in
      if e.claim_id =? hit.claim_id then scored k rank channel hit e ∷ rest else e ∷ later

  unfoldable pub add_hits :
      ℕ → ℕ → Channel → List (ChannelHit Score) → List (FuseEntry Score) → List (FuseEntry Score)
  unfolding add_hit
  add_hits k rank channel [] entries = entries
  add_hits k rank channel (hit ∷ hits) entries =
      add_hits k (suc rank) channel hits (add_hit k (suc rank) channel hit entries)

  unfoldable pub add_results :
      ℕ → List (ChannelResult Score) → List (FuseEntry Score) → List (FuseEntry Score)
  unfolding add_hits
  add_results k [] entries = entries
  add_results k (r ∷ results) entries =
      add_results k results (if r.ran then add_hits k 0 r.channel r.hits entries else entries)

  abbrev pub candidate_of : FuseEntry Score → FusedCandidate Score
  candidate_of e = record {
    claim_id = e.claim_id;
    fuse_score = ops.rounded e.fuse;
    channels = channel_names e.channels;
    signals = record {
      lexical = signal_of Channel.lexical e.signals;
      dense = signal_of Channel.dense e.signals;
      entity = signal_of Channel.entity e.signals;
      temporal = signal_of Channel.temporal e.signals;
      relation = signal_of Channel.relation e.signals;
    };
  }

  -- The comparison of the sort, below zero.
  abbrev pub comes_before : FusedCandidate Score → FusedCandidate Score → Bool
  comes_before left right =
      if ops.same right.fuse_score left.fuse_score
      then before left.claim_id right.claim_id
      else ops.greater left.fuse_score right.fuse_score

  -- A stable sort by insertion.
  unfoldable pub insert_candidate :
      FusedCandidate Score → List (FusedCandidate Score) → List (FusedCandidate Score)
  insert_candidate c [] = c ∷ []
  insert_candidate c (x ∷ rest) =
      let later = insert_candidate c rest in if comes_before x c then x ∷ later else c ∷ x ∷ rest

  unfoldable pub sort_candidates : List (FusedCandidate Score) → List (FusedCandidate Score)
  unfolding insert_candidate
  sort_candidates [] = []
  sort_candidates (c ∷ rest) = insert_candidate c (sort_candidates rest)

  -- A limit that is absent or 0 cuts nothing.
  abbrev pub cut : Option ℕ → List (FusedCandidate Score) → List (FusedCandidate Score)
  cut none fused = fused
  cut (some zero) fused = fused
  cut (some (suc n)) fused = take (suc n) fused

  unfoldable pub fuse_results :
      Option ℕ → Option ℕ → List (ChannelResult Score) → List (FusedCandidate Score)
  unfolding add_results sort_candidates
  fuse_results k limit results = cut limit (
      sort_candidates
        (map candidate_of (add_results (elim k [ none ↦ 60 | some n ↦ n ]) results [])))
