-- ===== src/Claims/Lifecycle/Reach.antt =====
-- Where the lifecycle of `valid_claim_transition` can lead.
use verity_mem.Prelude.{◌≡◌, ◌≢◌, true, arith, ◌⊎◌}
use verity_mem.Contracts.Vocabulary.{
  ClaimStatus, proposed, accepted, disputed, superseded, rejected, revoked, expired,
}
use verity_mem.Store.Triggers.{valid_claim_transition}

-- The statuses that a claim can be moved to by any number of legal transitions.
pub data Reaches (s : ClaimStatus) : ClaimStatus → Type 0 where
  here : Reaches s s
  next : {t u : ClaimStatus} → Reaches s t → valid_claim_transition t u ≡ true → Reaches s u

-- Withdrawn for good.
abbrev pub IsWithdrawn : ClaimStatus → Type 0
IsWithdrawn s = (s ≡ revoked) ⊎ (s ≡ superseded) ⊎ (s ≡ rejected)

transition-IsWithdrawn :
    (t u : ClaimStatus)
    → IsWithdrawn t
    → valid_claim_transition t u ≡ true
    → (u ≡ revoked) ⊎ (u ≡ superseded)
unfolding valid_claim_transition
transition-IsWithdrawn t u w h = ground arith

Reaches-IsWithdrawn : {s t : ClaimStatus} → IsWithdrawn s → Reaches s t → IsWithdrawn t
Reaches-IsWithdrawn w here = w
Reaches-IsWithdrawn w (next {t} {u} r h) =
    ground (arith, transition-IsWithdrawn t u (Reaches-IsWithdrawn w r) h)

-- A claim that was revoked, superseded or rejected is never believed or disputed again, whatever
-- legal transitions follow.
pub withdrawn_forever :
    {s t : ClaimStatus}
    → IsWithdrawn s
    → Reaches s t
    → (t ≢ accepted) × (t ≢ disputed) × (t ≢ expired) × (t ≢ proposed)
withdrawn_forever w r = let e = Reaches-IsWithdrawn w r in ground arith
