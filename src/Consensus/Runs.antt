-- ===== src/Consensus/Runs.antt =====
-- The rounds that a resolver of core/consensus.py answers over a sequence of calls.
use entropyhunt.Base.{
  Result, ok, raise, Coordinate, ℕ, suc, ◌≤◌, ◌<◌, max, String, Option, none, some, List, [], ◌∷◌,
  arith, string_eq, nat_eq, pair_eq, int_eq,
}
use entropyhunt.Base.Numeric.{Floats}
use entropyhunt.Auction.{ClaimRequest}
use entropyhunt.Consensus.{ConsensusRoundResult, DeterministicResolver, Bus}
use entropyhunt.Consensus.Rounds.{resolve_claims}
use entropyhunt.Consensus.Ballots.{
  ResolveClaimsRequest, Schedule, confirm_release, sync_round_id, set_peer_ids,
}
use entropyhunt.Consensus.Numbers.{IsNumbered, resolve_claims-round_id, resolve_claims-IsNumbered}

pub data Call (F : Type 0) : Type 0 where
  resolves : List ClaimRequest → ResolveClaimsRequest F → Schedule → Call F
  releases : String → Coordinate → Option ℕ → Call F
  syncs : ℕ → Call F
  regroups : List String → Call F

abbrev pub State : Type 0 → Type 0
State M = DeterministicResolver × Option (Bus M)

abbrev number_of : Result ConsensusRoundResult → Option ℕ
number_of (raise error) = none
number_of (ok round) = some round.round_id

abbrev pub with_number : Option ℕ → List ℕ → List ℕ
with_number none ns = ns
with_number (some n) ns = n ∷ ns

-- Each number is greater than the one before it, and the first is greater than `n`.
abbrev pub AreRising : ℕ → List ℕ → Type 0
AreRising n [] = Unit
AreRising n (m ∷ ms) = (n < m) × AreRising m ms

AreRising-mono : (n m : ℕ) (l : List ℕ) → n ≤ m → AreRising m l → AreRising n l
AreRising-mono n m [] h r = tt
AreRising-mono n m (k ∷ l) h r = (omega (arith, h, r.0), r.1)

module _ ⦃fl : Floats⦄ where
  open fl use {Float}

  -- A call, and the number of the round that it answers, if it answers one.
  unfoldable pub step : {M : Type 0} → State M → Call Float → State M × Option ℕ
  step (r, mesh) (resolves claims request schedule) =
      let (r', mesh', result) = resolve_claims claims request schedule r mesh in
      ((r', mesh'), number_of result)
  step (r, mesh) (releases drone_id zone now) =
      let (r', round) = confirm_release drone_id zone now r in ((r', mesh), some round.round_id)
  step (r, mesh) (syncs n) = ((sync_round_id n r, mesh), none)
  step (r, mesh) (regroups peer_ids) = ((set_peer_ids peer_ids r, mesh), none)

  unfoldable pub numbers : {M : Type 0} → State M → List (Call Float) → List ℕ
  numbers s [] = []
  numbers s (c ∷ cs) = let (s', n) = step s c in with_number n (numbers s' cs)

  rising :
      {M : Type 0}
      → (n : ℕ) (result : Result ConsensusRoundResult) (l : List ℕ) (r : DeterministicResolver)
        (mesh : Option (Bus M))
      → IsNumbered (r, mesh, result)
      → n < r.round_id
      → AreRising r.round_id l
      → AreRising n (with_number (number_of result) l)
  rising n (raise error) l r mesh h less t = AreRising-mono n r.round_id l (omega (arith, less)) t
  rising n (ok round) l r mesh h less t =
      (omega (arith, h, less), AreRising-mono round.round_id r.round_id l (omega (arith, h)) t)

  -- Over any calls of a resolver, the rounds that it answers have rising numbers, whether they were
  -- voted on, decided alone or released a stale drone's cell, and also across synchronisation with
  -- the rounds of other peers; so no two of them share a number.
  pub numbers-AreRising :
      {M : Type 0} → (cs : List (Call Float)) (s : State M) → AreRising s.0.round_id (numbers s cs)
  unfolding numbers step confirm_release sync_round_id set_peer_ids
  numbers-AreRising [] s = tt
  numbers-AreRising (resolves claims request schedule ∷ cs) (r, mesh) =
      let (r', mesh', result) = resolve_claims claims request schedule r mesh in
      rising r.round_id result _ r' mesh' (resolve_claims-IsNumbered claims request schedule r mesh)
        (omega (arith, resolve_claims-round_id claims request schedule r mesh))
        (numbers-AreRising cs (r', mesh'))
  numbers-AreRising (releases drone_id zone now ∷ cs) (r, mesh) =
      (omega arith, numbers-AreRising cs (record r { round_id = suc r.round_id }, mesh))
  numbers-AreRising (syncs n ∷ cs) (r, mesh) =
      AreRising-mono r.round_id (max r.round_id n) _ (omega arith)
        (numbers-AreRising cs (record r { round_id = max r.round_id n }, mesh))
  numbers-AreRising (regroups peer_ids ∷ cs) (r, mesh) =
      numbers-AreRising cs (set_peer_ids peer_ids r, mesh)
