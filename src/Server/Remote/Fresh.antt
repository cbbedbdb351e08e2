-- ===== src/Server/Remote/Fresh.antt =====
-- Which action a remote controller uses in the life of one agent, whose steps only grow.
use ertw.Server.Remote.{Remote, Reply, act, thread_round, arrive, start, max_action_age}
use ertw.Server.Stream.{Stream, ErrorKind}
use ertw.Server.Frame.{decode_action}
use ertw.Interface.Observation.{ObservationTensor}
use ertw.Interface.Action.{ActionTensor, default_action}
use ertw.Common.{Bool, List, ℕ, Option, ◌≡◌, ◌≤◌, ◌<◌, ◌+◌, some, none, All}

-- The two threads and the peer in any order; the world asks about one entity, at steps that only grow.
-- The number is the last step asked about.
pub data Life (entity : ℕ) (written : Bool) (s : Stream) : ℕ → Remote → Type 0 where
  begins : Life entity written s 0 (start written s)
  asked :
      {now : ℕ} {r : Remote} (obs : ObservationTensor)
      → Life entity written s now r
      → obs.entity_id ≡ entity
      → now ≤ obs.step
      → Life entity written s obs.step (act obs r).0
  ran :
      {now : ℕ} {r : Remote} (writes : Bool)
      → Life entity written s now r
      → Life entity written s now (thread_round writes r)
  heard :
      {now : ℕ} {r : Remote} (bytes : List ℕ) (ending : ErrorKind)
      → Life entity written s now r
      → Life entity written s now (arrive bytes ending r)

-- Some frame decodes to the reply.
abbrev pub IsSent : Reply → Type 0
IsSent reply = (frame : List ℕ) × (decode_action frame ≡ some reply)

-- The held action was sent for this entity, for a step that was asked about or an earlier one.
abbrev pub IsOwn : ℕ → ℕ → Option (ℕ × ActionTensor) → Type 0
IsOwn entity now none = Unit
IsOwn entity now (some (step, action)) = IsSent (step, entity, action) × (step ≤ now)

pub record IsFaithful (entity now : ℕ) (r : Remote) : Type 0 where
  pub replies_sent : All IsSent r.replies
  pub last_own : IsOwn entity now r.last_action

-- The action for a step: the held one where it is at most two steps old, else the default.
abbrev pub IsChosen : ObservationTensor → Option (ℕ × ActionTensor) → ActionTensor → Type 0
IsChosen obs none action = action ≡ default_action
IsChosen obs (some (step, held)) action =
    IsSent (step, obs.entity_id, held)
    × (step ≤ obs.step)
    × (obs.step ≤ step + max_action_age → action ≡ held)
    × (step + max_action_age < obs.step → action ≡ default_action)
