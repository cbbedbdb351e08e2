-- ===== src/Server/Remote.antt =====
-- crates/ertw_server/src/lib.rs: `RemoteAgent`, whose socket lives on a background thread. The two
-- channels are part of the state; `act` and one round of the thread's loop are its steps.
pub mod Laws
pub mod Fresh
use ertw.Server.Frame.{protocol_version, decode_action, encode_observation}
use ertw.Interface.Action.{default_action, ActionTensor}
use ertw.Common.Bytes.Laws.{IsByte}
use ertw.Server.Stream.{ErrorKind, timed_out, would_block, err, read_frame, ok, Stream, Result}
use ertw.Interface.Observation.{ObservationTensor}
use ertw.Common.{
  All, ◌&&◌, false, ◌==◌, ◌∷◌, ◌-◌, true, not, ◌++◌, leb, [], some, if◌then◌else◌, none, Bool, List,
  Option, ℕ,
}

abbrev pub max_action_age : ℕ
max_action_age = 2

abbrev pub Reply : Type 0
Reply = ℕ × ℕ × ActionTensor

pub record Remote : Type 0 where
  -- The one place of `sync_channel(1)`.
  pub observation_slot : Option (List ℕ)
  -- What the thread has sent and `act` has not received.
  pub replies : List Reply
  pub last_action : Option (ℕ × ActionTensor)
  pub stream : Stream
  -- The thread's loop still runs.
  pub is_running : Bool

-- `try_send`: refused where the place is taken or the thread is gone.
unfoldable pub try_send : Remote → List ℕ → Remote
try_send r frame = elim r.observation_slot [
  | none ↦ if r.is_running then record r { observation_slot = some frame } else r
  | some f ↦ r
]

-- The loop over `try_recv`.
unfoldable pub receive : ℕ → ℕ → List Reply → Option (ℕ × ActionTensor) → Option (ℕ × ActionTensor)
receive now entity [] last = last
receive now entity ((step, target, action) ∷ replies) last =
    receive now entity replies
      (if target == entity && leb step now then some (step, action) else last)

-- The action in use, if it is not too old.
unfoldable pub choose : ℕ → Option (ℕ × ActionTensor) → ActionTensor
choose now none = default_action
choose now (some (step, action)) =
    if leb (now - step) max_action_age then action else default_action

unfoldable pub act : ObservationTensor → Remote → Remote × ActionTensor
unfolding try_send receive choose
act obs r =
    let r1 = try_send r (encode_observation protocol_version obs) in
    let last = receive obs.step obs.entity_id r1.replies r1.last_action in
    (record r1 { replies = []; last_action = last }, choose obs.step last)

-- What the thread does with the frame that it read.
unfoldable pub deliver : Remote → Result (List ℕ) × Stream → Remote
deliver r (ok frame, s) = elim (decode_action frame) [
  | none ↦ record r { stream = s }
  | some reply ↦ record r { stream = s; replies = r.replies ++ (reply ∷ []) }
]
deliver r (err would_block, s) = record r { stream = s }
deliver r (err timed_out, s) = record r { stream = s }
deliver r (err e, s) = record r { stream = s; is_running = false }

-- One round of the thread's loop: `writes` says whether `write_all` succeeds. Without an observation
-- to send the thread waits.
unfoldable pub thread_round : Bool → Remote → Remote
unfolding deliver
thread_round writes r = elim r.observation_slot [
  | none ↦ r
  | some frame ↦
      let r1 = record r { observation_slot = none } in
      if not r.is_running
      then r
      else (if writes then deliver r1 (read_frame r1.stream) else record r1 { is_running = false })
]

-- Bytes that the peer sends after a read timed out, and how the next wait for more ends. What the
-- timed out read took is lost, so they need not start a frame.
unfoldable pub arrive : List ℕ → ErrorKind → Remote → Remote
arrive bytes ending r = record r {
  stream = record { incoming = r.stream.incoming ++ bytes; ending = ending };
}

-- Steps of the two threads and the peer in any order.
pub data Step : Remote → Remote → Type 0 where
  acts : (r : Remote) (obs : ObservationTensor) → Step r (act obs r).0
  rounds : (r : Remote) (writes : Bool) → Step r (thread_round writes r)
  arrives :
      (r : Remote) (bytes : List ℕ) (ending : ErrorKind)
      → All IsByte bytes
      → Step r (arrive bytes ending r)

pub data Reach (r : Remote) : Remote → Type 0 where
  here : Reach r r
  next : {s t : Remote} → Reach r s → Step s t → Reach r t

-- A new agent; `written` says whether the thread could send its hello, without which it ends.
unfoldable pub start : Bool → Stream → Remote
start written s = record {
  observation_slot = none;
  replies = [];
  last_action = none;
  stream = s;
  is_running = written;
}
