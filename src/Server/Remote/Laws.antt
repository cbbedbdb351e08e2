-- ===== src/Server/Remote/Laws.antt =====
-- What a remote controller can make of the world, whatever its peer sends and however the threads
-- interleave.
use mathlib.Core.Path.{subst}
use ertw.Server.Stream.Laws.{read_frame_rest, read_frame_sound}
use ertw.Server.Stream.{would_block, err, Stream, ok, read_frame, Result}
use ertw.Common.Bytes.{read_words}
use ertw.Server.Frame.Laws.{decode_action_sound}
use ertw.Common.Bytes.Laws.{read_words-IsWord, IsByte}
use ertw.Interface.Action.Laws.{zero-IsShort, from_f32-IsBanded, IsBanded}
use ertw.Server.Frame.{header_bytes, decode_action, protocol_version, encode_observation}
use ertw.Interface.Observation.{ObservationTensor}
use ertw.Interface.Action.{action_stride, default_action, ActionTensor}
use ertw.Server.Remote.{
  arrive, arrives, here, rounds, next, acts, start, Reach, Step, thread_round, deliver, try_send,
  max_action_age, Remote, choose, Reply, act, receive,
}
use ertw.Common.{
  not, sym, All-prefix, All-append, All-drop, drop, arith, ◌-◌, ◌∙◌, All, le-or-lt, if◌then◌else◌,
  ◌∷◌, [], true, false, refl, inr, inl, Option-cases, ◌+◌, ◌≤◌, ◌⊎◌, leb, ◌&&◌, ◌==◌, ◌≡◌, some,
  none, Bool, List, Option, ℕ,
}

-- The last reply for the entity that is not from the future, as a specification of the loop.
abbrev pub is_for : ℕ → ℕ → Reply → Bool
is_for now entity (step, target, action) = target == entity && leb step now

unfoldable pub latest : ℕ → ℕ → List Reply → Option (ℕ × ActionTensor)
latest now entity [] = none
latest now entity ((step, target, action) ∷ replies) = elim (latest now entity replies) [
  | some r ↦ some r
  | none ↦ if target == entity && leb step now then some (step, action) else none
]

abbrev pub or_else :
    Option (ℕ × ActionTensor) → Option (ℕ × ActionTensor) → Option (ℕ × ActionTensor)
or_else (some r) last = some r
or_else none last = last

-- The loop keeps the latest fitting reply, or what there was.
pub receive-latest :
    (now entity : ℕ) (replies : List Reply) (last : Option (ℕ × ActionTensor))
    → receive now entity replies last ≡ or_else (latest now entity replies) last
unfolding receive latest
receive-latest now entity [] last = refl
receive-latest now entity ((step, target, action) ∷ replies) last =
    receive-latest now entity replies
      (if target == entity && leb step now then some (step, action) else last)
    ∙ ground arith

choose_cases :
    (now : ℕ) (last : Option (ℕ × ActionTensor))
    → (choose now last ≡ default_action)
      ⊎ ((step : ℕ) × (last ≡ some (step, choose now last)) × (now ≤ step + max_action_age))
unfolding choose
choose_cases now none = inl refl
choose_cases now (some (step, action)) = elim (le-or-lt (now - step) max_action_age) [
  | inl fresh ↦ inr (step, ground arith, omega arith)
  | inr old ↦ inl (ground arith)
]

pub try_send_frame :
    (r : Remote) (f : List ℕ)
    → ((try_send r f).replies ≡ r.replies)
      × ((try_send r f).last_action ≡ r.last_action)
      × ((try_send r f).stream ≡ r.stream)
unfolding try_send
try_send_frame r f = ground arith

-- Every action on its way to the world is within its bands.
abbrev pub IsBandedReply : Reply → Type 0
IsBandedReply (step, target, action) = IsBanded action

abbrev pub IsBandedLast : Option (ℕ × ActionTensor) → Type 0
IsBandedLast none = Unit
IsBandedLast (some (step, action)) = IsBanded action

pub record IsTame (r : Remote) : Type 0 where
  pub bytes : All IsByte r.stream.incoming
  pub replies_banded : All IsBandedReply r.replies
  pub last_banded : IsBandedLast r.last_action

decode_action-IsBanded :
    (bytes : List ℕ) (step entity_id : ℕ) (a : ActionTensor)
    → All IsByte bytes
    → decode_action bytes ≡ some (step, entity_id, a)
    → IsBanded a
decode_action-IsBanded bytes step entity_id a h e =
    let s = decode_action_sound bytes step entity_id a e in
    from_f32-IsBanded (read_words action_stride (drop header_bytes bytes)) a
      (read_words-IsWord action_stride (drop header_bytes bytes)
        (All-drop IsByte header_bytes bytes h))
      s.2

receive-IsBanded :
    (now entity : ℕ) (replies : List Reply) (last : Option (ℕ × ActionTensor))
    → All IsBandedReply replies
    → IsBandedLast last
    → IsBandedLast (receive now entity replies last)
unfolding receive
receive-IsBanded now entity [] last h l = l
receive-IsBanded now entity ((step, target, action) ∷ replies) last h l =
    receive-IsBanded now entity replies
      (if target == entity && leb step now then some (step, action) else last) h.1
      (pick (target == entity && leb step now))
  where
    pick : (b : Bool) → IsBandedLast (if b then some (step, action) else last)
    pick true = h.0
    pick false = l

act-IsTame : (obs : ObservationTensor) (r : Remote) → IsTame r → IsTame (act obs r).0
unfolding act
act-IsTame obs r h =
    let sent = try_send r (encode_observation protocol_version obs) in
    let kept = try_send_frame r (encode_observation protocol_version obs) in
    record {
      bytes = rw kept.2 h.bytes;
      replies_banded = tt;
      last_banded =
          rw (kept.0, kept.1)
            (receive-IsBanded obs.step obs.entity_id r.replies r.last_action h.replies_banded
              h.last_banded);
    }

abbrev IsByteResult : Result (List ℕ) → Type 0
IsByteResult (ok frame) = All IsByte frame
IsByteResult (err e) = Unit

-- What a read returns as a frame is bytes.
read_frame-IsByte :
    (s t : Stream) (result : Result (List ℕ))
    → All IsByte s.incoming
    → read_frame s ≡ (result, t)
    → IsByteResult result
read_frame-IsByte s t (ok frame) h e =
    let i = read_frame_sound s t frame e in
    All-prefix IsByte frame t.incoming (subst (All IsByte) i.2 h)
read_frame-IsByte s t (err k) h e = tt

deliver-IsTame :
    (r : Remote) (result : Result (List ℕ)) (s : Stream)
    → IsTame r
    → All IsByte s.incoming
    → IsByteResult result
    → IsTame (deliver r (result, s))
unfolding deliver
deliver-IsTame r (ok frame) s h b f = elim (Option-cases (decode_action frame)) [
  | inl e ↦
      rw (e, deliver)
        (record { bytes = b; replies_banded = h.replies_banded; last_banded = h.last_banded })
  | inr ((step, target, action), e) ↦
      rw (e, deliver)
        (record {
          bytes = b;
          replies_banded =
              All-append IsBandedReply r.replies ((step, target, action) ∷ []) h.replies_banded
                (decode_action-IsBanded frame step target action f e, tt);
          last_banded = h.last_banded;
        })
]
deliver-IsTame r (err would_block) s h b f = record {
  bytes = b;
  replies_banded = h.replies_banded;
  last_banded = h.last_banded;
}
deliver-IsTame r (err e) s h b f = record {
  bytes = b;
  replies_banded = h.replies_banded;
  last_banded = h.last_banded;
}

thread_round-IsTame : (writes : Bool) (r : Remote) → IsTame r → IsTame (thread_round writes r)
unfolding thread_round
thread_round-IsTame writes r h = by_slot writes r.observation_slot
  where
    taken : Remote
    taken = record r { observation_slot = none }

    read : IsTame (deliver taken (read_frame r.stream))
    read =
        deliver-IsTame taken (read_frame r.stream).0 (read_frame r.stream).1
          (record {
            bytes = h.bytes;
            replies_banded = h.replies_banded;
            last_banded = h.last_banded;
          })
          (read_frame_rest IsByte r.stream h.bytes)
          (read_frame-IsByte r.stream (read_frame r.stream).1 (read_frame r.stream).0 h.bytes refl)

    by_test :
        (running w : Bool)
        → IsTame (
            if not running
            then r
            else (if w
                then deliver taken (read_frame r.stream)
                else record taken { is_running = false }))
    by_test false w = h
    by_test true true = read
    by_test true false = record {
      bytes = h.bytes;
      replies_banded = h.replies_banded;
      last_banded = h.last_banded;
    }

    by_slot :
        (w : Bool) (slot : Option (List ℕ))
        → IsTame (elim slot [
          | none ↦ r
          | some frame ↦
              if not r.is_running
              then r
              else (if w
                  then deliver taken (read_frame r.stream)
                  else record taken { is_running = false })
        ])
    by_slot w none = h
    by_slot w (some frame) = by_test r.is_running w

Step-IsTame : {r s : Remote} → Step r s → IsTame r → IsTame s
unfolding arrive
Step-IsTame (acts r obs) h = act-IsTame obs r h
Step-IsTame (rounds r writes) h = thread_round-IsTame writes r h
Step-IsTame (arrives r bytes ending b) h = record {
  bytes = All-append IsByte r.stream.incoming bytes h.bytes b;
  replies_banded = h.replies_banded;
  last_banded = h.last_banded;
}

Reach-IsTame : {r s : Remote} → IsTame r → Reach r s → IsTame s
Reach-IsTame h here = h
Reach-IsTame h (next p st) = Step-IsTame st (Reach-IsTame h p)

start-IsTame : (written : Bool) (s : Stream) → All IsByte s.incoming → IsTame (start written s)
unfolding start
start-IsTame written s h = record { bytes = h; replies_banded = tt; last_banded = tt }

default-IsBanded : IsBanded default_action
default-IsBanded = record {
  force_band = zero-IsShort;
  torque_band = omega arith;
  clamp_band = omega arith;
  fabricate_band = omega arith;
  freq_band = omega arith;
  phase_band = omega arith;
}

chosen-IsBanded :
    (now : ℕ) (last : Option (ℕ × ActionTensor)) → IsBandedLast last → IsBanded (choose now last)
chosen-IsBanded now last h = elim (choose_cases now last) [
  | inl d ↦ subst IsBanded (sym d) default-IsBanded
  | inr (step, e, age) ↦ subst IsBandedLast e h
]

-- Whatever bytes the peer sends, before and after reads that time out, and however the two threads
-- interleave, the action that the world is given has its torque, clamp, fabricator and oscillator
-- drive within their bands, and a finite force that is not longer than 1.0 or a longer one divided
-- by its length.
pub reachable_act-IsBanded :
    (written : Bool) (s : Stream) (r : Remote) (obs : ObservationTensor)
    → All IsByte s.incoming
    → Reach (start written s) r
    → IsBanded (act obs r).1
unfolding act
reachable_act-IsBanded written s r obs h p =
    let tame = act-IsTame obs r (Reach-IsTame (start-IsTame written s h) p) in
    chosen-IsBanded obs.step (act obs r).0.last_action tame.last_banded
