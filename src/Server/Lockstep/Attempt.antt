-- ===== src/Server/Lockstep/Attempt.antt =====
-- What one attempt of an exchange does to its connection.
use ertw.Server.Frame.{decode_action}
use mathlib.Core.Path.{subst}
use ertw.Common.{refl, inl, ℕ, inr, List, arith, ◌∙◌, ◌⊎◌, ◌<◌, length, ◌≡◌}
use ertw.Interface.Observation.{ObservationTensor}
use ertw.Server.Connection.Laws.{
  read_frame-IsLater, and_then-Written, write_all-Written, Written, IsLater,
}
use ertw.Server.Lockstep.Transport.{read_answer, judge_action, attempt}
use ertw.Server.Stream.{read_frame, ErrorKind, Stream, err, ok, Result}
use ertw.Server.Lockstep.{ObservationExtension, LockstepConfig, write_json_frame, Json}
use ertw.Server.Connection.{and_then, receive_frame, Connection}

-- The connection after an attempt: nothing is left to read that was not there, and either bytes were
-- taken or the error is the connection's own.
pub record Attempted {ℓ} {A : Type ℓ} (c : Connection) (m : Result A × Connection) : Type ℓ where
  pub later : IsLater c.stream m.1.stream
  pub same_refusal : m.1.refusal ≡ c.refusal
  pub takes :
      (length m.1.stream.incoming < length c.stream.incoming)
      ⊎ ((m.0 ≡ err (c.refusal)) ⊎ (m.0 ≡ err (c.stream.ending)))

abbrev Takes {ℓ} : {A : Type ℓ} → Result A × Connection → Stream → ErrorKind → Type ℓ
Takes m s refusal =
    (length m.1.stream.incoming < length s.incoming)
    ⊎ ((m.0 ≡ err refusal) ⊎ (m.0 ≡ err (s.ending)))

write_then-Attempted :
    {A : Type 0} (c : Connection) (m : Result (Unit {0}) × Connection)
    (f : Connection → Result A × Connection)
    → Written c m
    → ((c' : Connection) → Attempted c' (f c'))
    → Attempted c (and_then m (λ _. f))
write_then-Attempted c (ok u, c') f w k =
    let a = k c' in
    record {
      later = subst (λ s. IsLater s (f c').1.stream) w.same_stream a.later;
      same_refusal = a.same_refusal ∙ w.same_refusal;
      takes =
          subst (λ s. Takes (f c') s (c.refusal)) w.same_stream
            (subst (λ r. Takes (f c') (c'.stream) r) w.same_refusal a.takes);
    }
write_then-Attempted c (err e, c') f w k = record {
  later = subst (λ s. IsLater s (c'.stream)) w.same_stream (refl, omega arith);
  same_refusal = w.same_refusal;
  takes = inr (inl (ground (arith, w.outcome)));
}

module _ (json : Json) where
  answered :
      (obs : ObservationTensor) (c : Connection) (m : Result (List ℕ) × Stream)
      → IsLater c.stream m.1
      → (length m.1.incoming < length c.stream.incoming) ⊎ (m.0 ≡ err (c.stream.ending))
      → Attempted c (
          and_then
            (m.0, record c { stream = m.1 })
            (λ frame c'. (judge_action json obs (decode_action frame), c')))
  answered obs c (ok frame, s) l t = record {
    later = l;
    same_refusal = refl;
    takes = inl (ground (arith, t));
  }
  answered obs c (err e, s) l (inl t) = record { later = l; same_refusal = refl; takes = inl t }
  answered obs c (err e, s) l (inr h) = record {
    later = l;
    same_refusal = refl;
    takes = inr (inr (ground (arith, h)));
  }

  received : (obs : ObservationTensor) (c : Connection) → Attempted c (read_answer json obs c)
  unfolding read_answer receive_frame
  received obs c =
      let r = read_frame-IsLater c.stream in answered obs c (read_frame c.stream) r.0 r.1

  pub attempt-Attempted :
      (config : LockstepConfig) (obs : ObservationTensor) (extension : ObservationExtension)
      (c : Connection)
      → Attempted c (attempt json config obs extension c)
  unfolding attempt write_json_frame
  attempt-Attempted config obs extension c =
      write_then-Attempted c _ _
        (and_then-Written c _ _ (write_all-Written _ c)
          (λ c1. and_then-Written c1 _ _ (write_all-Written _ c1) (λ c2. write_all-Written _ c2)))
        (λ c3. received obs c3)
