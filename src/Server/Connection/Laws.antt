-- ===== src/Server/Connection/Laws.antt =====
-- What writing and reading leave of a connection.
use ertw.Interface.Wire.{word_at}
use ertw.Server.Frame.{header_bytes, decode_header}
use ertw.Common.{
  none, ◌-◌, if_both, refl, some, Option, [], length-drop, inr, arith, ◌≤◌, ◌∙◌, inl, ◌⊎◌, length,
  leb, ◌<◌, Bool-cases, ◌≡◌, ℕ, List,
}
use ertw.Server.Stream.{
  is_frame_header, err, with_body, ok, check_header, after_header, Result, read_frame, read_exact,
  Stream,
}
use ertw.Server.Connection.{and_then, write_all, Connection}

-- A write keeps what the peer sends, and fails with the connection's own error only.
pub record Written (c : Connection) (m : Result (Unit {0}) × Connection) : Type 0 where
  pub same_stream : m.1.stream ≡ c.stream
  pub same_refusal : m.1.refusal ≡ c.refusal
  pub outcome : (m.0 ≡ ok tt) ⊎ (m.0 ≡ err (c.refusal))

pub write_all-Written : (bytes : List ℕ) (c : Connection) → Written c (write_all bytes c)
unfolding write_all
write_all-Written bytes c = elim (Bool-cases (leb (length bytes) c.room)) [
  | inl e ↦ record {
    same_stream = ground arith;
    same_refusal = ground arith;
    outcome = inl (ground arith);
  }
  | inr e ↦ record {
    same_stream = ground arith;
    same_refusal = ground arith;
    outcome = inr (ground arith);
  }
]

pub and_then-Written :
    (c : Connection) (m : Result (Unit {0}) × Connection)
    (f : Connection → Result (Unit {0}) × Connection)
    → Written c m
    → ((c' : Connection) → Written c' (f c'))
    → Written c (and_then m (λ _. f))
and_then-Written c (ok u, c') f h k =
    let w = k c' in
    record {
      same_stream = w.same_stream ∙ h.same_stream;
      same_refusal = w.same_refusal ∙ h.same_refusal;
      outcome = ground (arith, w.outcome, h.same_refusal);
    }
and_then-Written c (err e, c') f h k = record {
  same_stream = h.same_stream;
  same_refusal = h.same_refusal;
  outcome = h.outcome;
}

-- A later state of a stream: it ends with the same error, and has no more to give.
abbrev pub IsLater : Stream → Stream → Type 0
IsLater s t = (t.ending ≡ s.ending) × (length t.incoming ≤ length s.incoming)

read_exact-IsLater : (n : ℕ) (s : Stream) → IsLater s (read_exact n s).1
unfolding read_exact
read_exact-IsLater n s = ground (arith, length-drop {0} n s.incoming)

read_exact_takes :
    (n : ℕ) (s : Stream)
    → 0 < n
    → (length (read_exact n s).1.incoming < length s.incoming)
      ⊎ (read_exact n s ≡ (err (s.ending), record s { incoming = [] }))
unfolding read_exact
read_exact_takes n s h = elim (Bool-cases (leb n (length s.incoming))) [
  | inl e ↦ inl (rw e (ground (arith, length-drop {0} n s.incoming)))
  | inr e ↦ inr (rw e refl)
]

with_body-IsLater :
    (s : Stream) (head : List ℕ) (r : Result (List ℕ) × Stream)
    → IsLater s r.1
    → IsLater s (with_body head r).1
unfolding with_body
with_body-IsLater s head (ok body, t) h = h
with_body-IsLater s head (err e, t) h = h

check_header-IsLater :
    (bytes : List ℕ) (o : Option (List ℕ)) (s : Stream) → IsLater s (check_header bytes o s).1
unfolding check_header
check_header-IsLater bytes none s = (refl, omega arith)
check_header-IsLater bytes (some header) s =
    if_both (λ (r : Result (List ℕ) × Stream). IsLater s r.1) (is_frame_header header)
      (with_body-IsLater s bytes _ (read_exact-IsLater (word_at header 3 - header_bytes) s))
      (refl, omega arith)

after_header-IsLater :
    (s : Stream) (r : Result (List ℕ) × Stream) → IsLater s r.1 → IsLater s (after_header r).1
unfolding after_header
after_header-IsLater s (ok bytes, t) h =
    let c = check_header-IsLater bytes (decode_header bytes) t in
    (c.0 ∙ h.0, omega (arith, c.1, h.1))
after_header-IsLater s (err e, t) h = h

-- A read leaves a later stream, and takes something unless it meets the end.
pub read_frame-IsLater :
    (s : Stream)
    → IsLater s (read_frame s).1
      × ((length (read_frame s).1.incoming < length s.incoming)
          ⊎ ((read_frame s).0 ≡ err (s.ending)))
unfolding read_frame
read_frame-IsLater s = (
  after_header-IsLater s (read_exact header_bytes s) (read_exact-IsLater header_bytes s),
  elim (read_exact_takes header_bytes s (omega arith)) [
    | inl t ↦ inl (
        omega (
          arith,
          t,
          after_header-IsLater (read_exact header_bytes s).1 (read_exact header_bytes s)
              (refl, omega arith),
        ))
    | inr e ↦ inr (rw e refl)
  ],
)
