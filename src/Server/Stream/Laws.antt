-- ===== src/Server/Stream/Laws.antt =====
-- Frames are cut from a stream where they end.
use mathlib.Core.List.{append_assoc}
use mathlib.Core.Path.{subst}
use ertw.Interface.Wire.{word_at, wire_header_len}
use ertw.Common.Bytes.{read_words}
use ertw.Server.Frame.{decode_header, max_frame_bytes, header_bytes}
use ertw.Server.Stream.{
  Result, after_header, check_header, with_body, err, read_exact, is_frame_header, ok, read_frame,
  ErrorKind, Stream,
}
use ertw.Common.{
  none, inr, All-drop, some, inl, Option, Bool-cases, All, ap₂, ap, sym, ◌∙◌, length-drop,
  length-take, take-append-drop, ◌-◌, drop, drop_prefix, take_prefix, length-append, arith, ◌+◌,
  leb, true, take, length, ◌≡◌, ◌++◌, ◌≤◌, ℕ, List,
}

-- A whole frame: its header names its own length.
pub record IsFrame (bytes : List ℕ) : Type 0 where
  pub long : header_bytes ≤ length bytes
  pub header_passes : is_frame_header (read_words wire_header_len (take header_bytes bytes)) ≡ true
  pub sized : word_at (read_words wire_header_len (take header_bytes bytes)) 3 ≡ length bytes

read_exact_prefix :
    (n : ℕ) (xs ys : List ℕ) (ending : ErrorKind)
    → length xs ≡ n
    → read_exact n (record { incoming = xs ++ ys; ending = ending })
      ≡ (ok xs, record { incoming = ys; ending = ending })
unfolding read_exact
read_exact_prefix n xs ys ending e =
    rw (length-append xs ys, e, enough n (length ys), take_prefix n xs ys e, drop_prefix n xs ys e)
  where
    enough : (n m : ℕ) → leb n (n + m) ≡ true
    enough n m = ground arith

split_frame :
    (head body rest : List ℕ) (ending : ErrorKind)
    → length head ≡ header_bytes
    → is_frame_header (read_words wire_header_len head) ≡ true
    → word_at (read_words wire_header_len head) 3 ≡ header_bytes + length body
    → read_frame (record { incoming = head ++ (body ++ rest); ending = ending })
      ≡ (ok (head ++ body), record { incoming = rest; ending = ending })
unfolding read_frame decode_header
split_frame head body rest ending l p s = rw (
  read_exact_prefix header_bytes head (body ++ rest) ending l,
  l,
  p,
  s,
  read_exact_prefix (header_bytes + length body - header_bytes) body rest ending (omega arith),
)

-- A frame whose header names its own length, at the front of a stream, is read whole, and the stream goes on right behind it.
pub read_frame_lem :
    (frame rest : List ℕ) (ending : ErrorKind)
    → IsFrame frame
    → read_frame (record { incoming = frame ++ rest; ending = ending })
      ≡ (ok frame, record { incoming = rest; ending = ending })
read_frame_lem frame rest ending h =
    let head = take header_bytes frame in
    let body = drop header_bytes frame in
    let whole : head ++ body ≡ frame = take-append-drop header_bytes frame in
    let l : length head ≡ header_bytes =
      omega (arith, length-take {0} header_bytes frame, h.long) in
    let size : length frame ≡ header_bytes + length body =
      omega (arith, length-drop {0} header_bytes frame, h.long) in
    subst
      (λ f.
        read_frame (record { incoming = f ++ rest; ending = ending })
        ≡ (ok f, record { incoming = rest; ending = ending }))
      whole
      (rw (append_assoc head body rest)
        (split_frame head body rest ending l h.header_passes (h.sized ∙ size)))

-- What a successful read found and left.
inverted :
    (s t : Stream) (frame : List ℕ)
    → read_frame s ≡ (ok frame, t)
    → let head = take header_bytes s.incoming in
      let m = word_at (read_words wire_header_len head) 3 - header_bytes in
      (header_bytes ≤ length s.incoming)
      × (m ≤ length (drop header_bytes s.incoming))
      × (is_frame_header (read_words wire_header_len head) ≡ true)
      × (frame ≡ head ++ take m (drop header_bytes s.incoming))
      × (t.incoming ≡ drop m (drop header_bytes s.incoming))
unfolding read_frame decode_header read_exact
inverted s t frame e = ground arith

header_size :
    (header : List ℕ)
    → is_frame_header header ≡ true
    → (header_bytes ≤ word_at header 3) × (word_at header 3 ≤ max_frame_bytes)
unfolding is_frame_header
header_size header p = ground arith

joined :
    (head body : List ℕ)
    → length head ≡ header_bytes
    → is_frame_header (read_words wire_header_len head) ≡ true
    → word_at (read_words wire_header_len head) 3 ≡ header_bytes + length body
    → IsFrame (head ++ body)
joined head body l p s = record {
  long = omega (arith, length-append {0} head body, l);
  header_passes = rw (take_prefix header_bytes head body l) p;
  sized = rw (take_prefix header_bytes head body l, length-append head body, l) s;
}

-- What is returned as a frame is one, is at most 16 MiB long, and is all that was taken.
pub read_frame_sound :
    (s t : Stream) (frame : List ℕ)
    → read_frame s ≡ (ok frame, t)
    → IsFrame frame × (length frame ≤ max_frame_bytes) × (s.incoming ≡ frame ++ t.incoming)
read_frame_sound s t frame e =
    let i = inverted s t frame e in
    let head = take header_bytes s.incoming in
    let rest = drop header_bytes s.incoming in
    let m = word_at (read_words wire_header_len head) 3 - header_bytes in
    let l : length head ≡ header_bytes =
      omega (arith, length-take {0} header_bytes s.incoming, i.0) in
    let b : length (take m rest) ≡ m = omega (arith, length-take {0} m rest, i.1) in
    let size = header_size (read_words wire_header_len head) i.2 in
    let f = joined head (take m rest) l i.2 (omega (arith, b, size)) in
    (
      subst IsFrame (sym i.3) f,
      subst (λ u. length u ≤ max_frame_bytes) (sym i.3)
          (omega (arith, length-append {0} head (take m rest), l, b, size)),
      sym (take-append-drop header_bytes s.incoming)
          ∙ ap (λ u. head ++ u) (sym (take-append-drop m rest))
          ∙ sym (append_assoc head (take m rest) (drop m rest))
          ∙ ap₂ ◌++◌ (sym i.3) (sym i.4),
    )

-- What holds of all that a stream has to give holds after a read, failed or not.
module _ (P : ℕ → Type 0) where
  read_exact_rest : (n : ℕ) (s : Stream) → All P s.incoming → All P (read_exact n s).1.incoming
  unfolding read_exact
  read_exact_rest n s h = elim (Bool-cases (leb n (length s.incoming))) [
    | inl e ↦ rw e (All-drop P n s.incoming h)
    | inr e ↦ rw e tt
  ]

  with_body_rest :
      (head : List ℕ) (r : Result (List ℕ) × Stream)
      → All P r.1.incoming
      → All P (with_body head r).1.incoming
  unfolding with_body
  with_body_rest head (ok body, s) h = h
  with_body_rest head (err e, s) h = h

  check_header_rest :
      (bytes : List ℕ) (o : Option (List ℕ)) (s : Stream)
      → All P s.incoming
      → All P (check_header bytes o s).1.incoming
  unfolding check_header
  check_header_rest bytes none s h = h
  check_header_rest bytes (some header) s h = elim (Bool-cases (is_frame_header header)) [
    | inl e ↦ rw e (
        with_body_rest bytes (read_exact (word_at header 3 - header_bytes) s)
          (read_exact_rest (word_at header 3 - header_bytes) s h))
    | inr e ↦ rw e h
  ]

  after_header_rest :
      (r : Result (List ℕ) × Stream) → All P r.1.incoming → All P (after_header r).1.incoming
  unfolding after_header
  after_header_rest (ok bytes, s) h = check_header_rest bytes (decode_header bytes) s h
  after_header_rest (err e, s) h = h

  pub read_frame_rest : (s : Stream) → All P s.incoming → All P (read_frame s).1.incoming
  unfolding read_frame
  read_frame_rest s h =
      after_header_rest (read_exact header_bytes s) (read_exact_rest header_bytes s h)
