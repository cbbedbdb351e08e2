-- ===== src/Server/Stream/Suffix.antt =====
-- What a read leaves is an end of what there was.
use mathlib.Core.List.{append_assoc, append-nil}
use ertw.Interface.Wire.{word_at}
use ertw.Server.Frame.{header_bytes, decode_header}
use ertw.Server.Stream.{
  Stream, Result, ok, err, read_exact, read_frame, check_header, after_header, with_body,
  is_frame_header,
}
use ertw.Common.{
  List, ℕ, Option, none, some, [], ◌++◌, ◌≡◌, ◌∙◌, ◌-◌, sym, refl, ap, take, leb, length,
  take-append-drop, Bool-cases, inl, inr, if_both,
}

-- The bytes are the end of the whole.
abbrev pub IsEnd : List ℕ → List ℕ → Type 0
IsEnd whole bytes = (before : List ℕ) × (whole ≡ before ++ bytes)

pub IsEnd-refl : (bytes : List ℕ) → IsEnd bytes bytes
IsEnd-refl bytes = ([], refl)

pub IsEnd-trans : (a b c : List ℕ) → IsEnd a b → IsEnd b c → IsEnd a c
IsEnd-trans a b c (f, p) (g, q) = (f ++ g, p ∙ ap (λ l. f ++ l) q ∙ sym (append_assoc f g c))

read_exact-IsEnd : (n : ℕ) (s : Stream) → IsEnd s.incoming (read_exact n s).1.incoming
unfolding read_exact
read_exact-IsEnd n s = elim (Bool-cases (leb n (length s.incoming))) [
  | inl e ↦ rw e (take n s.incoming, sym (take-append-drop n s.incoming))
  | inr e ↦ rw e (s.incoming, sym (append-nil s.incoming))
]

with_body-IsEnd :
    (whole head : List ℕ) (r : Result (List ℕ) × Stream)
    → IsEnd whole r.1.incoming
    → IsEnd whole (with_body head r).1.incoming
unfolding with_body
with_body-IsEnd whole head (ok body, s) h = h
with_body-IsEnd whole head (err e, s) h = h

check_header-IsEnd :
    (whole bytes : List ℕ) (o : Option (List ℕ)) (s : Stream)
    → IsEnd whole s.incoming
    → IsEnd whole (check_header bytes o s).1.incoming
unfolding check_header
check_header-IsEnd whole bytes none s h = h
check_header-IsEnd whole bytes (some header) s h =
    let n = word_at header 3 - header_bytes in
    if_both (λ (r : Result (List ℕ) × Stream). IsEnd whole r.1.incoming) (is_frame_header header)
      (with_body-IsEnd whole bytes (read_exact n s)
        (IsEnd-trans whole s.incoming (read_exact n s).1.incoming h (read_exact-IsEnd n s)))
      h

after_header-IsEnd :
    (whole : List ℕ) (r : Result (List ℕ) × Stream)
    → IsEnd whole r.1.incoming
    → IsEnd whole (after_header r).1.incoming
unfolding after_header
after_header-IsEnd whole (ok bytes, s) h = check_header-IsEnd whole bytes (decode_header bytes) s h
after_header-IsEnd whole (err e, s) h = h

pub read_frame-IsEnd : (s : Stream) → IsEnd s.incoming (read_frame s).1.incoming
unfolding read_frame
read_frame-IsEnd s =
    after_header-IsEnd s.incoming (read_exact header_bytes s) (read_exact-IsEnd header_bytes s)
