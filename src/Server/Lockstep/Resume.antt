-- ===== src/Server/Lockstep/Resume.antt =====
-- Only a peer that names the session and its token is attached again.
use ertw.Common.Bytes.{read_words}
use ertw.Interface.Wire.{frame_resume, wire_header_len, word_at}
use ertw.Server.Frame.{header_bytes, decode_header}
use ertw.Server.Stream.{err, Result, ok, read_frame}
use ertw.Server.Connection.{receive_frame, Connection}
use ertw.Server.Lockstep.Transport.{
  out_of_fuel, panicked, waiting, refused, attach, failed, finished, Transport, Verdict, Run,
  accept_resume, resume_from, resolve, admitted, is_ours, judge_request, judge_header, judge_frame,
}
use ertw.Common.{
  get_elem?, suc, inl, inr, ◌⊎◌, ◌∙◌, refl, none, Option, some, arith, ◌∷◌, [], drop, take, true,
  ◌≡◌, ℕ, List,
}
use ertw.Server.Lockstep.{ResumeRequest, LockstepConfig, same_bytes, Json}
use ertw.Server.Lockstep.Install.{IsInstalled, Installs, attach-IsInstalled}

-- What a connection must have sent to be attached.
pub record IsAuthentic (json : Json) (config : LockstepConfig) (c : Connection) : Type 0 where
  pub frame : List ℕ
  pub request : ResumeRequest
  pub reads : (read_frame c.stream).0 ≡ ok frame
  pub says_resume : word_at (read_words wire_header_len (take header_bytes frame)) 2 ≡ frame_resume
  pub parses : json.to_request (drop header_bytes frame) ≡ ok request
  pub same_session : request.session_id ≡ config.session_id
  pub same_token : request.resume_token ≡ config.resume_token

same_bytes-eq : (xs ys : List ℕ) → same_bytes xs ys ≡ true → xs ≡ ys
unfolding same_bytes
same_bytes-eq [] [] h = refl
same_bytes-eq [] (y ∷ ys) h = ground arith
same_bytes-eq (x ∷ xs) [] h = ground arith
same_bytes-eq (x ∷ xs) (y ∷ ys) h = ground (arith, same_bytes-eq xs ys)

is_ours-eq :
    (json : Json) (config : LockstepConfig) (request : ResumeRequest)
    → is_ours json config request ≡ true
    → (request.session_id ≡ config.session_id) × (request.resume_token ≡ config.resume_token)
unfolding is_ours
is_ours-eq json config request h =
    ground (arith, same_bytes-eq request.resume_token config.resume_token)

module _ (json : Json) where
  judge_request-admits :
      (config : LockstepConfig) (r : Result ResumeRequest)
      → judge_request json config r ≡ admitted
      → (request : ResumeRequest) × (r ≡ ok request) × (is_ours json config request ≡ true)
  unfolding judge_request
  judge_request-admits config (err e) h = ground arith
  judge_request-admits config (ok request) h = (request, refl, ground arith)

  judge_header-admits :
      (config : LockstepConfig) (frame header : List ℕ)
      → judge_header json config frame (some header) ≡ admitted
      → (word_at header 2 ≡ frame_resume)
        × (judge_request json config (json.to_request (drop header_bytes frame)) ≡ admitted)
  unfolding judge_header
  judge_header-admits config frame header h = ground arith

  judge_frame-admits :
      (config : LockstepConfig) (c : Connection) (frame : List ℕ) (header : Option (List ℕ))
      → (read_frame c.stream).0 ≡ ok frame
      → decode_header (take header_bytes frame) ≡ header
      → judge_header json config frame header ≡ admitted
      → IsAuthentic json config c
  unfolding decode_header judge_header
  judge_frame-admits config c frame none r d h = ground arith
  judge_frame-admits config c frame (some header) r d h =
      let says = judge_header-admits config frame header h in
      let asks = judge_request-admits config (json.to_request (drop header_bytes frame)) says.1 in
      let same = is_ours-eq json config (asks.0) (asks.2) in
      let words : read_words wire_header_len (take header_bytes frame) ≡ header = ground arith in
      record {
        frame = frame;
        request = asks.0;
        reads = r;
        says_resume = rw words (says.0);
        parses = asks.1;
        same_session = same.0;
        same_token = same.1;
      }

  judge-admits :
      (config : LockstepConfig) (c : Connection) (r : Result (List ℕ))
      → (read_frame c.stream).0 ≡ r
      → judge_frame json config r ≡ admitted
      → IsAuthentic json config c
  unfolding judge_frame
  judge-admits config c (err e) q h = ground arith
  judge-admits config c (ok frame) q h =
      judge_frame-admits config c frame (decode_header (take header_bytes frame)) q refl h

  -- The `i`-th accepted connection is authentic, and is the one of the transport: what it sends is
  -- what it sent behind its request. The connections behind it are still to come.
  pub record IsAttached (config : LockstepConfig) (accepts : List (Result Connection))
      (t : Transport) : Type 0 where
    pub i : ℕ
    pub accepted : Connection
    pub current : Connection
    pub comes : get_elem? accepts i ≡ some (ok accepted)
    pub authentic : IsAuthentic json config accepted
    pub held : t.connection ≡ some current
    pub follows : current.stream ≡ (read_frame accepted.stream).1
    pub left : t.accepts ≡ drop (suc i) accepts

  -- A resume that succeeds attached one of the accepted connections; one that fails may have done so
  -- too, or the transport has the connection that it had.
  abbrev pub IsResumed :
      LockstepConfig
      → Option Connection
      → List (Result Connection)
      → Run (Result (Unit {0}) × Transport)
      → Type 0
  IsResumed config now accepts (finished (ok u, t)) = IsAttached config accepts t
  IsResumed config now accepts (finished (err e, t)) =
      (t.connection ≡ now) ⊎ IsAttached config accepts t
  IsResumed config now accepts waiting = Unit
  IsResumed config now accepts panicked = Unit
  IsResumed config now accepts out_of_fuel = Unit

  IsAttached-later :
      (config : LockstepConfig) (a : Result Connection) (accepts : List (Result Connection))
      (t : Transport)
      → IsAttached config accepts t
      → IsAttached config (a ∷ accepts) t
  IsAttached-later config a accepts t h = record {
    i = suc h.i;
    accepted = h.accepted;
    current = h.current;
    comes = h.comes;
    authentic = h.authentic;
    held = h.held;
    follows = h.follows;
    left = h.left;
  }

  IsResumed-later :
      (config : LockstepConfig) (now : Option Connection) (a : Result Connection)
      (accepts : List (Result Connection)) (run : Run (Result (Unit {0}) × Transport))
      → IsResumed config now accepts run
      → IsResumed config now (a ∷ accepts) run
  IsResumed-later config now a accepts (finished (ok u, t)) h =
      IsAttached-later config a accepts t h
  IsResumed-later config now a accepts (finished (err e, t)) (inl q) = inl q
  IsResumed-later config now a accepts (finished (err e, t)) (inr h) =
      inr (IsAttached-later config a accepts t h)
  IsResumed-later config now a accepts waiting h = tt
  IsResumed-later config now a accepts panicked h = tt
  IsResumed-later config now a accepts out_of_fuel h = tt

  installed-IsResumed :
      (t t' : Transport) (c c' : Connection) (accepts : List (Result Connection))
      (r : Result (Unit {0}))
      → IsAuthentic json t.config c
      → t.accepts ≡ accepts
      → c'.stream ≡ (read_frame c.stream).1
      → IsInstalled t c' (r, t')
      → IsResumed t.config t.connection (ok c ∷ accepts) (finished (r, t'))
  installed-IsResumed t t' c c' accepts r authentic same follows h = by_result r h
    where
      attached : Installs t c' t' → IsAttached t.config (ok c ∷ accepts) t'
      attached (kept, current, held, stream) = record {
        i = 0;
        accepted = c;
        current = current;
        comes = refl;
        authentic = authentic;
        held = held;
        follows = stream ∙ follows;
        left = kept ∙ same;
      }

      by_result :
          (r' : Result (Unit {0}))
          → IsInstalled t c' (r', t')
          → IsResumed t.config t.connection (ok c ∷ accepts) (finished (r', t'))
      by_result (ok u) k = attached k
      by_result (err e) (inl q) = inl q
      by_result (err e) (inr k) = inr (attached k)

  resolve-IsResumed :
      (v : Verdict) (c c' : Connection) (t : Transport) (world_tick : ℕ)
      (rest : Run (Result (Unit {0}) × Transport))
      → (v ≡ admitted → IsAuthentic json t.config c)
      → c'.stream ≡ (read_frame c.stream).1
      → IsResumed t.config t.connection (ok c ∷ t.accepts) rest
      → IsResumed t.config t.connection (ok c ∷ t.accepts) (resolve json v c' t world_tick rest)
  unfolding resolve
  resolve-IsResumed refused c c' t world_tick rest h q r = r
  resolve-IsResumed (failed e) c c' t world_tick rest h q r = inl refl
  resolve-IsResumed admitted c c' t world_tick rest h q r =
      let m = attach json t c' world_tick in
      installed-IsResumed t m.1 c c' t.accepts m.0 (h refl) refl q
        (attach-IsInstalled json t c' world_tick)

  resume_from-IsResumed :
      (accepts : List (Result Connection)) (t : Transport) (world_tick : ℕ)
      → IsResumed t.config t.connection accepts (resume_from json accepts t world_tick)
  unfolding resume_from receive_frame
  resume_from-IsResumed [] t world_tick = tt
  resume_from-IsResumed (err e ∷ accepts) t world_tick = inl refl
  resume_from-IsResumed (ok c ∷ accepts) t world_tick =
      resolve-IsResumed _ c _ (record t { accepts = accepts }) world_tick _
        (λ h. judge-admits t.config c (read_frame c.stream).0 refl h) refl
        (IsResumed-later t.config t.connection (ok c) accepts _
          (resume_from-IsResumed accepts t world_tick))

  -- Where a resume succeeds, the transport's connection is an accepted one whose first frame is a
  -- resume request with the session's identifier and its token, byte for byte, read up to behind that
  -- frame; where it fails, the transport has such a connection or the one that it had.
  pub accept_resume-IsResumed :
      (t : Transport) (world_tick : ℕ)
      → IsResumed t.config t.connection t.accepts (accept_resume json t world_tick)
  unfolding accept_resume
  accept_resume-IsResumed t world_tick = resume_from-IsResumed t.accepts t world_tick
