-- ===== src/Server/Lockstep/Peers.antt =====
-- Whose bytes a transport reads: its connection's, or those of one that it will accept.
use ertw.Server.Lockstep.Resume.{accept_resume-IsResumed, IsAttached, IsResumed}
use ertw.Server.Lockstep.Transport.{
  emit_lifecycle, finished, out_of_fuel, panicked, post, ready, ready_on, accept_resume, retry, Run,
  Transport, waiting,
}
use ertw.Server.Lockstep.{Json, is_disconnect, is_invalid}
use ertw.Interface.Observation.{ObservationTensor}
use mathlib.Core.Path.{subst}
use ertw.Server.Connection.{Connection}
use ertw.Server.Stream.{ErrorKind, Result, ok, err, read_frame}
use ertw.Server.Stream.Suffix.{IsEnd, IsEnd-trans, read_frame-IsEnd}
use ertw.Common.{
  List, ℕ, Option, none, some, [], ◌∷◌, ◌≡◌, ◌⊎◌, inl, inr, drop, get_elem?, zero, suc, sym,
  if_both,
}

abbrev pub IsNow : Option Connection → List ℕ → Type 0
IsNow none bytes = ⊥
IsNow (some c) bytes = IsEnd c.stream.incoming bytes

abbrev pub IsComing : List (Result Connection) → List ℕ → Type 0
IsComing [] bytes = ⊥
IsComing (err e ∷ accepts) bytes = IsComing accepts bytes
IsComing (ok c ∷ accepts) bytes = IsEnd c.stream.incoming bytes ⊎ IsComing accepts bytes

-- The bytes are the end of what a peer sends.
abbrev pub IsFromPeer : Transport → List ℕ → Type 0
IsFromPeer t bytes = IsNow t.connection bytes ⊎ IsComing t.accepts bytes

IsComing-drop :
    (n : ℕ) (accepts : List (Result Connection)) (bytes : List ℕ)
    → IsComing (drop n accepts) bytes
    → IsComing accepts bytes
IsComing-drop zero accepts bytes h = h
IsComing-drop (suc n) [] bytes h = h
IsComing-drop (suc n) (err e ∷ accepts) bytes h = IsComing-drop n accepts bytes h
IsComing-drop (suc n) (ok c ∷ accepts) bytes h = inr (IsComing-drop n accepts bytes h)

IsComing-get_elem? :
    (accepts : List (Result Connection)) (i : ℕ) (c : Connection) (bytes : List ℕ)
    → get_elem? accepts i ≡ some (ok c)
    → IsEnd c.stream.incoming bytes
    → IsComing accepts bytes
IsComing-get_elem? [] i c bytes g h = absurd (cc)
IsComing-get_elem? (err e ∷ accepts) zero c bytes g h = absurd (cc)
IsComing-get_elem? (ok d ∷ accepts) zero c bytes g h =
    let same : d ≡ c = cc in
    inl (subst (λ (x : Connection). IsEnd x.stream.incoming bytes) (sym same) h)
IsComing-get_elem? (err e ∷ accepts) (suc i) c bytes g h = IsComing-get_elem? accepts i c bytes g h
IsComing-get_elem? (ok d ∷ accepts) (suc i) c bytes g h =
    inr (IsComing-get_elem? accepts i c bytes g h)

-- Each peer of a later transport is one of an earlier.
abbrev pub IsFollowed : Transport → Transport → Type 0
IsFollowed t t' = (bytes : List ℕ) → IsFromPeer t' bytes → IsFromPeer t bytes

module _ (json : Json) where
  attached-IsFollowed : (t t' : Transport) → IsAttached json t.config t.accepts t' → IsFollowed t t'
  attached-IsFollowed t t' h bytes (inl now) =
      let here : IsEnd h.current.stream.incoming bytes = subst (λ o. IsNow o bytes) h.held now in
      let there : IsEnd (read_frame h.accepted.stream).1.incoming bytes =
        subst (λ s. IsEnd s.incoming bytes) h.follows here in
      inr (
        IsComing-get_elem? t.accepts h.i h.accepted bytes h.comes (
          IsEnd-trans h.accepted.stream.incoming _ bytes (read_frame-IsEnd h.accepted.stream)
            there))
  attached-IsFollowed t t' h bytes (inr coming) =
      inr (IsComing-drop (suc h.i) t.accepts bytes (subst (λ l. IsComing l bytes) h.left coming))

  -- A transport that is ready has the peers that it had.
  abbrev pub IsReadied : Transport → Run (Result (Unit {0}) × Transport) → Type 0
  IsReadied t (finished (ok u, t')) = IsFollowed t t'
  IsReadied t (finished (err e, t')) = Unit
  IsReadied t waiting = Unit
  IsReadied t panicked = Unit
  IsReadied t out_of_fuel = Unit

  resumed-IsReadied :
      (t : Transport) (run : Run (Result (Unit {0}) × Transport))
      → IsResumed json t.config t.connection t.accepts run
      → IsReadied t run
  resumed-IsReadied t (finished (ok u, t')) h = attached-IsFollowed t t' h
  resumed-IsReadied t (finished (err e, t')) h = tt
  resumed-IsReadied t waiting h = tt
  resumed-IsReadied t panicked h = tt
  resumed-IsReadied t out_of_fuel h = tt

  ready_on-IsReadied :
      (o : Option Connection) (t : Transport) (world_tick : ℕ)
      → IsReadied t (ready_on json o t world_tick)
  unfolding ready_on
  ready_on-IsReadied none t world_tick =
      resumed-IsReadied t (accept_resume json t world_tick)
        (accept_resume-IsResumed json t world_tick)
  ready_on-IsReadied (some c) t world_tick = λ bytes h. h

  pub ready-IsReadied : (t : Transport) (world_tick : ℕ) → IsReadied t (ready json t world_tick)
  unfolding ready
  ready-IsReadied t world_tick = ready_on-IsReadied t.connection t world_tick

  abbrev pub IsFollowedBy : Transport → Option Transport → Type 0
  IsFollowedBy t none = Unit
  IsFollowedBy t (some t') = IsFollowed t t'

  dropped-IsFollowed : (t : Transport) → IsFollowed t (record t { connection = none })
  dropped-IsFollowed t bytes (inl now) = absurd now
  dropped-IsFollowed t bytes (inr coming) = inr coming

  pub retry-IsFollowedBy :
      (obs : ObservationTensor) (e : ErrorKind) (t : Transport)
      → IsFollowedBy t (retry json obs e t)
  unfolding retry emit_lifecycle post
  retry-IsFollowedBy obs e t =
      if_both (IsFollowedBy t) (is_disconnect e) (dropped-IsFollowed t)
        (if_both (IsFollowedBy t) (is_invalid e) (λ bytes h. h) tt)
