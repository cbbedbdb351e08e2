-- ===== src/Server/Lockstep/Ready.antt =====
-- Before an attempt the transport holds a connection, paid for by those to come.
use ertw.Interface.Session.{LifecycleEvent}
use mathlib.Core.Path.{subst}
use ertw.Server.Lockstep.{write_json_frame, Json}
use ertw.Server.Connection.Laws.{write_all-Written, read_frame-IsLater, and_then-Written, Written}
use ertw.Server.Lockstep.Transport.{
  ready_on, welcome, admitted, refused, failed, accept_resume, Verdict, emit_lifecycle, resume_from,
  resolve, attach, install, greeted, post, greet, write_events, write_event, out_of_fuel, panicked,
  waiting, finished, Run, Transport,
}
use ertw.Common.{
  refl, inl, arith, sym, ◌≤◌, ◌≡◌, [], length, ◌+◌, suc, ◌∷◌, none, ℕ, All, some, ◌≢◌, List, Option,
}
use ertw.Server.Stream.{ErrorKind, Stream, err, invalid_data, ok, Result}
use ertw.Server.Connection.{receive_frame, Connection}

-- The system never reports `InvalidData` on a socket.
abbrev pub IsHonest : Connection → Type 0
IsHonest c = (c.refusal ≢ invalid_data) × (c.stream.ending ≢ invalid_data)

abbrev pub IsHonestAccept : Result Connection → Type 0
IsHonestAccept (ok c) = IsHonest c
IsHonestAccept (err e) = Unit

abbrev pub IsHonestNow : Option Connection → Type 0
IsHonestNow none = Unit
IsHonestNow (some c) = IsHonest c

pub record IsHonestTransport (t : Transport) : Type 0 where
  pub accepts_honest : All IsHonestAccept t.accepts
  pub now_honest : IsHonestNow t.connection

-- How many rounds the connections to come can feed.
unfoldable pub reserve : List (Result Connection) → ℕ
reserve [] = 0
reserve (err e ∷ accepts) = reserve accepts
reserve (ok c ∷ accepts) = 2 + length c.stream.incoming + reserve accepts

unfoldable pub supply : Option Connection → ℕ
supply none = 0
supply (some c) = suc (length c.stream.incoming)

unfoldable pub rounds_left : Transport → ℕ
rounds_left t = supply t.connection + reserve t.accepts

-- A call of `exchange` comes to an end or waits for a peer.
abbrev pub IsSettled {ℓ} : {A : Type ℓ} → Run A → Type 0
IsSettled (finished a) = Unit
IsSettled waiting = Unit
IsSettled panicked = ⊥
IsSettled out_of_fuel = ⊥

-- A transport that is ready for an attempt, with rounds left for it.
abbrev pub IsReady : ℕ → Run (Result (Unit {0}) × Transport) → Type 0
IsReady n waiting = Unit
IsReady n panicked = ⊥
IsReady n out_of_fuel = ⊥
IsReady n (finished (err e, t)) = Unit
IsReady n (finished (ok u, t)) =
    (c : Connection) × (t.connection ≡ some c)
    × IsHonest c
    × All IsHonestAccept t.accepts
    × (suc (length c.stream.incoming) + reserve t.accepts ≤ n)

write-IsHonest :
    (c : Connection) (m : Result (Unit {0}) × Connection) → Written c m → IsHonest c → IsHonest m.1
write-IsHonest c m w h = (
  subst (λ r. r ≢ invalid_data) (sym w.same_refusal) (h.0),
  subst (λ (s : Stream). s.ending ≢ invalid_data) (sym w.same_stream) (h.1),
)

module _ (json : Json) where
  pub write_event-Written : (e : LifecycleEvent) (c : Connection) → Written c (write_event json e c)
  unfolding write_event write_json_frame
  write_event-Written e c =
      and_then-Written c _ _ (write_all-Written _ c) (λ c'. write_all-Written _ c')

  pub write_events-Written :
      (events : List LifecycleEvent) (c : Connection) → Written c (write_events json events c)
  unfolding write_events
  write_events-Written [] c = record { same_stream = refl; same_refusal = refl; outcome = inl refl }
  write_events-Written (e ∷ events) c =
      and_then-Written c _ _ (write_event-Written e c) (λ c'. write_events-Written events c')

  pub greet-Written :
      (t : Transport) (world_tick : ℕ) (c : Connection) → Written c (greet json t world_tick c)
  unfolding greet write_json_frame
  greet-Written t world_tick c =
      and_then-Written c _ _
        (and_then-Written c _ _ (write_all-Written _ c) (λ c'. write_all-Written _ c'))
        (λ c'. write_events-Written t.pending_lifecycle c')

  result-IsReady :
      (n : ℕ) (r : Result (Unit {0})) (t : Transport) (c : Connection)
      → (t.connection ≡ some c)
      → IsHonest c
      → All IsHonestAccept t.accepts
      → suc (length c.stream.incoming) + reserve t.accepts ≤ n
      → IsReady n (finished (r, t))
  result-IsReady n (ok u) t c e h a le = (c, e, h, a, le)
  result-IsReady n (err k) t c e h a le = tt

  post-IsReady :
      (n : ℕ) (e : LifecycleEvent) (t : Transport) (c : Connection)
      → IsHonest c
      → All IsHonestAccept t.accepts
      → suc (length c.stream.incoming) + reserve t.accepts ≤ n
      → IsReady n (finished (post json e t (some c)))
  unfolding post
  post-IsReady n e t c h a le =
      let w = write_event-Written e c in
      result-IsReady n _ _ (write_event json e c).1 refl (write-IsHonest c _ w h) a (
        subst (λ (s : Stream). suc (length s.incoming) + reserve t.accepts ≤ n) (sym w.same_stream)
          le)

  greeted-accepts :
      (t : Transport) (world_tick : ℕ) (c : Connection)
      → (greeted json t world_tick c).accepts ≡ t.accepts
  unfolding greeted
  greeted-accepts t world_tick c = ground arith

  install-IsReady :
      (n : ℕ) (t : Transport) (world_tick : ℕ) (c : Connection) (m : Result (Unit {0}) × Connection)
      → Written c m
      → IsHonest c
      → All IsHonestAccept t.accepts
      → suc (length c.stream.incoming) + reserve t.accepts ≤ n
      → IsReady n (finished (install json t world_tick m))
  unfolding install emit_lifecycle
  install-IsReady n t world_tick c (err e, c') w h a le = tt
  install-IsReady n t world_tick c (ok u, c') w h a le =
      post-IsReady n _ (record t { connection = some c' }) c' (write-IsHonest c (ok u, c') w h) a
        (subst (λ (s : Stream). suc (length s.incoming) + reserve t.accepts ≤ n) (sym w.same_stream)
          le)

  welcome-IsReady :
      (o : Option ErrorKind) (n : ℕ) (t : Transport) (c : Connection) (world_tick : ℕ)
      → IsHonest c
      → All IsHonestAccept t.accepts
      → suc (length c.stream.incoming) + reserve t.accepts ≤ n
      → IsReady n (finished (welcome json o t c world_tick))
  unfolding welcome
  welcome-IsReady (some e) n t c world_tick h a le = tt
  welcome-IsReady none n t c world_tick h a le =
      let kept = sym (greeted-accepts t world_tick c) in
      install-IsReady n (greeted json t world_tick c) world_tick c _ (greet-Written t world_tick c)
        h (subst (All IsHonestAccept) kept a)
        (subst (λ l. suc (length c.stream.incoming) + reserve l ≤ n) kept le)

  resolve-IsReady :
      (n : ℕ) (v : Verdict) (c : Connection) (t : Transport) (world_tick : ℕ)
      (rest : Run (Result (Unit {0}) × Transport))
      → IsHonest c
      → All IsHonestAccept t.accepts
      → suc (length c.stream.incoming) + reserve t.accepts ≤ n
      → IsReady n rest
      → IsReady n (resolve json v c t world_tick rest)
  unfolding resolve attach
  resolve-IsReady n refused c t world_tick rest h a le r = r
  resolve-IsReady n admitted c t world_tick rest h a le r =
      welcome-IsReady c.settings n t c world_tick h a le
  resolve-IsReady n (failed e) c t world_tick rest h a le r = tt

  grow : (m n : ℕ) (r : Run (Result (Unit {0}) × Transport)) → m ≤ n → IsReady m r → IsReady n r
  grow m n waiting le h = tt
  grow m n panicked le h = h
  grow m n out_of_fuel le h = h
  grow m n (finished (err e, t)) le h = tt
  grow m n (finished (ok u, t)) le h = (h.0, h.1, h.2, h.3, omega (arith, h.4))

  resume_from-IsReady :
      (accepts : List (Result Connection)) (t : Transport) (world_tick : ℕ)
      → All IsHonestAccept accepts
      → IsReady (reserve accepts) (resume_from json accepts t world_tick)
  unfolding resume_from receive_frame reserve
  resume_from-IsReady [] t world_tick h = tt
  resume_from-IsReady (err e ∷ accepts) t world_tick h = tt
  resume_from-IsReady (ok c ∷ accepts) t world_tick h =
      let r = read_frame-IsLater c.stream in
      resolve-IsReady _ _ _ _ world_tick _
        (h.0.0, subst (λ e. e ≢ invalid_data) (sym r.0.0) (h.0.1)) (h.1) (omega (arith, r.0.1))
        (grow (reserve accepts) _ _ (omega arith) (resume_from-IsReady accepts t world_tick h.1))

  pub ready_on-IsReady :
      (o : Option Connection) (t : Transport) (world_tick : ℕ)
      → t.connection ≡ o
      → IsHonestTransport t
      → IsReady (rounds_left t) (ready_on json o t world_tick)
  unfolding ready_on accept_resume rounds_left supply
  ready_on-IsReady none t world_tick e h =
      grow (reserve t.accepts) _ _ (omega arith)
        (resume_from-IsReady t.accepts t world_tick h.accepts_honest)
  ready_on-IsReady (some c) t world_tick e h =
      (c, e, subst IsHonestNow e h.now_honest, h.accepts_honest, rw e (omega arith))
