-- ===== src/Server/Lockstep/Install.antt =====
-- What `attach` makes the connection of a transport.
use ertw.Server.Lockstep.Ready.{write_event-Written, greet-Written}
use ertw.Server.Connection.Laws.{Written}
use ertw.Server.Lockstep.Transport.{
  attach, emit_lifecycle, greeted, install, post, Transport, welcome, write_event,
}
use ertw.Interface.Session.{LifecycleEvent}
use ertw.Server.Lockstep.{Json}
use ertw.Server.Connection.{Connection}
use ertw.Server.Stream.{ErrorKind, Result, ok, err}
use ertw.Common.{ℕ, Option, none, some, ◌≡◌, ◌∙◌, ◌⊎◌, inl, inr, refl, arith}

-- The connection of the transport sends what the installed one sends.
abbrev pub Installs : Transport → Connection → Transport → Type 0
Installs t c t' =
    (t'.accepts ≡ t.accepts)
    × (c' : Connection) × (t'.connection ≡ some c')
    × (c'.stream ≡ c.stream)

abbrev pub IsInstalled : Transport → Connection → Result (Unit {0}) × Transport → Type 0
IsInstalled t c (ok u, t') = Installs t c t'
IsInstalled t c (err e, t') = (t'.connection ≡ t.connection) ⊎ Installs t c t'

either-IsInstalled :
    (t t' : Transport) (c : Connection) (r : Result (Unit {0}))
    → Installs t c t'
    → IsInstalled t c (r, t')
either-IsInstalled t t' c (ok u) h = h
either-IsInstalled t t' c (err e) h = inr h

module _ (json : Json) where
  post-IsInstalled :
      (e : LifecycleEvent) (t t0 : Transport) (c c0 : Connection)
      → t.accepts ≡ t0.accepts
      → c.stream ≡ c0.stream
      → IsInstalled t0 c0 (post json e t (some c))
  unfolding post
  post-IsInstalled e t t0 c c0 same stream =
      let m = write_event json e c in
      either-IsInstalled t0 (record t { lifecycle_sequence = e.sequence; connection = some m.1 }) c0
        m.0 (same, m.1, refl, (write_event-Written json e c).same_stream ∙ stream)

  install-IsInstalled :
      (t t0 : Transport) (world_tick : ℕ) (c0 : Connection) (m : Result (Unit {0}) × Connection)
      → t.accepts ≡ t0.accepts
      → t.connection ≡ t0.connection
      → Written c0 m
      → IsInstalled t0 c0 (install json t world_tick m)
  unfolding install emit_lifecycle
  install-IsInstalled t t0 world_tick c0 (err e, c) same now w = inl now
  install-IsInstalled t t0 world_tick c0 (ok u, c) same now w =
      post-IsInstalled _ (record t { connection = some c }) t0 c c0 same w.same_stream

  greeted_rest :
      (t : Transport) (world_tick : ℕ) (c : Connection)
      → ((greeted json t world_tick c).accepts ≡ t.accepts)
        × ((greeted json t world_tick c).connection ≡ t.connection)
  unfolding greeted
  greeted_rest t world_tick c = ground arith

  welcome-IsInstalled :
      (o : Option ErrorKind) (t : Transport) (c : Connection) (world_tick : ℕ)
      → IsInstalled t c (welcome json o t c world_tick)
  unfolding welcome
  welcome-IsInstalled (some e) t c world_tick = inl refl
  welcome-IsInstalled none t c world_tick =
      let rest = greeted_rest t world_tick c in
      install-IsInstalled (greeted json t world_tick c) t world_tick c _ rest.0 rest.1
        (greet-Written json t world_tick c)

  pub attach-IsInstalled :
      (t : Transport) (c : Connection) (world_tick : ℕ)
      → IsInstalled t c (attach json t c world_tick)
  unfolding attach
  attach-IsInstalled t c world_tick = welcome-IsInstalled c.settings t c world_tick
