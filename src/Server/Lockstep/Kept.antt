-- ===== src/Server/Lockstep/Kept.antt =====
-- The configuration of a session never changes.
use mathlib.Core.Path.{subst}
use Prim.Native.String.{String}
use ertw.Interface.Action.{ActionTensor}
use ertw.Interface.Observation.{ObservationTensor}
use ertw.Server.Connection.{Connection}
use ertw.Interface.Session.{LifecycleKind, LifecycleEvent}
use ertw.Server.Stream.{ok, err, Result, ErrorKind}
use ertw.Common.{none, some, refl, zero, suc, [], ◌∷◌, ◌≡◌, ◌∙◌, arith, ℕ, List, Option, if_both}
use ertw.Server.Lockstep.Transport.{
  paused, Verdict, ready, accept_resume, attach, exchange, round, conclude, around, retry, ready_on,
  resume_from, resolve, welcome, install, greeted, emit_lifecycle, post, Transport, Run, finished,
  waiting, panicked, out_of_fuel, refused, admitted, failed,
}
use ertw.Server.Lockstep.{is_invalid, ObservationExtension, is_disconnect, LockstepConfig, Json}

-- A call that ends leaves the configuration.
abbrev pub IsKept {ℓ} : {A : Type ℓ} → LockstepConfig → Run (A × Transport) → Type 0
IsKept config (finished (a, t)) = t.config ≡ config
IsKept config waiting = Unit
IsKept config panicked = Unit
IsKept config out_of_fuel = Unit

abbrev IsKeptBy : LockstepConfig → Option Transport → Type 0
IsKeptBy config none = Unit
IsKeptBy config (some t) = t.config ≡ config

module _ (json : Json) where
  post-config :
      (e : LifecycleEvent) (t : Transport) (o : Option Connection)
      → (post json e t o).1.config ≡ t.config
  unfolding post
  post-config e t none = refl
  post-config e t (some c) = refl

  emit_lifecycle-config :
      (t : Transport) (world_tick : ℕ) (kind : LifecycleKind) (related_id : Option ℕ)
      (reason : Option String)
      → (emit_lifecycle json t world_tick kind related_id reason).1.config ≡ t.config
  unfolding emit_lifecycle
  emit_lifecycle-config t world_tick kind related_id reason = post-config _ t t.connection

  greeted-config :
      (t : Transport) (world_tick : ℕ) (c : Connection)
      → (greeted json t world_tick c).config ≡ t.config
  unfolding greeted
  greeted-config t world_tick c = ground arith

  install-config :
      (t : Transport) (world_tick : ℕ) (m : Result (Unit {0}) × Connection)
      → (install json t world_tick m).1.config ≡ t.config
  unfolding install
  install-config t world_tick (err e, c) = refl
  install-config t world_tick (ok u, c) =
      emit_lifecycle-config (record t { connection = some c }) world_tick _ _ _

  welcome-config :
      (o : Option ErrorKind) (t : Transport) (c : Connection) (world_tick : ℕ)
      → (welcome json o t c world_tick).1.config ≡ t.config
  unfolding welcome
  welcome-config (some e) t c world_tick = refl
  welcome-config none t c world_tick =
      install-config (greeted json t world_tick c) world_tick _ ∙ greeted-config t world_tick c

  resolve-IsKept :
      (v : Verdict) (c : Connection) (t : Transport) (world_tick : ℕ)
      (rest : Run (Result (Unit {0}) × Transport))
      → IsKept t.config rest
      → IsKept t.config (resolve json v c t world_tick rest)
  unfolding resolve attach
  resolve-IsKept refused c t world_tick rest k = k
  resolve-IsKept admitted c t world_tick rest k = welcome-config c.settings t c world_tick
  resolve-IsKept (failed e) c t world_tick rest k = refl

  resume_from-IsKept :
      (accepts : List (Result Connection)) (t : Transport) (world_tick : ℕ)
      → IsKept t.config (resume_from json accepts t world_tick)
  unfolding resume_from
  resume_from-IsKept [] t world_tick = tt
  resume_from-IsKept (err e ∷ accepts) t world_tick = refl
  resume_from-IsKept (ok c ∷ accepts) t world_tick =
      resolve-IsKept _ _ (record t { accepts = accepts }) world_tick _
        (resume_from-IsKept accepts t world_tick)

  ready_on-IsKept :
      (o : Option Connection) (t : Transport) (world_tick : ℕ)
      → IsKept t.config (ready_on json o t world_tick)
  unfolding ready_on accept_resume
  ready_on-IsKept none t world_tick = resume_from-IsKept t.accepts t world_tick
  ready_on-IsKept (some c) t world_tick = refl

  retry-IsKept :
      (obs : ObservationTensor) (e : ErrorKind) (t : Transport)
      → IsKeptBy t.config (retry json obs e t)
  unfolding retry
  retry-IsKept obs e t =
      if_both (IsKeptBy t.config) (is_disconnect e)
        (emit_lifecycle-config (record t { connection = none }) obs.step _ none (paused json))
        (if_both (IsKeptBy t.config) (is_invalid e) refl tt)

  around-IsKept :
      (config : LockstepConfig) (e : ErrorKind) (t : Transport)
      (again : Transport → Run (Result ActionTensor × Transport)) (o : Option Transport)
      → t.config ≡ config
      → IsKeptBy config o
      → ((t' : Transport) → IsKept t'.config (again t'))
      → IsKept config (around json e t again o)
  unfolding around
  around-IsKept config e t again none q s k = q
  around-IsKept config e t again (some t') q s k = subst (λ c. IsKept c (again t')) s (k t')

  conclude-IsKept :
      (config : LockstepConfig) (obs : ObservationTensor) (r : Result ActionTensor) (t : Transport)
      (again : Transport → Run (Result ActionTensor × Transport))
      → t.config ≡ config
      → ((t' : Transport) → IsKept t'.config (again t'))
      → IsKept config (conclude json obs r t again)
  unfolding conclude
  conclude-IsKept config obs (ok action) t again q k = q
  conclude-IsKept config obs (err e) t again q k =
      around-IsKept config e t again (retry json obs e t) q
        (subst (λ c. IsKeptBy c (retry json obs e t)) q (retry-IsKept obs e t)) k

  try-IsKept :
      (config : LockstepConfig) (obs : ObservationTensor) (extension : ObservationExtension)
      (again : Transport → Run (Result ActionTensor × Transport)) (t : Transport)
      (o : Option Connection)
      → t.connection ≡ o
      → t.config ≡ config
      → ((t' : Transport) → IsKept t'.config (again t'))
      → IsKept config (round json obs extension again (finished (ok tt, t)))
  unfolding round
  try-IsKept config obs extension again t none e q k = rw e tt
  try-IsKept config obs extension again t (some c) e q k =
      rw e (conclude-IsKept config obs _ (record t { connection = some _ }) again q k)

  round-IsKept :
      (config : LockstepConfig) (obs : ObservationTensor) (extension : ObservationExtension)
      (again : Transport → Run (Result ActionTensor × Transport))
      (run : Run (Result (Unit {0}) × Transport))
      → IsKept config run
      → ((t' : Transport) → IsKept t'.config (again t'))
      → IsKept config (round json obs extension again run)
  unfolding round
  round-IsKept config obs extension again waiting q k = tt
  round-IsKept config obs extension again panicked q k = tt
  round-IsKept config obs extension again out_of_fuel q k = tt
  round-IsKept config obs extension again (finished (err e, t)) q k = q
  round-IsKept config obs extension again (finished (ok u, t)) q k =
      try-IsKept config obs extension again t t.connection refl q k

  -- Whatever becomes of an exchange, it leaves the configuration of the session.
  pub exchange-IsKept :
      (fuel : ℕ) (obs : ObservationTensor) (extension : ObservationExtension) (t : Transport)
      → IsKept t.config (exchange json fuel obs extension t)
  unfolding exchange ready
  exchange-IsKept zero obs extension t = tt
  exchange-IsKept (suc fuel) obs extension t =
      round-IsKept t.config obs extension (exchange json fuel obs extension) _
        (ready_on-IsKept t.connection t obs.step) (λ t'. exchange-IsKept fuel obs extension t')
