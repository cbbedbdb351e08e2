-- ===== src/Server/Lockstep/Log.antt =====
-- What the log of the program says of the world.
use mathlib.Core.Path.{subst}
use ertw.Server.Lockstep.Program.{
  terminated_event, total_ticks, run_program, knows, run_ticks, announce, Emission, Driven,
  announce_all,
}
use ertw.Interface.Session.{entity_reproduced, entity_died, LifecycleKind}
use ertw.Common.{
  if◌then◌else◌, none, inr, ltb, All-imp, inl, if_both, ◌∙◌, not, [], Bool-cases, All-append, arith,
  ◌||◌, ◌&&◌, ◌<◌, true, ◌+◌, ◌∷◌, ◌==◌, ◌++◌, All, false, some, ◌≡◌, Bool, Option, ℕ, List, refl,
  zero, suc,
}

unfoldable pub birth_of : LifecycleKind → Option ℕ → ℕ → Bool
birth_of entity_reproduced (some x) id = x == id
birth_of _ _ id = false

-- Some event of the tick reports the birth of the agent.
unfoldable pub reports : List Emission → ℕ → ℕ → Bool
reports [] t id = false
reports (e ∷ events) t id = e.tick == t && birth_of e.kind e.related id || reports events t id

-- An agent of the list that was not known, and is no founder.
unfoldable pub is_new : List (ℕ × ℕ) → List (ℕ × ℕ) → ℕ → Bool
is_new known [] id = false
is_new known (a ∷ agents) id =
    a.0 == id && (not (knows known a.0) && ltb 0 a.1) || is_new known agents id

-- Every event is later than the tick.
abbrev IsAfter : ℕ → List Emission → Type 0
IsAfter t events = All (λ (e : Emission). t < e.tick) events

reports-append :
    (a b : List Emission) (t id : ℕ) → reports (a ++ b) t id ≡ (reports a t id || reports b t id)
unfolding reports
reports-append [] b t id = refl
reports-append (e ∷ a) b t id = ground (arith, reports-append a b t id)

reports_early : (events : List Emission) (t id : ℕ) → IsAfter t events → reports events t id ≡ false
unfolding reports
reports_early [] t id h = refl
reports_early (e ∷ events) t id h = ground (arith, reports_early events t id h.1, h.0)

reports-announce_all :
    (tick : ℕ) (known agents : List (ℕ × ℕ)) (t id : ℕ)
    → reports (announce_all tick known agents) t id ≡ (t == tick + 1 && is_new known agents id)
unfolding reports announce_all announce is_new birth_of
reports-announce_all tick known [] t id = ground arith
reports-announce_all tick known (a ∷ agents) t id =
    reports-append (announce tick known a) (announce_all tick known agents) t id
    ∙ ground (arith, reports-announce_all tick known agents t id)

announce_all-IsAfter :
    (tick : ℕ) (known agents : List (ℕ × ℕ)) → IsAfter tick (announce_all tick known agents)
unfolding announce_all announce
announce_all-IsAfter tick known [] = tt
announce_all-IsAfter tick known (a ∷ agents) =
    All-append (λ (e : Emission). tick < e.tick) (announce tick known a)
      (announce_all tick known agents)
      (if_both (IsAfter tick) (not (knows known a.0) && ltb 0 a.1) (omega arith) tt)
      (announce_all-IsAfter tick known agents)

abbrev death : ℕ → Emission
death tick = record { tick = tick + 1; kind = entity_died; related = none }

no_birth : (tick t id : ℕ) → reports (death tick ∷ []) t id ≡ false
unfolding reports birth_of
no_birth tick t id = ground arith

module _ {W : Type 0} (world : Driven W) where
  open world use {step, agents, is_agent}

  run_ticks-IsAfter :
      (n tick : ℕ) (known : List (ℕ × ℕ)) (w : W) → IsAfter tick (run_ticks world n tick known w).1
  unfolding run_ticks
  run_ticks-IsAfter zero tick known w = tt
  run_ticks-IsAfter (suc n) tick known w =
      let w' = step w in
      let born = announce_all tick known (agents w') in
      let rest = (run_ticks world n (tick + 1) (agents w') w').1 in
      let first = announce_all-IsAfter tick known (agents w') in
      elim (Bool-cases (is_agent w')) [
        | inl q ↦ rw q (
            All-append (λ (e : Emission). tick < e.tick) born rest first
              (All-imp {P = λ (e : Emission). tick + 1 < e.tick}
                {Q = λ (e : Emission). tick < e.tick} (λ e h. omega (arith, h)) rest
                (run_ticks-IsAfter n (tick + 1) (agents w') w')))
        | inr q ↦ rw q (All-append (λ (e : Emission). tick < e.tick) born _ first (omega arith, tt))
      ]

  -- The entity is an agent after each of the first `k` ticks.
  abbrev pub Lives : W → ℕ → Type 0
  Lives w zero = Unit
  Lives w (suc k) = (is_agent (step w) ≡ true) × Lives (step w) k

  -- The agents after `k + 1` ticks.
  unfoldable pub agents_after : W → ℕ → List (ℕ × ℕ)
  agents_after w zero = agents (step w)
  agents_after w (suc k) = agents_after (step w) k

  -- The agents before the tick `k + 1`, where `known` are those at the start.
  unfoldable pub agents_before : List (ℕ × ℕ) → W → ℕ → List (ℕ × ℕ)
  agents_before known w zero = known
  agents_before known w (suc k) = agents_before (agents (step w)) (step w) k

  -- As long as the entity lives, the log reports the birth of an agent at a tick exactly if the agent
  -- is there after this tick, was not there before it, and is of a later generation.
  pub reports-run_ticks :
      (n tick k id : ℕ) (known : List (ℕ × ℕ)) (w : W)
      → k < n
      → Lives w k
      → reports (run_ticks world n tick known w).1 (tick + k + 1) id
        ≡ is_new (agents_before known w k) (agents_after w k) id
  unfolding run_ticks agents_after agents_before
  reports-run_ticks zero tick k id known w lt lives = absurd (omega (arith, lt))
  reports-run_ticks (suc n) tick zero id known w lt lives =
      let w' = step w in
      let born = announce_all tick known (agents w') in
      let rest = (run_ticks world n (tick + 1) (agents w') w').1 in
      let t = tick + 0 + 1 in
      let here = reports-announce_all tick known (agents w') t id in
      elim (Bool-cases (is_agent w')) [
        | inl q ↦
            let later : reports rest t id ≡ false =
              subst (λ u. reports rest u id ≡ false) (omega arith)
                (reports_early rest (tick + 1) id
                  (run_ticks-IsAfter n (tick + 1) (agents w') w')) in
            rw q (reports-append born rest t id ∙ ground (arith, here, later))
        | inr q ↦
            rw q (
              reports-append born (death tick ∷ []) t id ∙ ground (arith, here, no_birth tick t id))
      ]
  reports-run_ticks (suc n) tick (suc k) id known w lt lives =
      let w' = step w in
      let born = announce_all tick known (agents w') in
      let rest = (run_ticks world n (tick + 1) (agents w') w').1 in
      let t = tick + suc k + 1 in
      let later : reports rest t id
          ≡ is_new (agents_before (agents w') w' k) (agents_after w' k) id =
        subst
          (λ u. reports rest u id ≡ is_new (agents_before (agents w') w' k) (agents_after w' k) id)
          (omega arith)
          (reports-run_ticks n (tick + 1) k id (agents w') w' (omega (arith, lt)) lives.1) in
      rw (lives.0) (
        reports-append born rest t id
        ∙ ground (arith, reports-announce_all tick known (agents w') t id, later))

-- The events that report the death of the entity.
unfoldable pub death_of : LifecycleKind → ℕ
death_of entity_died = 1
death_of _ = 0

unfoldable pub deaths : List Emission → ℕ
deaths [] = 0
deaths (e ∷ events) = death_of e.kind + deaths events

deaths-append : (a b : List Emission) → deaths (a ++ b) ≡ deaths a + deaths b
unfolding deaths
deaths-append [] b = omega arith
deaths-append (e ∷ a) b = omega (arith, deaths-append a b)

deaths-announce_all :
    (tick : ℕ) (known agents : List (ℕ × ℕ)) → deaths (announce_all tick known agents) ≡ 0
unfolding deaths announce_all announce death_of
deaths-announce_all tick known [] = refl
deaths-announce_all tick known (a ∷ agents) =
    deaths-append (announce tick known a) (announce_all tick known agents)
    ∙ ground (arith, deaths-announce_all tick known agents)

deaths-nil : deaths [] ≡ 0
unfolding deaths
deaths-nil = refl

one_death : (tick : ℕ) → deaths (death tick ∷ []) ≡ 1
unfolding deaths death_of
one_death tick = refl

module _ {W : Type 0} (world : Driven W) where
  open world use {step, agents, is_agent}

  -- The entity is an agent after each of the ticks.
  unfoldable pub survives : W → ℕ → Bool
  survives w zero = true
  survives w (suc n) = is_agent (step w) && survives (step w) n

  deaths-run_ticks :
      (n tick : ℕ) (known : List (ℕ × ℕ)) (w : W)
      → deaths (run_ticks world n tick known w).1 ≡ (if survives w n then 0 else 1)
  unfolding run_ticks survives
  deaths-run_ticks zero tick known w = deaths-nil
  deaths-run_ticks (suc n) tick known w =
      let w' = step w in
      let born = announce_all tick known (agents w') in
      let rest = (run_ticks world n (tick + 1) (agents w') w').1 in
      let none_born = deaths-announce_all tick known (agents w') in
      elim (Bool-cases (is_agent w')) [
        | inl q ↦ rw q (
            deaths-append born rest
            ∙ ground (arith, none_born, deaths-run_ticks n (tick + 1) (agents w') w'))
        | inr q ↦
            rw q (deaths-append born (death tick ∷ []) ∙ ground (arith, none_born, one_death tick))
      ]

  -- The program reports a death once if the entity does not survive the ticks, and never otherwise.
  pub deaths-run_program :
      (decisions ticks id : ℕ) (w : W)
      → deaths (run_program world decisions ticks id w).1
        ≡ (if survives w (total_ticks decisions ticks) then 0 else 1)
  unfolding run_program deaths death_of
  deaths-run_program decisions ticks id w =
      let n = total_ticks decisions ticks in
      let (w', events) = run_ticks world n 0 ((id, 0) ∷ []) w in
      ground (
        arith,
        deaths-append events (terminated_event (world.clock w') ∷ []),
        deaths-run_ticks n 0 ((id, 0) ∷ []) w,
      )
