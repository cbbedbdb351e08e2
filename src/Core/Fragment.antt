-- ===== src/Core/Fragment.antt =====
-- crates/ertw_core/src/fragmentation.rs: stress from collisions, the queue of failed nodes, the
-- transfer to their killers and the division among daughters.
pub mod Divide
pub mod Daughters
pub mod Transfer
pub mod Laws
mod Tests
use mathlib.Core.Option
use ertw.Core.Tags.{agent}
use ertw.Core.Ledger.{Account, credit, debit_available}
use ertw.Float.Arith.{sub, add, div, to_unsigned, mul}
use ertw.Common.{
  ◌>>=◌, true, some, ◌||◌, none, ◌&&◌, ◌==◌, [], min, ◌++◌, false, if◌then◌else◌, ◌∷◌, ℕ, Bool,
  Option, List,
}
use ertw.Core.World.{set_account, is_tagged, update, account_of, World}
use ertw.Float.Order.{lt, le, F32}
use ertw.Core.Components.{consumed, transferred, ImpulseAccum, Physical, Entity}

pub record Queued : Type 0 where
  pub victim : Entity
  pub killer : Option Entity
  pub share : F32

abbrev pub min_daughter_mass : F32
min_daughter_mass = 0x3d4ccccd

abbrev pub min_daughter_structure : F32
min_daughter_structure = 0x3f000000

unfoldable pub is_queued : Entity → List Queued → Bool
is_queued e [] = false
is_queued e (q ∷ queue) = q.victim == e || is_queued e queue

unfoldable pub queue_fragment_with_share : Entity → Option Entity → F32 → List Queued → List Queued
queue_fragment_with_share e killer share queue =
    if is_queued e queue
    then queue
    else queue ++ (record { victim = e; killer = killer; share = share } ∷ [])

unfoldable pub queue_fragment : Entity → Option Entity → List Queued → List Queued
queue_fragment e killer queue = queue_fragment_with_share e killer 0 queue

unfoldable pub can_fragment : Physical → F32 → Bool
can_fragment physical threshold =
    le (mul min_daughter_mass 0x40000000) physical.mass
    && le (mul min_daughter_structure 0x40000000) threshold

-- The part of `daughter_count` before the draw.
unfoldable pub most_daughters : Physical → F32 → ℕ
most_daughters physical threshold =
    min
      (min (to_unsigned 64 (div physical.mass min_daughter_mass))
        (to_unsigned 64 (div threshold min_daughter_structure)))
      3

-- The retention of stress, 0.92, and the residue that counts as none, 0.0001.
unfoldable pub retain_stress : ImpulseAccum → ImpulseAccum
retain_stress stress =
    let value = mul stress.value 0x3f6b851f in
    if lt value 0x38d1b717
    then record { value = 0; source = none }
    else record stress { value = value }

-- The components of the query `nodes`.
pub record Node : Type 0 where
  pub physical : Physical
  pub threshold : F32
  pub stress : ImpulseAccum

unfoldable pub node_of : World → Entity → Option Node
node_of w e = do
  physical ← w.physical e
  threshold ← w.yield_threshold e
  stress ← w.impulse e
  some (record { physical = physical; threshold = threshold; stress = stress })

unfoldable pub killer_of : World → Entity → Option Entity
killer_of w source = if is_tagged w agent source then some source else none

unfoldable pub share_of : Option Entity → F32 → F32
share_of none energy = 0
share_of (some k) energy = mul energy 0x3f000000

unfoldable pub set_node : World → Entity → Node → World
set_node w e n = record w {
  physical = update w.physical e n.physical;
  impulse = update w.impulse e n.stress;
}

-- A hit above the threshold; the scale of the damage is 0.25.
unfoldable pub damage : Node → F32 → Entity → Node
damage n value source = record n {
  physical = record (n.physical) {
    structure = sub n.physical.structure (mul (sub value n.threshold) 0x3e800000);
  };
  stress = record { value = mul n.threshold 0x3f000000; source = some source };
}

unfoldable pub is_broken : Node → Bool
is_broken n =
    le n.physical.structure 0 && lt 0 n.physical.energy && can_fragment n.physical n.threshold

-- One body of an impact.
unfoldable pub strike_node :
    Option Node → World → List Queued → Entity → Entity → F32 → World × List Queued
strike_node none w queue victim source impulse = (w, queue)
strike_node (some n) w queue victim source impulse =
    let value = add n.stress.value impulse in
    if le value n.threshold
    then (
      set_node w victim (record n { stress = record { value = value; source = some source } }),
      queue,
    )
    else (let n' = damage n value source in
        let killer = killer_of w source in
        (
          set_node w victim n',
          if is_broken n'
              then queue_fragment_with_share victim killer (share_of killer n'.physical.energy)
                  queue
              else queue,
        ))

unfoldable pub strike : World → List Queued → Entity → Entity → F32 → World × List Queued
strike w queue victim source impulse = strike_node (node_of w victim) w queue victim source impulse

-- An active pair of the contact graph: the two bodies and the impulse.
pub record Impact : Type 0 where
  pub first : Entity
  pub second : Entity
  pub impulse : F32

unfoldable pub strike_pair : World → List Queued → Impact → World × List Queued
strike_pair w queue i =
    if lt 0 i.impulse
    then (let (w', queue') = strike w queue i.first i.second i.impulse in
        strike w' queue' i.second i.first i.impulse)
    else (w, queue)

unfoldable pub strike_all : List Impact → World → List Queued → World × List Queued
strike_all [] w queue = (w, queue)
strike_all (i ∷ impacts) w queue =
    let (w', queue') = strike_pair w queue i in strike_all impacts w' queue'

unfoldable pub decay_stress : World → World
decay_stress w = record w {
  impulse = λ e. elim (node_of w e) [ none ↦ w.impulse e | some n ↦ some (retain_stress n.stress) ];
}

unfoldable pub accumulate_collision_damage : List Impact → World → List Queued → World × List Queued
accumulate_collision_damage impacts w queue = strike_all impacts (decay_stress w) queue

-- A victim's account pays a killer's.
unfoldable pub pay : World → Entity → Entity → F32 → Option Account → Option Account → World
pay w victim killer share none _ = w
pay w victim killer share (some v) none = w
pay w victim killer share (some v) (some k) =
    let (v', taken) = debit_available v transferred share in
    set_account (set_account w victim v') killer (credit k consumed taken).0

-- One entry of the queue; `get_many_mut` refuses to borrow the same entity twice.
unfoldable pub transfer_to : World → Queued → Option Entity → World
transfer_to w q none = w
transfer_to w q (some k) =
    if le q.share 0 || (q.victim == k)
    then w
    else pay w q.victim k q.share (account_of w q.victim) (account_of w k)

abbrev pub transfer_one : World → Queued → World
transfer_one w q = transfer_to w q q.killer

unfoldable pub transfer_to_killers : List Queued → World → World
transfer_to_killers [] w = w
transfer_to_killers (q ∷ queue) w = transfer_to_killers queue (transfer_one w q)
