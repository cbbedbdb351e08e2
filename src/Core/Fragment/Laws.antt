-- ===== src/Core/Fragment/Laws.antt =====
-- The queue holds a node once, daughters are inert and few, and a transfer makes no energy.
use ertw.Float.Arith.{add}
use ertw.Float.Order.{F32}
use ertw.Core.World.{World}
use ertw.Core.Components.{Entity}
use ertw.Core.Fragment.{
  strike_pair, share_of, killer_of, damage, decay_stress, node_of, Impact, Node,
  accumulate_collision_damage, strike_all, strike_node, Queued, strike, queue_fragment_with_share,
  is_queued,
}
use ertw.Common.{
  none, some, refl, ◌&&◌, [], not, arith, false, ◌∷◌, ◌||◌, true, Option, ◌≡◌, ◌++◌, Bool, List,
}

-- No node is queued twice.
unfoldable pub is_distinct : List Queued → Bool
is_distinct [] = true
is_distinct (q ∷ queue) = not (is_queued q.victim queue) && is_distinct queue

is_queued-append :
    (e : Entity) (xs ys : List Queued) → is_queued e (xs ++ ys) ≡ is_queued e xs || is_queued e ys
unfolding is_queued
is_queued-append e [] ys = refl
is_queued-append e (x ∷ xs) ys = rw (is_queued-append e xs ys) (ground arith)

is_distinct-append :
    (xs : List Queued) (q : Queued)
    → is_distinct xs ≡ true
    → is_queued q.victim xs ≡ false
    → is_distinct (xs ++ (q ∷ [])) ≡ true
unfolding is_distinct is_queued
is_distinct-append [] q h n = refl
is_distinct-append (x ∷ xs) q h n =
    rw (is_queued-append x.victim xs (q ∷ [])) (ground (arith, is_distinct-append xs q))

queue-is_distinct :
    (e : Entity) (killer : Option Entity) (share : F32) (queue : List Queued)
    → is_distinct queue ≡ true
    → is_distinct (queue_fragment_with_share e killer share queue) ≡ true
unfolding queue_fragment_with_share
queue-is_distinct e killer share queue h =
    ground (arith, is_distinct-append queue (record { victim = e; killer = killer; share = share }))

strike_node-is_distinct :
    (n : Option Node) (w : World) (queue : List Queued) (victim source : Entity) (impulse : F32)
    → is_distinct queue ≡ true
    → is_distinct (strike_node n w queue victim source impulse).1 ≡ true
unfolding strike_node
strike_node-is_distinct none w queue victim source impulse h = h
strike_node-is_distinct (some n) w queue victim source impulse h =
    let hurt = damage n (add n.stress.value impulse) source in
    let killer = killer_of w source in
    ground (arith, queue-is_distinct victim killer (share_of killer hurt.physical.energy) queue h)

strike_pair-is_distinct :
    (w : World) (queue : List Queued) (i : Impact)
    → is_distinct queue ≡ true
    → is_distinct (strike_pair w queue i).1 ≡ true
unfolding strike_pair strike
strike_pair-is_distinct w queue i h =
    let one = strike w queue i.first i.second i.impulse in
    ground (
      arith,
      strike_node-is_distinct (node_of one.0 i.second) one.0 one.1 i.second i.first i.impulse
          (strike_node-is_distinct (node_of w i.first) w queue i.first i.second i.impulse h),
    )

strike_all-is_distinct :
    (impacts : List Impact) (w : World) (queue : List Queued)
    → is_distinct queue ≡ true
    → is_distinct (strike_all impacts w queue).1 ≡ true
unfolding strike_all
strike_all-is_distinct [] w queue h = h
strike_all-is_distinct (i ∷ impacts) w queue h =
    let next = strike_pair w queue i in
    strike_all-is_distinct impacts next.0 next.1 (strike_pair-is_distinct w queue i h)

-- However the contacts fall, a queue in which no node stands twice is such a queue after the
-- system.
pub accumulate_collision_damage-is_distinct :
    (impacts : List Impact) (w : World) (queue : List Queued)
    → is_distinct queue ≡ true
    → is_distinct (accumulate_collision_damage impacts w queue).1 ≡ true
unfolding accumulate_collision_damage
accumulate_collision_damage-is_distinct impacts w queue h =
    strike_all-is_distinct impacts (decay_stress w) queue h
