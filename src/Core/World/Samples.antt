-- ===== src/Core/World/Samples.antt =====
-- A small world, a geometry and a generator, for the tests of the systems.
use ertw.Core.Tags.{energy_convertible, agent}
use ertw.Core.Rng.{Rng}
use ertw.Common.{◌≡◌, ◌||◌, none, false, true, some, ℕ, [], ◌==◌, ◌∷◌, arith, if◌then◌else◌}
use ertw.Float.Arith.{sub, mul, add}
use ertw.Float.Order.{IsFinite, F32, abs, le}
use ertw.Core.World.Accounts.{IsFunded}
use ertw.Core.Ledger.{Account}
use ertw.Core.Components.{default_ledger, Physical}
use ertw.Core.World.{Senses, World, Geometry}

abbrev pub plane : Geometry
plane = record {
  distance_squared = λ p q. add (mul (sub p.x q.x) (sub p.x q.x)) (mul (sub p.y q.y) (sub p.y q.y));
  distance = λ p q. abs (sub p.x q.x);
  speed_between = λ p q. abs (sub p.x q.x);
  scattered = λ p angle. record { x = add p.x angle; y = p.y };
  born_at = λ p angle. record { x = add p.x angle; y = p.y };
  right_of = λ p. record { x = add p.x 0x3f800000; y = p.y };
}

abbrev pub body : Physical
body = record { mass = 0x41000000; structure = 0x41000000; energy = 0x41a00000 }

abbrev pub healthy : Account
healthy = record { physical = body; ledger = default_ledger }

-- Entities 1 and 2 stand a unit apart, 1 an agent and 2 convertible; 1 is moving.
abbrev pub pair : World
pair = record {
  position = λ e.
      if e == 1
      then some (record { x = 0; y = 0 })
      else if e == 2
      then some (record { x = 0x3f800000; y = 0 })
      else none;
  physical = λ e. if e == 1 || (e == 2) then some body else none;
  body_mass = λ e. none;
  ledger = λ e. if e == 1 || (e == 2) then some default_ledger else none;
  tags = λ e. if e == 1 then some agent else if e == 2 then some energy_convertible else none;
  oscillator = λ e. none;
  clamp = λ e. none;
  fabricate = λ e. none;
  marker = λ e. none;
  tuning = λ e. none;
  reproduction = λ e. none;
  velocity = λ e. if e == 1 then some (record { x = 0x40800000; y = 0 }) else none;
  conductivity = λ e. none;
  yield_threshold = λ e. if e == 2 then some 0x41000000 else none;
  node_rng = λ e. none;
  impulse = λ e. if e == 2 then some (record { value = 0; source = none }) else none;
  dead = λ e. false;
  joints = [];
  alive = λ e. (e == 1) || (e == 2);
  commands = [];
  next_entity = 3;
}

pub pair-IsFunded : IsFunded pair
pair-IsFunded e p h = ground arith

-- Both are always near.
abbrev pub calm : Senses
calm = record {
  query_radius = λ pos radius. 1 ∷ 2 ∷ [];
  thermal = λ pos. 0;
  is_em_spike = λ pos. true;
}

pub le_self : (x : F32) → IsFinite x → le x x ≡ true
unfolding le
le_self x f = ground arith

-- A generator that draws the least value.
abbrev pub least : Rng
least = record {
  State = ℕ;
  seed_from = λ n. n;
  gen_bool = λ p s. (false, s);
  gen_int = λ lo hi s. (lo, s);
  gen_float = λ lo hi s. (lo, s);
  gen_int_range = λ lo hi s h. (omega arith, h);
  gen_float_range = λ lo hi s f g h. (f, le_self lo f, h);
}
