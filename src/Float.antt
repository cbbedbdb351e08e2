-- ===== src/Float.antt =====
-- The type f32 of the source: IEEE 754 binary32, as its bit pattern, a number below 2 ^ 32.
-- `Order` has the tests and comparisons, `Round` rounding to the nearest value with ties to even,
-- `Arith` the operations; `Round/Laws` and `Laws` are proved about them.
-- An operation that gives a NaN gives the quiet NaN 0x7fc00000.
pub mod Order
pub mod Round
pub mod Arith
pub mod Laws
pub mod Rem
pub mod Exact
