-- ===== src/NetId/Packed.antt =====
-- A packing that the tests use for ids.
use orbitive.Prelude.{◌+◌, ◌*◌, ◌/◌, ◌%◌, ◌^◌, u16_mod, arith}
use orbitive.NetId.{NetIds}

-- A packing of ids: the kind above the node above the counter.
abbrev pub packed : NetIds
packed = record {
  make = λ k n c. k * 2 ^ 56 + n * 2 ^ 40 + c;
  kind = λ w. w / 2 ^ 56;
  node = λ w. w / 2 ^ 40 % u16_mod;
  counter = λ w. w % 2 ^ 40;
  kind-make = λ k n c hk hn hc. omega arith;
  node-make = λ k n c hk hn hc. omega arith;
  counter-make = λ k n c hk hn hc. omega arith;
}
