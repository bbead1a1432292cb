-- ===== src/Codec/Usage.antt =====
-- A usage that the schema of src/context/context-codec.ts takes has its counters and its cost.
use plastic_wan.Base.{◌≡◌, refl, true, and_true, ok, arith}
use plastic_wan.Codec.Json.{Value, object}
use plastic_wan.Codec.Schemas.{any_number, cost_schema, usage_schema, conforms}
use plastic_wan.Codec.View.{as_number, as_cost, as_usage}
use plastic_wan.Codec.Readers.{Reads, number-Reads, required-Reads, possible-Reads}

module _ {N : Type 0} where
  as_cost-conforms : (v : Value N) → conforms cost_schema v ≡ true → as_cost v ≡ ok v
  as_cost-conforms (object fs) h =
      let a = and_true _ _ (and_true _ _ h).0 in
      let b = and_true _ _ a.1 in
      let c = and_true _ _ b.1 in
      let d = and_true _ _ c.1 in
      let e = and_true _ _ d.1 in
      let input = required-Reads "input" any_number as_number number-Reads fs a.0 in
      let output = required-Reads "output" any_number as_number number-Reads fs b.0 in
      let read = required-Reads "cacheRead" any_number as_number number-Reads fs c.0 in
      let write = required-Reads "cacheWrite" any_number as_number number-Reads fs d.0 in
      let total = required-Reads "total" any_number as_number number-Reads fs e.0 in
      rw (input.1, output.1, read.1, write.1, total.1) refl
  as_cost-conforms v h = ground arith

  cost-Reads : Reads {N = N} cost_schema as_cost
  cost-Reads v h = (v, as_cost-conforms v h)

  pub as_usage-conforms : (v : Value N) → conforms usage_schema v ≡ true → as_usage v ≡ ok v
  as_usage-conforms (object fs) h =
      let a = and_true _ _ (and_true _ _ h).0 in
      let b = and_true _ _ a.1 in
      let c = and_true _ _ b.1 in
      let d = and_true _ _ c.1 in
      let e = and_true _ _ d.1 in
      let f = and_true _ _ e.1 in
      let g = and_true _ _ f.1 in
      let i = and_true _ _ g.1 in
      let input = required-Reads "input" any_number as_number number-Reads fs a.0 in
      let output = required-Reads "output" any_number as_number number-Reads fs b.0 in
      let read = required-Reads "cacheRead" any_number as_number number-Reads fs c.0 in
      let write = required-Reads "cacheWrite" any_number as_number number-Reads fs d.0 in
      let hour = possible-Reads "cacheWrite1h" any_number as_number number-Reads fs e.0 in
      let reasoning = possible-Reads "reasoning" any_number as_number number-Reads fs f.0 in
      let total = required-Reads "totalTokens" any_number as_number number-Reads fs g.0 in
      let cost = required-Reads "cost" cost_schema as_cost cost-Reads fs i.0 in
      rw (input.1, output.1, read.1, write.1, hour.1, reasoning.1, total.1, cost.1) refl
  as_usage-conforms v h = ground arith

  pub usage-Reads : Reads {N = N} usage_schema as_usage
  usage-Reads v h = (v, as_usage-conforms v h)
