-- ===== src/Modbus/Batch.antt =====
-- internal/collector/batch.go: which points of a device share one read request.
pub mod Builder
pub mod Cover
pub mod Complete
use multiple_protocol_contro.Common.{Bool, List, [], false, if◌then◌else◌, leb, ltb, not, suc}
use multiple_protocol_contro.Common.{true, zero, ℕ, ◌%◌, ◌&&◌, ◌++◌, ◌+◌, ◌-◌, ◌==◌, ◌^◌, ◌||◌}
use multiple_protocol_contro.Common.{◌∷◌}
use multiple_protocol_contro.Common.Int.{negsuc, pos, ℤ}
use multiple_protocol_contro.Modbus.Decode.{is_read_code}
use multiple_protocol_contro.Modbus.Registers.{ModbusParam, quantity_for_param}
-- uint64 arithmetic is written modulo 2^64, and what is sent is cut to a uint16.
use multiple_protocol_contro.Common.{Bool, List, [], false, if◌then◌else◌, leb, ltb, not, suc}
use multiple_protocol_contro.Common.{true, zero, ℕ, ◌%◌, ◌&&◌, ◌++◌, ◌+◌, ◌-◌, ◌==◌, ◌^◌, ◌||◌}
use multiple_protocol_contro.Common.{◌∷◌}
use multiple_protocol_contro.Common.Int.{negsuc, pos, ℤ}
use multiple_protocol_contro.Modbus.Registers.{ModbusParam, quantity_for_param}

abbrev pub word64 : ℕ
word64 = 2 ^ 64

-- What the constants maxRegisterBatchQuantity, maxRegisterGap, maxDiscreteBatchQuantity and
-- maxDiscreteGap fix. A gap limit of 0 is not tested, so it is no limit.
abbrev pub max_quantity_of : ℕ → ℕ
max_quantity_of fc = if fc == 1 || fc == 2 then 32 else 24

abbrev pub gap_limit_of : ℕ → ℕ
gap_limit_of fc = if fc == 1 || fc == 2 then 0 else 2

pub record BatchQuery : Type 0 where
  pub function_code : ℕ
  pub start_addr : ℕ
  pub quantity : ℕ
  pub params : List ModbusParam

pub record BatchBuilder : Type 0 where
  pub function_code : ℕ
  pub params : List ModbusParam
  pub start : ℕ
  pub stop : ℕ
  pub max_quantity : ℕ
  pub gap_limit : ℕ

unfoldable pub new_batch_builder : ℕ → BatchBuilder
new_batch_builder fc = record {
  function_code = fc;
  params = [];
  start = 0;
  stop = 0;
  max_quantity = max_quantity_of fc;
  gap_limit = gap_limit_of fc;
}

-- A discrete point has the configured quantity, or 1.
discrete_width : ℤ → ℕ
discrete_width (pos zero) = 1
discrete_width (pos (suc n)) = suc n
discrete_width (negsuc n) = 1

at_least_one : ℕ → ℕ
at_least_one n = if n == 0 then 1 else n

-- The number of coils or registers that a point takes.
unfoldable pub param_width : ModbusParam → ℕ
unfolding discrete_width at_least_one
param_width p =
    if p.function_code == 1 || p.function_code == 2
    then discrete_width p.quantity
    else at_least_one (quantity_for_param p)

-- The second result of `paramSpan`; the first is the address.
unfoldable pub span_end : ModbusParam → ℕ
span_end p =
    if param_width p == 1 then p.address else (p.address + param_width p + word64 - 1) % word64

-- `max` of the source.
unfoldable pub max_of : ℕ → ℕ → ℕ
max_of a b = if ltb b a then a else b

-- The distance from the last address taken, 0 for a point that adjoins or overlaps.
unfoldable pub gap_of : BatchBuilder → ℕ → ℕ
gap_of b start =
    if ltb ((b.stop + 1) % word64) start
    then (start + word64 - (b.stop + 1) % word64) % word64
    else 0

-- `uint16((top - start) + 1)`.
unfoldable pub span_quantity : ℕ → ℕ → ℕ
span_quantity start top = ((top + word64 - start) % word64 + 1) % 2 ^ 16

abbrev pub is_empty {ℓ} : {A : Type ℓ} → List A → Bool
is_empty [] = true
is_empty (x ∷ xs) = false

unfoldable pub can_add : BatchBuilder → ModbusParam → Bool
can_add b p =
    if is_empty b.params
    then true
    else if not (p.function_code == b.function_code)
    then false
    else if ltb p.address b.start
    then false
    else if ltb 0 b.gap_limit && ltb b.gap_limit (gap_of b p.address)
    then false
    else leb (span_quantity b.start (max_of b.stop (span_end p))) b.max_quantity

unfoldable pub add_param : BatchBuilder → ModbusParam → BatchBuilder
add_param b p =
    if is_empty b.params
    then record b { params = p ∷ []; start = p.address; stop = span_end p }
    else record b {
      params = b.params ++ (p ∷ []);
      stop = if ltb b.stop (span_end p) then span_end p else b.stop;
    }

-- `build`, of a builder that has points.
unfoldable pub build : BatchBuilder → BatchQuery
build b = record {
  function_code = b.function_code;
  start_addr = b.start % 2 ^ 16;
  quantity = span_quantity b.start b.stop;
  params = b.params;
}

-- `queries = append(queries, builder.build())` if the builder has points.
unfoldable pub flush : BatchBuilder → List BatchQuery → List BatchQuery
flush b queries = if is_empty b.params then queries else build b ∷ queries

-- The loop over the sorted points of one function code, with the builder at hand.
unfoldable pub batch_loop : ℕ → BatchBuilder → List ModbusParam → List BatchQuery
batch_loop fc b [] = flush b []
batch_loop fc b (p ∷ ps) =
    let fits = batch_loop fc (add_param b p) ps in
    let fresh = batch_loop fc (add_param (new_batch_builder fc) p) ps in
    if can_add b p then fits else flush b fresh

-- sort.Slice by address, as an insertion sort.
unfoldable pub insert_by_address : ModbusParam → List ModbusParam → List ModbusParam
insert_by_address p [] = p ∷ []
insert_by_address p (q ∷ qs) =
    if leb p.address q.address then p ∷ q ∷ qs else q ∷ insert_by_address p qs

unfoldable pub sort_by_address : List ModbusParam → List ModbusParam
sort_by_address [] = []
sort_by_address (p ∷ ps) = insert_by_address p (sort_by_address ps)

abbrev pub is_batched : ModbusParam → Bool
is_batched p = not p.read_disabled && is_read_code p.function_code

-- `grouped[param.FunctionCode] = append(…)`, on an association list in the order of first
-- appearance. Go ranges over the map in an order that it does not promise.
unfoldable pub add_to_group :
    ModbusParam → List (ℕ × List ModbusParam) → List (ℕ × List ModbusParam)
add_to_group p [] = (p.function_code, p ∷ []) ∷ []
add_to_group p ((fc, ps) ∷ rest) =
    if fc == p.function_code then (fc, ps ++ (p ∷ [])) ∷ rest else (fc, ps) ∷ add_to_group p rest

unfoldable pub group_params :
    List (ℕ × List ModbusParam) → List ModbusParam → List (ℕ × List ModbusParam)
group_params groups [] = groups
group_params groups (p ∷ ps) =
    group_params (if is_batched p then add_to_group p groups else groups) ps

unfoldable pub batch_groups : List (ℕ × List ModbusParam) → List BatchQuery
batch_groups [] = []
batch_groups ((fc, ps) ∷ rest) =
    batch_loop fc (new_batch_builder fc) (sort_by_address ps) ++ batch_groups rest

unfoldable pub build_batch_queries : List ModbusParam → List BatchQuery
build_batch_queries params = batch_groups (group_params [] params)
