-- ===== src/Modbus/Batch/Cover.antt =====
-- Every request spans the points that it is made for, and only a lone point may exceed the limit.
use multiple_protocol_contro.Common.{==_iff, All, All-append, Bool-cases, List, [], inl, inr, leb}
use multiple_protocol_contro.Common.{refl, sym, true, ℕ, ◌==◌, ◌∷◌, ◌≡◌}
use multiple_protocol_contro.Modbus.Batch.{BatchBuilder, BatchQuery, add_param, add_to_group}
use multiple_protocol_contro.Modbus.Batch.{batch_groups, batch_loop, build_batch_queries, can_add}
use multiple_protocol_contro.Modbus.Batch.{group_params, insert_by_address, is_batched}
use multiple_protocol_contro.Modbus.Batch.{new_batch_builder, sort_by_address}
use multiple_protocol_contro.Modbus.Batch.Builder.{BuilderInv, Covers, Eligible, IsAddressable}
use multiple_protocol_contro.Modbus.Batch.Builder.{add_param-BuilderInv, flush-Covers}
use multiple_protocol_contro.Modbus.Batch.Builder.{fresh-BuilderInv, new-BuilderInv}
use multiple_protocol_contro.Modbus.Registers.{ModbusParam}
use mathlib.Core.Path.{subst}

batch_loop-Covers :
    (fc : ℕ) (b : BatchBuilder) (ps : List ModbusParam)
    → BuilderInv fc b
    → All (Eligible fc) ps
    → All (Covers fc) (batch_loop fc b ps)
unfolding batch_loop
batch_loop-Covers fc b [] v h = flush-Covers fc b [] v tt
batch_loop-Covers fc b (p ∷ ps) v ((a, c), hs) =
    let fits = batch_loop-Covers fc (add_param b p) ps in
    let fresh =
      batch_loop-Covers fc (add_param (new_batch_builder fc) p) ps (fresh-BuilderInv fc p a c) hs in
    elim (Bool-cases (can_add b p)) [
      | inl yes_add ↦ rw yes_add (fits (add_param-BuilderInv fc b p v a c yes_add) hs)
      | inr no_add ↦ rw no_add (flush-Covers fc b _ v fresh)
    ]

batch_loop-new_batch_builder-Covers :
    (fc : ℕ) (ps : List ModbusParam)
    → All (λ p. IsAddressable p × (p.function_code ≡ fc)) ps
    → All (Covers fc) (batch_loop fc (new_batch_builder fc) ps)
batch_loop-new_batch_builder-Covers fc ps h =
    batch_loop-Covers fc (new_batch_builder fc) ps (new-BuilderInv fc) h

insert-All :
    (P : ModbusParam → Type 0) (p : ModbusParam) (ps : List ModbusParam)
    → P p
    → All P ps
    → All P (insert_by_address p ps)
unfolding insert_by_address
insert-All P p [] h hs = (h, tt)
insert-All P p (q ∷ qs) h (hq, hqs) = elim (Bool-cases (leb p.address q.address)) [
  | inl e ↦ rw e (h, (hq, hqs))
  | inr e ↦ rw e (hq, insert-All P p qs h hqs)
]

sort-All :
    (P : ModbusParam → Type 0) (ps : List ModbusParam) → All P ps → All P (sort_by_address ps)
unfolding sort_by_address
sort-All P [] h = tt
sort-All P (p ∷ ps) (h, hs) = insert-All P p (sort_by_address ps) h (sort-All P ps hs)

abbrev Groups : List (ℕ × List ModbusParam) → Type 0
Groups [] = Unit
Groups ((fc, ps) ∷ rest) = All (Eligible fc) ps × Groups rest

add_to_group-Groups :
    (p : ModbusParam) (gs : List (ℕ × List ModbusParam))
    → IsAddressable p
    → Groups gs
    → Groups (add_to_group p gs)
unfolding add_to_group
add_to_group-Groups p [] a g = (((a, refl), tt), tt)
add_to_group-Groups p ((fc, ps) ∷ rest) a (g, gs) = elim (Bool-cases (fc == p.function_code)) [
  | inl e ↦
      let same : p.function_code ≡ fc = sym ((==_iff fc p.function_code).0 e) in
      rw e (All-append (Eligible fc) ps (p ∷ []) g ((a, same), tt), gs)
  | inr e ↦ rw e (g, add_to_group-Groups p rest a gs)
]

group_params-Groups :
    (gs : List (ℕ × List ModbusParam)) (ps : List ModbusParam)
    → Groups gs
    → All (λ p. is_batched p ≡ true → IsAddressable p) ps
    → Groups (group_params gs ps)
unfolding group_params
group_params-Groups gs [] g h = g
group_params-Groups gs (p ∷ ps) g (h, hs) = elim (Bool-cases (is_batched p)) [
  | inl e ↦ rw e (group_params-Groups (add_to_group p gs) ps (add_to_group-Groups p gs (h e) g) hs)
  | inr e ↦ rw e (group_params-Groups gs ps g hs)
]

abbrev pub CoversOwn : BatchQuery → Type 0
CoversOwn q = Covers q.function_code q

own-code : (fc : ℕ) (qs : List BatchQuery) → All (Covers fc) qs → All CoversOwn qs
own-code fc [] h = tt
own-code fc (q ∷ qs) (h, hs) = (subst (λ k. Covers k q) (sym h.code) h, own-code fc qs hs)

batch_groups-Covers :
    (gs : List (ℕ × List ModbusParam)) → Groups gs → All CoversOwn (batch_groups gs)
unfolding batch_groups
batch_groups-Covers [] g = tt
batch_groups-Covers ((fc, ps) ∷ rest) (g, gs) =
    All-append CoversOwn _ _
      (own-code fc _
        (batch_loop-new_batch_builder-Covers fc (sort_by_address ps) (sort-All (Eligible fc) ps g)))
      (batch_groups-Covers rest gs)

-- If the points to be read end below the last 16-bit address, then every request of the plan spans
-- each of its points, has their function code, asks for at least one coil or register, and stays
-- within the limit of its function code unless it is made for one point alone.
pub build_batch_queries_covers :
    (ps : List ModbusParam)
    → All (λ p. is_batched p ≡ true → IsAddressable p) ps
    → All CoversOwn (build_batch_queries ps)
unfolding build_batch_queries
build_batch_queries_covers ps h =
    batch_groups-Covers (group_params [] ps) (group_params-Groups [] ps tt h)
