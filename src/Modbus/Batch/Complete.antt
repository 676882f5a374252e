-- ===== src/Modbus/Batch/Complete.antt =====
-- The requests together are made for exactly the points that are to be read, each as often as it is
-- configured.
use multiple_protocol_contro.Common.{Bool-cases, List, [], ap, append-nil, append_assoc}
use multiple_protocol_contro.Common.{if◌then◌else◌, inl, inr, leb, refl, sym, ℕ, ◌++◌, ◌==◌, ◌∙◌}
use multiple_protocol_contro.Common.{◌∷◌, ◌≡◌}
use multiple_protocol_contro.Modbus.Batch.{BatchBuilder, BatchQuery, add_param, add_to_group}
use multiple_protocol_contro.Modbus.Batch.{batch_groups, batch_loop, build, build_batch_queries}
use multiple_protocol_contro.Modbus.Batch.{can_add, flush, group_params, insert_by_address}
use multiple_protocol_contro.Modbus.Batch.{is_batched, is_empty, new_batch_builder}
use multiple_protocol_contro.Modbus.Batch.{sort_by_address}
use multiple_protocol_contro.Modbus.Registers.{ModbusParam}
use mathlib.Core.List.{Perm, perm_middle}
use mathlib.Core.List.Perm

abbrev pub all_params : List BatchQuery → List ModbusParam
all_params [] = []
all_params (q ∷ qs) = q.params ++ all_params qs

abbrev pub batched_params : List ModbusParam → List ModbusParam
batched_params [] = []
batched_params (p ∷ ps) = if is_batched p then p ∷ batched_params ps else batched_params ps

all_params-append :
    (qs rs : List BatchQuery) → all_params (qs ++ rs) ≡ all_params qs ++ all_params rs
all_params-append [] rs = refl
all_params-append (q ∷ qs) rs =
    ap (λ t. q.params ++ t) (all_params-append qs rs)
    ∙ sym (append_assoc q.params (all_params qs) (all_params rs))

all_params-flush :
    (b : BatchBuilder) (qs : List BatchQuery) → all_params (flush b qs) ≡ b.params ++ all_params qs
unfolding flush build
all_params-flush b qs = shape b.params refl
  where
    shape :
        (ps : List ModbusParam)
        → b.params ≡ ps
        → all_params (if is_empty b.params then qs else build b ∷ qs) ≡ b.params ++ all_params qs
    shape [] e = rw e
    shape (p ∷ ps) e = rw e

params-add_param :
    (b : BatchBuilder) (p : ModbusParam) → (add_param b p).params ≡ b.params ++ (p ∷ [])
unfolding add_param
params-add_param b p = shape b.params refl
  where
    shape : (ps : List ModbusParam) → b.params ≡ ps → (add_param b p).params ≡ b.params ++ (p ∷ [])
    shape [] e = rw e
    shape (q ∷ ps) e = rw e

all_params-batch_loop :
    (fc : ℕ) (b : BatchBuilder) (ps : List ModbusParam)
    → all_params (batch_loop fc b ps) ≡ b.params ++ ps
unfolding batch_loop
all_params-batch_loop fc b [] = all_params-flush b []
all_params-batch_loop fc b (p ∷ ps) =
    let fits = all_params-batch_loop fc (add_param b p) ps in
    let fresh = all_params-batch_loop fc (add_param (new_batch_builder fc) p) ps in
    elim (Bool-cases (can_add b p)) [
      | inl e ↦ rw e (fits ∙ rw (params-add_param b p) (append_assoc b.params (p ∷ []) ps))
      | inr e ↦ rw e (
          all_params-flush b _
          ∙ ap (λ t. b.params ++ t)
              (fresh
                ∙ rw (params-add_param (new_batch_builder fc) p)
                    (unfold new_batch_builder in refl)))
    ]

insert-perm : (p : ModbusParam) (ps : List ModbusParam) → Perm (insert_by_address p ps) (p ∷ ps)
unfolding insert_by_address
insert-perm p [] = Perm.refl _
insert-perm p (q ∷ qs) = elim (Bool-cases (leb p.address q.address)) [
  | inl e ↦ rw e (Perm.refl _)
  | inr e ↦ rw e (Perm.trans (Perm.cons q (insert-perm p qs)) (Perm.swap p q qs))
]

sort-perm : (ps : List ModbusParam) → Perm (sort_by_address ps) ps
unfolding sort_by_address
sort-perm [] = Perm.refl _
sort-perm (p ∷ ps) = Perm.trans (insert-perm p (sort_by_address ps)) (Perm.cons p (sort-perm ps))

abbrev grouped : List (ℕ × List ModbusParam) → List ModbusParam
grouped [] = []
grouped ((fc, ps) ∷ rest) = ps ++ grouped rest

add_to_group-perm :
    (p : ModbusParam) (gs : List (ℕ × List ModbusParam))
    → Perm (grouped (add_to_group p gs)) (p ∷ grouped gs)
unfolding add_to_group
add_to_group-perm p [] = Perm.refl _
add_to_group-perm p ((fc, ps) ∷ rest) = elim (Bool-cases (fc == p.function_code)) [
  | inl e ↦ rw e (rw (append_assoc ps (p ∷ []) (grouped rest)) (perm_middle ps (grouped rest)))
  | inr e ↦
      rw e (
        Perm.trans (Perm.append_left ps (add_to_group-perm p rest)) (perm_middle ps (grouped rest)))
]

group_params-perm :
    (gs : List (ℕ × List ModbusParam)) (ps : List ModbusParam)
    → Perm (grouped (group_params gs ps)) (grouped gs ++ batched_params ps)
unfolding group_params
group_params-perm gs [] = rw append-nil (Perm.refl _)
group_params-perm gs (p ∷ ps) = elim (Bool-cases (is_batched p)) [
  | inl e ↦ rw e (
      Perm.trans (group_params-perm (add_to_group p gs) ps) (
        Perm.trans (Perm.append_right (batched_params ps) (add_to_group-perm p gs))
          (Perm.symm (perm_middle (grouped gs) (batched_params ps)))))
  | inr e ↦ rw e (group_params-perm gs ps)
]

batch_groups-perm :
    (gs : List (ℕ × List ModbusParam)) → Perm (all_params (batch_groups gs)) (grouped gs)
unfolding batch_groups new_batch_builder
batch_groups-perm [] = Perm.refl _
batch_groups-perm ((fc, ps) ∷ rest) =
    rw
      (
        all_params-append (batch_loop fc (new_batch_builder fc) (sort_by_address ps))
            (batch_groups rest),
        all_params-batch_loop fc (new_batch_builder fc) (sort_by_address ps),
      )
      (Perm.append (sort-perm ps) (batch_groups-perm rest))

-- The points of all requests are, up to their order, the points that are not disabled and have a
-- function code for reading.
pub build_batch_queries-perm :
    (ps : List ModbusParam) → Perm (all_params (build_batch_queries ps)) (batched_params ps)
unfolding build_batch_queries
build_batch_queries-perm ps =
    Perm.trans (batch_groups-perm (group_params [] ps)) (group_params-perm [] ps)
