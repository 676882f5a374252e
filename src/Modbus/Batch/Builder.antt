-- ===== src/Modbus/Batch/Builder.antt =====
-- The invariant of the builder of a request: it spans the points that it holds.
use multiple_protocol_contro.Common.{All, All-append, Bool-cases, List, [], arith, false}
use multiple_protocol_contro.Common.{if◌then◌else◌, inl, inr, length, ltb, refl, suc, true, zero}
use multiple_protocol_contro.Common.{ℕ, ◌%◌, ◌+◌, ◌-◌, ◌<◌, ◌==◌, ◌^◌, ◌||◌, ◌∷◌, ◌≡◌, ◌≤◌, ◌⊎◌}
use multiple_protocol_contro.Common.Int.{negsuc, pos, ℤ}
use multiple_protocol_contro.Modbus.Batch.{BatchBuilder, BatchQuery, add_param, at_least_one}
use multiple_protocol_contro.Modbus.Batch.{build, can_add, discrete_width, flush, is_empty}
use multiple_protocol_contro.Modbus.Batch.{max_of, max_quantity_of, new_batch_builder}
use multiple_protocol_contro.Modbus.Batch.{param_width, span_end, span_quantity, word64}
use multiple_protocol_contro.Modbus.Registers.{ModbusParam, quantity_for_param}

pub width-pos : (p : ModbusParam) → 1 ≤ param_width p
unfolding param_width
width-pos p = ground (arith, discrete-pos p.quantity)
  where
    discrete-pos : (n : ℤ) → 1 ≤ discrete_width n
    discrete-pos (pos zero) = omega arith
    discrete-pos (pos (suc n)) = omega arith
    discrete-pos (negsuc n) = omega arith

-- A register point takes at least the registers that are read for it.
pub quantity-le-width :
    (p : ModbusParam)
    → (p.function_code == 1 || p.function_code == 2) ≡ false
    → quantity_for_param p ≤ param_width p
unfolding param_width
quantity-le-width p e = rw e (at_least (quantity_for_param p))
  where
    at_least : (n : ℕ) → n ≤ at_least_one n
    at_least n = ground arith

-- The point lies in the 16-bit address space of the protocol, below its last address.
abbrev pub IsAddressable : ModbusParam → Type 0
IsAddressable p = p.address + param_width p < 2 ^ 16

span_end_lem : (p : ModbusParam) → IsAddressable p → span_end p + 1 ≡ p.address + param_width p
unfolding span_end
span_end_lem p h = ground (arith, width-pos p)

-- The point lies in the span and has the function code.
pub record Within (fc lo hi : ℕ) (p : ModbusParam) : Type 0 where
  pub from : lo ≤ p.address
  pub upto : p.address + param_width p ≤ hi + 1
  pub code : p.function_code ≡ fc

Within-wider :
    (fc lo hi hi' : ℕ) (ps : List ModbusParam)
    → hi ≤ hi'
    → All (Within fc lo hi) ps
    → All (Within fc lo hi') ps
Within-wider fc lo hi hi' [] h w = tt
Within-wider fc lo hi hi' (p ∷ ps) h (w, ws) =
    (record { from = w.from; upto = omega arith; code = w.code }, Within-wider fc lo hi hi' ps h ws)

-- What holds of a builder between two points.
pub record BuilderInv (fc : ℕ) (b : BatchBuilder) : Type 0 where
  code : b.function_code ≡ fc
  limit : b.max_quantity ≡ max_quantity_of fc
  within : All (Within fc b.start b.stop) b.params
  ordered : is_empty b.params ≡ false → b.start ≤ b.stop
  low : b.stop + 1 < 2 ^ 16
  capped :
      is_empty b.params ≡ false
      → (b.stop + 1 ≤ b.start + max_quantity_of fc) ⊎ (length b.params ≡ 1)

pub new-BuilderInv : (fc : ℕ) → BuilderInv fc (new_batch_builder fc)
unfolding new_batch_builder
new-BuilderInv fc = record {
  code = refl;
  limit = refl;
  within = tt;
  ordered = λ e. cc;
  low = omega arith;
  capped = λ e. cc;
}

-- What a finished request promises for the points that are decoded from its response.
pub record Covers (fc : ℕ) (q : BatchQuery) : Type 0 where
  pub code : q.function_code ≡ fc
  pub spans : All (Within fc q.start_addr (q.start_addr + q.quantity - 1)) q.params
  pub nonempty : 1 ≤ q.quantity
  pub capped : (q.quantity ≤ max_quantity_of fc) ⊎ (length q.params ≡ 1)

build-Covers :
    (fc : ℕ) (b : BatchBuilder) → BuilderInv fc b → is_empty b.params ≡ false → Covers fc (build b)
unfolding build span_quantity
build-Covers fc b v n = record {
  code = v.code;
  spans = rw (wide, start) v.within;
  nonempty = rw exact (omega (arith, v.ordered n));
  capped = rw exact (narrow (v.capped n));
}
  where
    exact : ((b.stop + word64 - b.start) % word64 + 1) % 2 ^ 16 ≡ b.stop + 1 - b.start
    exact = omega (arith, v.ordered n, v.low)

    start : b.start % 2 ^ 16 ≡ b.start
    start = omega (arith, v.ordered n, v.low)

    wide : b.start % 2 ^ 16 + ((b.stop + word64 - b.start) % word64 + 1) % 2 ^ 16 - 1 ≡ b.stop
    wide = omega (arith, v.ordered n, v.low)

    narrow :
        (b.stop + 1 ≤ b.start + max_quantity_of fc) ⊎ (length b.params ≡ 1)
        → (b.stop + 1 - b.start ≤ max_quantity_of fc) ⊎ (length b.params ≡ 1)
    narrow (inl h) = inl (omega arith)
    narrow (inr h) = inr h

-- A first point, or one that the builder accepts, keeps the invariant.
first-BuilderInv :
    (fc : ℕ) (b : BatchBuilder) (p : ModbusParam)
    → BuilderInv fc b
    → IsAddressable p
    → p.function_code ≡ fc
    → is_empty b.params ≡ true
    → BuilderInv fc (add_param b p)
unfolding add_param
first-BuilderInv fc b p v a c e = rw e (record {
  code = v.code;
  limit = v.limit;
  within = (record { from = omega arith; upto = omega (arith, span_end_lem p a); code = c }, tt);
  ordered = λ _. omega (arith, span_end_lem p a, width-pos p);
  low = omega (arith, span_end_lem p a);
  capped = λ _. inr refl;
})

-- What the last test of `can_add` says where nothing wraps.
can_add-fits :
    (fc : ℕ) (b : BatchBuilder) (p : ModbusParam)
    → BuilderInv fc b
    → IsAddressable p
    → is_empty b.params ≡ false
    → can_add b p ≡ true
    → (b.start ≤ p.address)
      × (b.stop + 1 ≤ b.start + max_quantity_of fc)
      × (span_end p + 1 ≤ b.start + max_quantity_of fc)
unfolding can_add max_of span_quantity
can_add-fits fc b p v a e h =
    let ordered : b.start ≤ b.stop = v.ordered e in
    let low : b.stop + 1 < 2 ^ 16 = v.low in
    let limit : b.max_quantity ≡ max_quantity_of fc = v.limit in
    let end : span_end p + 1 ≡ p.address + param_width p = span_end_lem p a in
    let positive : 1 ≤ param_width p = width-pos p in ground (arith)

module _ (fc : ℕ) (b : BatchBuilder) (p : ModbusParam) (v : BuilderInv fc b) (a : IsAddressable p)
    (c : p.function_code ≡ fc) (e : is_empty b.params ≡ false) (h : can_add b p ≡ true) where
  joined_stop : ℕ
  joined_stop = if ltb b.stop (span_end p) then span_end p else b.stop

  joined_stop-le : b.stop ≤ joined_stop
  unfolding joined_stop
  joined_stop-le = ground arith

  joined_stop-covers : span_end p ≤ joined_stop
  unfolding joined_stop
  joined_stop-covers = ground arith

  joined_stop-capped : (joined_stop + 1 < 2 ^ 16) × (joined_stop + 1 ≤ b.start + max_quantity_of fc)
  unfolding joined_stop
  joined_stop-capped =
      ground (arith, can_add-fits fc b p v a e h, span_end_lem p a, v.low, v.ordered e)

  next-BuilderInv : BuilderInv fc (add_param b p)
  unfolding add_param joined_stop
  next-BuilderInv = rw e (record {
    code = v.code;
    limit = v.limit;
    within =
        All-append (Within fc b.start joined_stop) b.params (p ∷ [])
          (Within-wider fc b.start b.stop joined_stop b.params joined_stop-le v.within)
          (
            record {
              from = (can_add-fits fc b p v a e h).0;
              upto = omega (arith, span_end_lem p a, joined_stop-covers);
              code = c;
            },
            tt,
          );
    ordered = λ _. omega (arith, v.ordered e, joined_stop-le);
    low = joined_stop-capped.0;
    capped = λ _. inl joined_stop-capped.1;
  })

pub add_param-BuilderInv :
    (fc : ℕ) (b : BatchBuilder) (p : ModbusParam)
    → BuilderInv fc b
    → IsAddressable p
    → p.function_code ≡ fc
    → can_add b p ≡ true
    → BuilderInv fc (add_param b p)
add_param-BuilderInv fc b p v a c h = elim (Bool-cases (is_empty b.params)) [
  | inl e ↦ first-BuilderInv fc b p v a c e
  | inr e ↦ next-BuilderInv fc b p v a c e h
]

pub fresh-BuilderInv :
    (fc : ℕ) (p : ModbusParam)
    → IsAddressable p
    → p.function_code ≡ fc
    → BuilderInv fc (add_param (new_batch_builder fc) p)
fresh-BuilderInv fc p a c =
    first-BuilderInv fc (new_batch_builder fc) p (new-BuilderInv fc) a c
      (unfold new_batch_builder in refl)

abbrev pub Eligible : ℕ → ModbusParam → Type 0
Eligible fc p = IsAddressable p × (p.function_code ≡ fc)

pub flush-Covers :
    (fc : ℕ) (b : BatchBuilder) (qs : List BatchQuery)
    → BuilderInv fc b
    → All (Covers fc) qs
    → All (Covers fc) (flush b qs)
unfolding flush
flush-Covers fc b qs v h = elim (Bool-cases (is_empty b.params)) [
  | inl e ↦ rw e h
  | inr e ↦ rw e (build-Covers fc b v e, h)
]
