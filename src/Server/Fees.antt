-- ===== src/Server/Fees.antt =====
-- The fees of a round: the swaps pay for the transaction that mixes them.
use mwixnet.Base.{
  ℕ, suc, ◌≡◌, ◌≤◌, ◌<◌, ◌+◌, ◌*◌, refl, sym, ap, ◌∙◌, subst, some, [], ◌∷◌, List, map, length, All,
  ok, ◌==◌, arith, add_u64, u64_mod, add_u64-eq_of_lt, mul_u64-eq_of_lt, ok-injective, false,
}
use mwixnet.Ext.{Crates}
use mwixnet.Ext.Laws.{SerLaws, ValueLaws, WeightLaws}
use mwixnet.Ext.DbLaws.{DbLaws}
use mwixnet.Node.{GrinNode}
use mwixnet.Wallet.{Wallet, Draft}
use mwixnet.Wallet.Fees.{assemble_tx_fees, Pays}
use mwixnet.Store.Data.{SwapData}
use mwixnet.Store.Ops.{swaps_iter}
use mwixnet.Server.Swap.{get_minimum_swap_fee, get_fee_base}
use mwixnet.Server.Round.{World, select, sum_fees, execute_round}
use mwixnet.Server.Rounded.{Sent, execute_round-Mixed}
use mwixnet.Server.Mark.{IsLedger, Ready}
use mwixnet.Server.Ledger.{select-Ready, build_outputs_lem}

pub length-map : {A B : Type 0} (f : A → B) (l : List A) → length (map f l) ≡ length l
length-map f [] = refl
length-map f (a ∷ l) = ap suc (length-map f l)

-- `n` transactions of one input, one output and one kernel weigh at least as much as one with `n`
-- inputs, `n` outputs and one kernel.
shared_kernel :
    (n i o k b : ℕ) → 0 < n → (n * i + n * o + 1 * k) * b ≤ n * ((1 * i + 1 * o + 1 * k) * b)
shared_kernel n i o k b h = grind arith

-- Weights of smaller transactions.
part_weight : (n i o k : ℕ) → 0 < n → 1 * i + 1 * o + 1 * k ≤ n * i + (n + 1) * o + 1 * k
part_weight n i o k h = grind arith

all_weight : (n i o k : ℕ) → n * i + n * o + 1 * k ≤ n * i + (n + 1) * o + 1 * k
all_weight n i o k = grind arith

spend_weight : (n i o k : ℕ) → 0 < n → 1 * i + 0 * o + 0 * k ≤ n * i + (n + 1) * o + 1 * k
spend_weight n i o k h = grind arith

scaled : (a b c : ℕ) → a ≤ b → a * c ≤ b * c
scaled a b c h = grind arith

one_more : (n m f t : ℕ) → m ≤ f → n * m ≤ t → suc n * m ≤ f + t
one_more n m f t h k = grind arith

module _ (x : Crates) where
  -- The fees without the width of a machine word.
  abbrev pub total_fee : List (SwapData x) → ℕ
  total_fee [] = 0
  total_fee (s ∷ ss) = s.fee + total_fee ss

  pub sum_fees-total :
      (acc : ℕ) (ss : List (SwapData x))
      → acc + total_fee ss < u64_mod
      → sum_fees x acc ss ≡ acc + total_fee ss
  unfolding sum_fees
  sum_fees-total acc [] h = omega arith
  sum_fees-total acc (s ∷ ss) h =
      let here : add_u64 acc s.fee ≡ acc + s.fee = add_u64-eq_of_lt acc s.fee (omega arith) in
      rw here (sum_fees-total (acc + s.fee) ss (omega arith) ∙ omega arith)

  pub total_fee-ge :
      (m : ℕ) (ss : List (SwapData x))
      → All (λ (s : SwapData x). m ≤ s.fee) ss
      → length ss * m ≤ total_fee ss
  total_fee-ge m [] h = omega arith
  total_fee-ge m (s ∷ ss) h =
      one_more (length ss) m s.fee (total_fee ss) h.0 (total_fee-ge m ss h.1)

  -- The largest weight that a round with `n` swaps may have: one more output collects fees.
  abbrev pub round_weight : WeightLaws x → ℕ → ℕ
  round_weight L n = n * L.input_weight + (n + 1) * L.output_weight + 1 * L.kernel_weight

  -- No sum or product of the round leaves 64 bits.
  pub record Fits (L : WeightLaws x) (n total : ℕ) : Type 0 where
    pub total_lem : total < u64_mod
    pub weight_lem : round_weight L n < u64_mod
    pub fee_lem : round_weight L n * get_fee_base x + L.input_weight * get_fee_base x < u64_mod

  module _ (L : WeightLaws x) (n total : ℕ) (some_left : 0 < n) (f : Fits L n total) where
    base : ℕ
    base = get_fee_base x

    minimum_lem :
        get_minimum_swap_fee x
        ≡ (1 * L.input_weight + 1 * L.output_weight + 1 * L.kernel_weight) * get_fee_base x
    unfolding get_minimum_swap_fee
    minimum_lem =
        let part = part_weight n L.input_weight L.output_weight L.kernel_weight some_left in
        let w = L.weight_lem 1 1 1 (omega (arith, f.weight_lem, part)) in
        let small = scaled _ _ (get_fee_base x) part in
        rw w (mul_u64-eq_of_lt _ _ (omega (arith, f.fee_lem, small)))

    pub enough : n * get_minimum_swap_fee x ≤ total → x.weight_by_iok n n 1 * get_fee_base x ≤ total
    enough h =
        let all = all_weight n L.input_weight L.output_weight L.kernel_weight in
        let w = L.weight_lem n n 1 (omega (arith, f.weight_lem, all)) in
        let shared =
          shared_kernel n L.input_weight L.output_weight L.kernel_weight (get_fee_base x)
            some_left in
        rw w (omega (arith, rw minimum_lem at h, shared))

    pub positive : 0 < get_minimum_swap_fee x → 0 < x.weight_by_iok n (n + 1) 1 * get_fee_base x
    positive h =
        let part = part_weight n L.input_weight L.output_weight L.kernel_weight some_left in
        rw (L.weight_lem n (n + 1) 1 f.weight_lem)
          (omega (arith, rw minimum_lem at h, scaled _ _ (get_fee_base x) part))

    pub bounded :
        x.weight_by_iok n (n + 1) 1 * get_fee_base x + x.weight_by_iok 1 0 0 * get_fee_base x
        < u64_mod
    bounded =
        let w = L.weight_lem n (n + 1) 1 f.weight_lem in
        let v = L.weight_lem 1 0 0 (
          omega (
            arith,
            f.weight_lem,
            spend_weight n L.input_weight L.output_weight L.kernel_weight some_left,
          )) in
        rw (w, v) (omega (arith, f.fee_lem))

  module _ (S : SerLaws x) (V : ValueLaws x) (D : DbLaws x) (L : WeightLaws x) where
    -- What the transaction of a round pays.
    abbrev pub Covered : Wallet x → x.SecretKey → List (SwapData x) → x.Transaction → Type 0
    Covered wallet offset sel tx =
        (draft : Draft x) × (fee : x.FeeFields) × (kernel : x.TxKernel) × (tx
          ≡ x.transaction_with_offset
              (x.transaction_new (map (λ s. s.input) sel) draft.outputs (kernel ∷ []))
              (x.blinding_from_secret offset))
        × (x.fee_fields_new 0 draft.kernel_fee ≡ ok fee)
        × Pays x wallet fee kernel
        × (x.weight_by_iok (length sel) (length draft.outputs) 1 * get_fee_base x
            ≤ draft.kernel_fee)

    pub fees_of :
        (ss : List (SwapData x))
        → All (Ready x S D) ss
        → All (λ (s : SwapData x). get_minimum_swap_fee x ≤ s.fee) ss
    fees_of [] r = tt
    fees_of (s ∷ ss) r = (r.0.1.fee_lem, fees_of ss r.1)

    Sent-Covered :
        (wallet : Wallet x) (node : GrinNode x) (offset : x.SecretKey) (w : World x)
        (sel : List (SwapData x)) (tx : x.Transaction) (kernel : x.TxKernel)
        → Sent x wallet node offset w sel tx kernel
        → All (Ready x S D) sel
        → Fits L (length sel) (total_fee sel)
        → Covered wallet offset sel tx
    Sent-Covered wallet node offset w sel tx kernel sent ready fits =
        let (outputs, eo, en) = build_outputs_lem x S V D sel ready in
        let same : sent.outputs ≡ outputs = ok-injective _ _ (sym sent.outputs_lem ∙ eo) in
        let nout : length sent.outputs ≡ length sel = ap length same ∙ en in
        let nin : length (map (λ (s : SwapData x). s.input) sel) ≡ length sel =
          length-map (λ s. s.input) sel in
        let n_pos : 0 < length sel = not_zero (length sel) sent.some_lem in
        let fee_sum : sum_fees x 0 sel ≡ total_fee sel =
          sum_fees-total 0 sel (omega (arith, fits.total_lem)) ∙ omega arith in
        let minimum = total_fee-ge (get_minimum_swap_fee x) sel (fees_of sel ready) in
        let (draft, fee, k, et, ef, pays, paid, _) =
          assemble_tx_fees x wallet offset (map (λ s. s.input) sel) sent.outputs (get_fee_base x)
            (total_fee sel) (map (λ s. s.excess) sel) tx fits.total_lem
            (rw (nin, nout) (bounded L (length sel) (total_fee sel) n_pos fits))
            (rw (nin, nout) (enough L (length sel) (total_fee sel) n_pos fits minimum))
            (rw fee_sum at sent.built) in
        (draft, fee, k, et, ef, pays, rw nin at paid)
      where
        not_zero : (n : ℕ) → (n == 0) ≡ false → 0 < n
        not_zero n h = ground arith

    -- Let a round return a transaction on a store whose entries passed the checks, where the sums
    -- and products of the fees fit 64 bits. Then the transaction spends the inputs of the selected
    -- swaps and has one kernel, whose fee is at least the weight of the transaction times the fee
    -- base: the fees of the swaps always pay for their round.
    pub execute_round_fees :
        (wallet : Wallet x) (node : GrinNode x) (offset : x.SecretKey) (w : World x) (height : ℕ)
        (l : List (SwapData x)) (tx : x.Transaction)
        → IsLedger x S D w.db
        → node.get_chain_height ≡ ok height
        → swaps_iter x w.db ≡ ok l
        → Fits L
            (length (select x node (add_u64 height 1) l))
            (total_fee (select x node (add_u64 height 1) l))
        → (execute_round x wallet node offset w).0 ≡ ok (some tx)
        → Covered wallet offset (select x node (add_u64 height 1) l) tx
    execute_round_fees wallet node offset w height l tx I eh el fits e =
        let (height', l', kernel, eh', el', sent, _, _) =
          execute_round-Mixed x wallet node offset w tx e in
        let same_height : height' ≡ height = ok-injective _ _ (sym eh' ∙ eh) in
        let same_list : l' ≡ l = ok-injective _ _ (sym el' ∙ el) in
        Sent-Covered wallet node offset w (select x node (add_u64 height 1) l) tx kernel
          (subst (λ m. Sent x wallet node offset w (select x node (add_u64 height 1) m) tx kernel)
            same_list
            (subst (λ h. Sent x wallet node offset w (select x node (add_u64 h 1) l') tx kernel)
              same_height sent))
          (select-Ready x S V D node (add_u64 height 1) w.db l I el) fits
