-- ===== src/Runtime/Weights.antt =====
-- The runtime's block weights and its fee for weight (runtime/src/lib.rs, runtime/src/configs/mod.rs,
-- runtime/src/weights/extrinsic_weights.rs).
use my_polkadot_orcale.Prelude.{
  ℕ, ◌+◌, ◌-◌, ◌*◌, ◌/◌, ◌%◌, ◌≤◌, ◌<◌, ◌≡◌, refl, Bool, false, arith, min, u64_mod,
}
use my_polkadot_orcale.Runtime.{milliunit}

-- `Weight`: computing time and the size of proofs.
pub record Weight : Type 0 where
  pub ref_time : ℕ
  pub proof_size : ℕ

-- `Perbill`, in parts of 10^9: a share of a number, and the share that a fraction is.
pub record Perbill : Type 0 where
  pub mul : (parts n : ℕ) → ℕ
  pub from_rational : (p q : ℕ) → ℕ
  pub mul-le : (parts n : ℕ) → parts ≤ 1000000000 → mul parts n ≤ n
  pub from_rational_lem : (p q : ℕ) → p ≤ q → 0 < q → from_rational p q ≡ p * 1000000000 / q

abbrev pub average_on_initialize_ratio : ℕ
average_on_initialize_ratio = 50000000

abbrev pub normal_dispatch_ratio : ℕ
normal_dispatch_ratio = 750000000

-- Two seconds of `WEIGHT_REF_TIME_PER_SECOND`; `MAX_POV_SIZE` of the relay chain is a parameter.
abbrev pub maximum_block_weight : ℕ → Weight
maximum_block_weight max_pov_size = record {
  ref_time = min (1000000000000 * 2) (u64_mod - 1);
  proof_size = max_pov_size;
}

-- `WEIGHT_REF_TIME_PER_NANOS.saturating_mul(125_000)`
abbrev pub extrinsic_base_weight : Weight
extrinsic_base_weight = record { ref_time = min (1000 * 125000) (u64_mod - 1); proof_size = 0 }

-- What the builder of the block weights is given for its classes.
pub record ClassLimits : Type 0 where
  pub normal_max_total : Weight
  pub operational_max_total : Weight
  pub operational_reserved : Weight

pub record WeightToFeeCoefficient : Type 0 where
  pub degree : ℕ
  pub negative : Bool
  pub coeff_frac : ℕ
  pub coeff_integer : ℕ

module _ (perbill : Perbill) where
  abbrev pub share : ℕ → Weight → Weight
  share parts w = record {
    ref_time = perbill.mul parts w.ref_time;
    proof_size = perbill.mul parts w.proof_size;
  }

  unfoldable pub runtime_block_weights : ℕ → ClassLimits
  runtime_block_weights max_pov_size =
      let most = maximum_block_weight max_pov_size in
      let normal = share normal_dispatch_ratio most in
      record {
        normal_max_total = normal;
        operational_max_total = most;
        operational_reserved = record {
          ref_time = most.ref_time - normal.ref_time;
          proof_size = most.proof_size - normal.proof_size;
        };
      }

  -- `WeightToFee::polynomial`: one coefficient.
  unfoldable pub polynomial : WeightToFeeCoefficient
  polynomial =
      let p = milliunit / 10 in
      let q = 100 * extrinsic_base_weight.ref_time in
      record {
        degree = 1;
        negative = false;
        coeff_frac = perbill.from_rational (p % q) q;
        coeff_integer = p / q;
      }

  -- Operational transactions have exactly the space that normal ones cannot take: the limit of the
  -- one class and the reserve of the other are the whole block, and the subtraction does not wrap.
  pub runtime_block_weights-split :
      (max_pov_size : ℕ)
      → let limits = runtime_block_weights max_pov_size in
        (limits.normal_max_total.ref_time + limits.operational_reserved.ref_time
          ≡ limits.operational_max_total.ref_time)
        × (limits.normal_max_total.proof_size + limits.operational_reserved.proof_size
            ≡ limits.operational_max_total.proof_size)
        × (limits.normal_max_total.ref_time ≤ limits.operational_max_total.ref_time)
        × (limits.normal_max_total.proof_size ≤ limits.operational_max_total.proof_size)
  unfolding runtime_block_weights
  runtime_block_weights-split max_pov_size =
      let most = maximum_block_weight max_pov_size in
      let time = perbill.mul-le normal_dispatch_ratio most.ref_time (omega arith) in
      let size = perbill.mul-le normal_dispatch_ratio max_pov_size (omega arith) in
      (omega (arith, time), omega (arith, size), time, size)

  -- The base weight of an extrinsic costs a thousandth of a milliunit, not the tenth that the
  -- comment on the polynomial names.
  pub base_fee :
      polynomial.coeff_frac * extrinsic_base_weight.ref_time ≡ 1000000000 * (milliunit / 1000)
  unfolding polynomial
  base_fee =
      rw
        (perbill.from_rational_lem (milliunit / 10) (100 * extrinsic_base_weight.ref_time)
          (omega arith) (omega arith))
        refl
