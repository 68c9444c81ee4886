-- ===== src/Voting/Votes/Bounds.antt =====
-- Nothing in the comparison of votes leaves `Uint256`.
use dao_contracts.Prelude.{ℕ, ◌*◌, ◌^◌, ◌<◌, arith}
use dao_contracts.Cosmwasm.{Decimal, u128_mod}
use dao_contracts.Voting.Votes.{precision_factor, scaled_threshold}

mul_lt : (a b m n : ℕ) → a < m → b < n → a * b < m * n
mul_lt a b m n p q = grind arith

-- For a total power and a percentage that fit `Uint128`, both operands of the comparison fit
-- `Uint256`, so the comparison of votes with a threshold never overflows.
pub scaled_threshold-fits :
    (votes total_power : ℕ) (p : Decimal)
    → votes < u128_mod
    → total_power < u128_mod
    → p < u128_mod
    → (votes * precision_factor < 2 ^ 256) × (scaled_threshold total_power p < 2 ^ 256)
unfolding scaled_threshold
scaled_threshold-fits votes total_power p hv ht hp =
    (omega arith, omega (arith, mul_lt total_power p u128_mod u128_mod ht hp))
