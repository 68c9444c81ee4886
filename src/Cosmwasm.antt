-- ===== src/Cosmwasm.antt =====
-- What the contracts use of cosmwasm_std and cw_utils. `Uint128` is a natural number whose
-- arithmetic panics out of range; `Decimal` is its number of atomics, 10^18 to the unit; `Addr` is
-- compared and never read, so it is a number. `Expiration` and `Duration` have the constructors that
-- the contracts match on; the functions of cw_utils over them are the parameter `CwUtils`.
use dao_contracts.Prelude.{
  ℕ, ◌+◌, ◌-◌, ◌^◌, ◌≤◌, String, ◌≡◌, Bool, true, leb, ltb, if◌then◌else◌, Option, none, some,
  Outcome, ok, panic, ◌>>=◌,
}

abbrev pub Addr : Type 0
Addr = ℕ

-- A message for the chain, as its JSON text.
abbrev pub CosmosMsg : Type 0
CosmosMsg = String

pub data StdError : Type 0 where
  generic_err overflow not_found query_failed : StdError

abbrev pub u128_mod : ℕ
u128_mod = 2 ^ 128

abbrev pub u64_mod : ℕ
u64_mod = 2 ^ 64

module _ {E : Type 0} where
  -- `a + b` on `Uint128`
  abbrev pub add128 : ℕ → ℕ → Outcome E ℕ
  add128 a b = if ltb (a + b) u128_mod then ok (a + b) else panic

  -- `a - b` on `Uint128`
  abbrev pub sub128 : ℕ → ℕ → Outcome E ℕ
  sub128 a b = if leb b a then ok (a - b) else panic

-- `a + b` and `a - b` on `u64`: the contracts are built with overflow checks.
module _ {E : Type 0} where
  abbrev pub add64 : ℕ → ℕ → Outcome E ℕ
  add64 a b = if ltb (a + b) u64_mod then ok (a + b) else panic

  abbrev pub sub64 : ℕ → ℕ → Outcome E ℕ
  sub64 a b = if leb b a then ok (a - b) else panic

-- `Decimal`, by its `atomics()`; `decimal_places()` is 18.
abbrev pub Decimal : Type 0
Decimal = ℕ

abbrev pub decimal_one : Decimal
decimal_one = 10 ^ 18

pub record BlockInfo : Type 0 where
  pub height : ℕ
  pub time : ℕ

pub data Duration : Type 0 where
  height time : ℕ → Duration

pub data Expiration : Type 0 where
  at_height at_time : ℕ → Expiration
  never : Expiration

-- A later block has a height and a time that are no smaller.
pub record Later (a b : BlockInfo) : Type 0 where
  pub heights : a.height ≤ b.height
  pub times : a.time ≤ b.time

-- The functions of cw_utils, where `after` panics out of range, and what the contracts rely on: what
-- has expired stays expired.
pub record CwUtils : Type 0 where
  pub is_expired : Expiration → BlockInfo → Bool
  pub after : Duration → BlockInfo → Outcome StdError Expiration
  pub add : Expiration → Duration → Outcome StdError Expiration
  pub is_expired_stays :
      (e : Expiration) (a b : BlockInfo) → Later a b → is_expired e a ≡ true → is_expired e b ≡ true

-- `min_voting_period.map(|min| min.after(block))`
abbrev pub after_period :
    CwUtils → Option Duration → BlockInfo → Outcome StdError (Option Expiration)
after_period cw none block = ok none
after_period cw (some period) block = do end ← cw.after period block; ok (some end)
