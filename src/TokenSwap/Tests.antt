-- ===== src/TokenSwap/Tests.antt =====
-- The escrow at concrete inputs: 5 of a native token against 7 of a cw20 token.
use dao_contracts.Prelude.{
  ℕ, ◌+◌, ◌≤◌, ◌≡◌, refl, true, false, &&-eq-true, ==_iff, List, [], ◌∷◌, arith, ◌==◌, inl, inr,
  if◌then◌else◌, if-cases, ok-injective, Outcome, ok, err,
}
use mathlib.Core.Path.{subst}
use dao_contracts.Cosmwasm.{StdError, not_found}
use dao_contracts.Denom.{Text, same_text}
use dao_contracts.TokenSwap.Contract.{
  CheckedTokenInfo, State, Msg, Funds, coins_of, Chain, ExecuteMsg, receive, Side, counterparty,
  get_counterparty, execute,
}
use dao_contracts.TokenSwap.Step.{Step, author, execute-Step}
use dao_contracts.TokenSwap.Covered.{Token, sent, holds, received, execute-covered}

same_text-eq : (c d : Text) → same_text c d ≡ true → c ≡ d
unfolding same_text
same_text-eq [] [] h = refl
same_text-eq [] (y ∷ d) h = cc
same_text-eq (x ∷ c) [] h = cc
same_text-eq (x ∷ c) (y ∷ d) h =
    let (first, rest) = &&-eq-true (x == y) (same_text c d) h in
    let head = (==_iff x y).0 first in let tail = same_text-eq c d rest in cc

-- One coin of the denomination
abbrev must_pay : Funds → Text → Outcome StdError ℕ
must_pay ((denom, amount) ∷ []) d = if same_text denom d then ok amount else err not_found
must_pay _ d = err not_found

must_pay-coins_of :
    (funds : Funds) (d : Text) (paid : ℕ)
    → must_pay funds d ≡ ok paid
    → (c : Text) → coins_of c funds ≡ (if same_text c d then paid else 0)
must_pay-coins_of [] d paid h c = cc
must_pay-coins_of ((denom, amount) ∷ []) d paid h c = elim (if-cases (same_text denom d) _ _ h) [
  | inl (same, e) ↦
      subst (λ t. coins_of c ((denom, amount) ∷ []) ≡ (if same_text c t then paid else 0))
        (same_text-eq denom d same)
        (subst (λ n. coins_of c ((denom, amount) ∷ []) ≡ (if same_text c denom then n else 0))
          (ok-injective e) (omega arith))
  | inr (_, e) ↦ cc
]
must_pay-coins_of (_ ∷ _ ∷ _) d paid h c = cc

abbrev chain : Chain
chain = record {
  addr_validate = λ a. ok a;
  token_info = λ a. ok tt;
  must_pay = must_pay;
  must_pay-coins_of = must_pay-coins_of;
}

-- The first party has made its deposit.
abbrev half : State
half = record {
  counterparty_one = record {
    address = 1;
    promise = CheckedTokenInfo.native (b'u' ∷ []) 5;
    provided = true;
  };
  counterparty_two = record { address = 2; promise = CheckedTokenInfo.cw20 30 7; provided = false };
}

abbrev done : State × List Msg
done = (
  record {
    counterparty_one = record {
      address = 1;
      promise = CheckedTokenInfo.native (b'u' ∷ []) 5;
      provided = true;
    };
    counterparty_two = record {
      address = 2;
      promise = CheckedTokenInfo.cw20 30 7;
      provided = true;
    };
  },
  record { promise = CheckedTokenInfo.cw20 30 7; recipient = 1 }
      ∷ record { promise = CheckedTokenInfo.native (b'u' ∷ []) 5; recipient = 2 }
      ∷ [],
)

swaps : execute chain 30 [] (receive 2 7) half ≡ ok done
unfolding execute dao_contracts.TokenSwap.Contract.execute_receive get_counterparty
    dao_contracts.TokenSwap.Contract.do_fund
swaps = refl

execute-Step_example :
    (side : Side) × (author chain 30 (receive 2 7) ≡ ok ((counterparty side half).address))
    × Step side half done.0 done.1
execute-Step_example = execute-Step chain 30 [] (receive 2 7) half done swaps

execute-covered_example :
    sent (Token.cw20 30) done.1 + holds (Token.cw20 30) done.0
    ≤ holds (Token.cw20 30) half + received (Token.cw20 30) 30 [] (receive 2 7)
execute-covered_example = execute-covered chain (Token.cw20 30) 30 [] (receive 2 7) half done swaps
