-- ===== src/TokenSwap/Covered.antt =====
-- contracts/external/cw-token-swap/src/contract.rs: the tokens that the escrow holds.
use dao_contracts.Prelude.{
  ℕ, ◌+◌, ◌≤◌, ◌≡◌, sym, ap, ◌∙◌, Bool, true, false, not, ◌&&◌, List, [], ◌∷◌, arith, ◌==◌,
  if◌then◌else◌, ok, map_err, map_err-eq-ok, >>=-then, ok-injective,
}
use dao_contracts.Cosmwasm.{Addr}
use dao_contracts.Denom.{Text, same_text}
use dao_contracts.TokenSwap.Contract.{
  std, invalid_funds, CheckedTokenInfo, CheckedCounterparty, State, Msg, Funds, coins_of, Chain,
  ExecuteMsg, receive, fund, withdraw, Side, one, two, counterparty, get_counterparty, cw20_promise,
  native_promise, execute_receive, execute_fund, execute,
}
use dao_contracts.TokenSwap.Step.{
  Step, deposited, exchanged, withdrawn, do_fund-Step, withdraw-Step,
}

pub data Token : Type 0 where
  native : Text → Token
  cw20 : Addr → Token

-- The amount of a token in a promise, and in messages
abbrev pub amount_in : Token → CheckedTokenInfo → ℕ
amount_in (Token.native d) (CheckedTokenInfo.native denom amount) =
    if same_text d denom then amount else 0
amount_in (Token.cw20 a) (CheckedTokenInfo.cw20 contract_addr amount) =
    if a == contract_addr then amount else 0
amount_in _ _ = 0

abbrev pub sent : Token → List Msg → ℕ
sent token [] = 0
sent token (m ∷ msgs) = amount_in token m.promise + sent token msgs

-- What the escrow holds for its parties: the deposit of a party while the other one has made none
abbrev pub held_of : Token → CheckedCounterparty → CheckedCounterparty → ℕ
held_of token c other = if c.provided && not other.provided then amount_in token c.promise else 0

abbrev pub holds : Token → State → ℕ
holds token s =
    held_of token s.counterparty_one s.counterparty_two
    + held_of token s.counterparty_two s.counterparty_one

-- What a message brings in
abbrev pub received : Token → (sender : Addr) → Funds → ExecuteMsg → ℕ
received (Token.native d) sender funds m = coins_of d funds
received (Token.cw20 a) sender funds (receive from amount) = if a == sender then amount else 0
received (Token.cw20 a) sender funds _ = 0

same_amount :
    (b : Bool) (n paid coins : ℕ)
    → n ≡ paid
    → coins ≡ (if b then paid else 0)
    → (if b then n else 0) ≤ coins
same_amount true n paid coins e h = omega arith
same_amount false n paid coins e h = omega arith

module _ (chain : Chain) where
  -- What a step pays out and holds on to, it held or is brought by a deposit.
  Step-covered :
      (token : Token) (side : Side) (s s' : State) (msgs : List Msg)
      → Step side s s' msgs
      → sent token msgs + holds token s'
        ≤ holds token s
          + (if (counterparty side s).provided
              then 0
              else amount_in token ((counterparty side s).promise))
  Step-covered token one s _ _ (deposited fresh missing) = rw (fresh, missing) (omega arith)
  Step-covered token two s _ _ (deposited fresh missing) = rw (fresh, missing) (omega arith)
  Step-covered token one s _ _ (exchanged fresh there) = rw (fresh, there) (omega arith)
  Step-covered token two s _ _ (exchanged fresh there) = rw (fresh, there) (omega arith)
  Step-covered token one s _ _ (withdrawn there missing) = rw (there, missing) (omega arith)
  Step-covered token two s _ _ (withdrawn there missing) = rw (there, missing) (omega arith)

  cw20-received :
      (token : Token) (promise : CheckedTokenInfo) (sender from : Addr) (funds : Funds) (amount : ℕ)
      → cw20_promise chain promise sender ≡ ok amount
      → amount_in token promise ≤ received token sender funds (receive from amount)
  unfolding cw20_promise
  cw20-received (Token.native d) (CheckedTokenInfo.cw20 a n) sender from funds amount h =
      omega arith
  cw20-received (Token.cw20 b) (CheckedTokenInfo.cw20 a n) sender from funds amount h = ground arith
  cw20-received token (CheckedTokenInfo.native d n) sender from funds amount h = cc

  native-received :
      (token : Token) (promise : CheckedTokenInfo) (sender : Addr) (funds : Funds) (r : ℕ × ℕ)
      → native_promise chain promise funds ≡ ok r
      → r.1 ≡ r.0
      → amount_in token promise ≤ received token sender funds fund
  unfolding native_promise
  native-received (Token.native d) (CheckedTokenInfo.native denom n) sender funds r h same =
      >>=-then (map_err (λ _. invalid_funds) (chain.must_pay funds denom)) _ h λ paid e k.
        let exact = ok-injective k in
        let is_promised = ap (λ (x : ℕ × ℕ). x.0) exact in
        let is_paid = ap (λ (x : ℕ × ℕ). x.1) exact in
        let coins =
          chain.must_pay-coins_of funds denom paid
            (map_err-eq-ok (λ _. invalid_funds) (chain.must_pay funds denom) e) d in
        same_amount (same_text d denom) n paid (coins_of d funds) (omega arith) coins
  native-received (Token.cw20 b) (CheckedTokenInfo.native denom n) sender funds r h same =
      omega arith
  native-received token (CheckedTokenInfo.cw20 a n) sender funds r h same = cc

  -- A deposit covers what its step adds.
  deposit-covered :
      (token : Token) (side : Side) (s : State) (r : State × List Msg) (gained : ℕ)
      → Step side s r.0 r.1
      → (counterparty side s).provided ≡ false
      → amount_in token ((counterparty side s).promise) ≤ gained
      → sent token r.1 + holds token r.0 ≤ holds token s + gained
  deposit-covered token side s r gained step new le = omega (
    arith,
    Step-covered token side s r.0 r.1 step,
    ap (λ (b : Bool). if b then 0 else amount_in token ((counterparty side s).promise)) new,
  )

  -- For every token, what an accepted message pays out, with what the escrow then holds for its
  -- parties, is covered by what it held before and what the message brings in.
  pub execute-covered :
      (token : Token) (sender : Addr) (funds : Funds) (m : ExecuteMsg) (s : State)
      (r : State × List Msg)
      → execute chain sender funds m s ≡ ok r
      → sent token r.1 + holds token r.0 ≤ holds token s + received token sender funds m
  unfolding execute execute_receive execute_fund
  execute-covered token sender funds (receive from amount) s r h =
      >>=-then (map_err std (chain.addr_validate from)) _ h λ valid e h1.
        >>=-then (get_counterparty chain s valid) _ h1 λ side who h2.
          >>=-then (cw20_promise chain ((counterparty side s).promise) sender) _ h2
            λ expected e3 h3.
              let (step, same, new) = do_fund-Step chain side amount expected s r h3 in
              deposit-covered token side s r (received token sender funds (receive from amount))
                step new
                (cw20-received token ((counterparty side s).promise) sender from funds amount
                  (e3 ∙ ap ok (sym same)))
  execute-covered token sender funds fund s r h =
      >>=-then (get_counterparty chain s sender) _ h λ side who h1.
        >>=-then (native_promise chain ((counterparty side s).promise) funds) _ h1
          λ (expected, paid) e2 h2.
            let (step, same, new) = do_fund-Step chain side paid expected s r h2 in
            deposit-covered token side s r (received token sender funds fund) step new (
              native-received token ((counterparty side s).promise) sender funds (expected, paid) e2
                same)
  execute-covered token sender funds withdraw s r h =
      let (side, who, step, there) = withdraw-Step chain sender s r h in
      omega (
        arith,
        Step-covered token side s r.0 r.1 step,
        ap (λ (b : Bool). if b then 0 else amount_in token ((counterparty side s).promise)) there,
      )
