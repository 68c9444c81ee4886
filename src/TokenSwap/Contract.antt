-- ===== src/TokenSwap/Contract.antt =====
-- contracts/external/cw-token-swap/src/contract.rs, state.rs, error.rs and msg.rs.
use dao_contracts.Prelude.{
  ℕ, ◌+◌, ◌≡◌, Bool, true, false, not, ◌&&◌, List, [], ◌∷◌, ◌==◌, if◌then◌else◌, Outcome, ok, err,
  guard, map_err, ◌>>=◌, ◌>>◌,
}
use dao_contracts.Cosmwasm.{Addr, StdError}
use dao_contracts.Denom.{Text, same_text}

pub data ContractError : Type 0 where
  std : StdError → ContractError
  unauthorized non_distinct_counterparties already_provided complete no_provision zero_tokens
        invalid_funds :
      ContractError
  invalid_amount : (expected actual : ℕ) → ContractError

-- `TokenInfo` has the same constructors, where the address is not checked yet.
pub data CheckedTokenInfo : Type 0 where
  native : (denom : Text) (amount : ℕ) → CheckedTokenInfo
  cw20 : (contract_addr : Addr) (amount : ℕ) → CheckedTokenInfo

pub record Counterparty : Type 0 where
  pub address : Addr
  pub promise : CheckedTokenInfo

pub record CheckedCounterparty : Type 0 where
  pub address : Addr
  pub promise : CheckedTokenInfo
  pub provided : Bool

pub record State : Type 0 where
  pub counterparty_one : CheckedCounterparty
  pub counterparty_two : CheckedCounterparty

-- `into_send_message`
pub record Msg : Type 0 where
  pub promise : CheckedTokenInfo
  pub recipient : Addr

-- The coins that are sent with a message
abbrev pub Funds : Type 0
Funds = List (Text × ℕ)

abbrev pub coins_of : Text → Funds → ℕ
coins_of d [] = 0
coins_of d ((denom, amount) ∷ funds) = (if same_text d denom then amount else 0) + coins_of d funds

-- What the contract calls of the chain and of cw_utils. It relies on `must_pay` to accept only funds
-- of one denomination and to return their amount.
pub record Chain : Type 0 where
  pub addr_validate : Addr → Outcome StdError Addr
  pub token_info : Addr → Outcome StdError (Unit {0})
  pub must_pay : Funds → Text → Outcome StdError ℕ
  pub must_pay-coins_of :
      (funds : Funds) (d : Text) (paid : ℕ)
      → must_pay funds d ≡ ok paid
      → (c : Text) → coins_of c funds ≡ (if same_text c d then paid else 0)

-- `receive` is the hook of a cw20 contract, for what its sender has transferred.
pub data ExecuteMsg : Type 0 where
  receive : (sender : Addr) (amount : ℕ) → ExecuteMsg
  fund withdraw : ExecuteMsg

-- Whose message it is: the first or the second counterparty
pub data Side : Type 0 where
  one two : Side

abbrev pub counterparty : Side → State → CheckedCounterparty
counterparty one s = s.counterparty_one
counterparty two s = s.counterparty_two

abbrev pub other_counterparty : Side → State → CheckedCounterparty
other_counterparty one s = s.counterparty_two
other_counterparty two s = s.counterparty_one

abbrev pub save : Side → CheckedCounterparty → State → State
save one c s = record s { counterparty_one = c }
save two c s = record s { counterparty_two = c }

module _ (chain : Chain) where
  unfoldable pub check_token : CheckedTokenInfo → Outcome ContractError CheckedTokenInfo
  check_token (native denom amount) =
      if amount == 0 then err zero_tokens else ok (native denom amount)
  check_token (cw20 contract_addr amount) = if amount == 0 then err zero_tokens else (do
    addr ← map_err std (chain.addr_validate contract_addr)
    map_err std (chain.token_info addr)
    ok (cw20 addr amount))

  unfoldable pub into_checked : Counterparty → Outcome ContractError CheckedCounterparty
  unfolding check_token
  into_checked c = do
    address ← map_err std (chain.addr_validate c.address)
    promise ← check_token c.promise
    ok (record { address = address; promise = promise; provided = false })

  unfoldable pub instantiate : Counterparty → Counterparty → Outcome ContractError State
  unfolding into_checked
  instantiate first second = do
    counterparty_one ← into_checked first
    counterparty_two ← into_checked second
    guard (not (counterparty_one.address == counterparty_two.address)) non_distinct_counterparties
    ok (record { counterparty_one = counterparty_one; counterparty_two = counterparty_two })

  unfoldable pub get_counterparty : State → Addr → Outcome ContractError Side
  get_counterparty s sender =
      if sender == s.counterparty_one.address
      then ok one
      else if sender == s.counterparty_two.address
      then ok two
      else err unauthorized

  -- What is sent when a side has provided its funds
  unfoldable pub swap_messages : CheckedCounterparty → CheckedCounterparty → List Msg
  swap_messages c other =
      if c.provided && other.provided
      then record { promise = c.promise; recipient = other.address }
        ∷ record { promise = other.promise; recipient = c.address }
        ∷ []
      else []

  unfoldable pub do_fund :
      Side → (paid expected : ℕ) → State → Outcome ContractError (State × List Msg)
  unfolding swap_messages
  do_fund side paid expected s = do
    let c = counterparty side s
    guard (not c.provided) already_provided
    guard (paid == expected) (invalid_amount expected paid)
    let funded : CheckedCounterparty = record c { provided = true }
    ok (save side funded s, swap_messages funded (other_counterparty side s))

  -- The promise of cw20 tokens, and of native ones, that a payment must meet
  unfoldable pub cw20_promise : CheckedTokenInfo → Addr → Outcome ContractError ℕ
  cw20_promise (cw20 contract_addr amount) token_contract =
      if contract_addr == token_contract then ok amount else err invalid_funds
  cw20_promise (native _ _) token_contract = err invalid_funds

  unfoldable pub native_promise : CheckedTokenInfo → Funds → Outcome ContractError (ℕ × ℕ)
  native_promise (native denom amount) funds = do
    paid ← map_err (λ _. invalid_funds) (chain.must_pay funds denom)
    ok (amount, paid)
  native_promise (cw20 _ _) funds = err invalid_funds

  unfoldable pub execute_receive :
      (token_contract sender : Addr) (amount : ℕ) → State → Outcome ContractError (State × List Msg)
  unfolding cw20_promise
  execute_receive token_contract sender amount s = do
    valid ← map_err std (chain.addr_validate sender)
    side ← get_counterparty s valid
    expected ← cw20_promise ((counterparty side s).promise) token_contract
    do_fund side amount expected s

  unfoldable pub execute_fund : Addr → Funds → State → Outcome ContractError (State × List Msg)
  unfolding native_promise
  execute_fund sender funds s = do
    side ← get_counterparty s sender
    (expected, paid) ← native_promise ((counterparty side s).promise) funds
    do_fund side paid expected s

  unfoldable pub execute_withdraw : Addr → State → Outcome ContractError (State × List Msg)
  execute_withdraw sender s = do
    side ← get_counterparty s sender
    let c = counterparty side s
    guard c.provided no_provision
    guard (not (c.provided && (other_counterparty side s).provided)) complete
    ok (
      save side (record c { provided = false }) s,
      record { promise = c.promise; recipient = c.address } ∷ [],
    )

  unfoldable pub execute :
      (sender : Addr) → Funds → ExecuteMsg → State → Outcome ContractError (State × List Msg)
  execute sender funds (receive from amount) s = execute_receive sender from amount s
  execute sender funds fund s = execute_fund sender funds s
  execute sender funds withdraw s = execute_withdraw sender s
