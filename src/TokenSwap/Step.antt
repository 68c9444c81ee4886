-- ===== src/TokenSwap/Step.antt =====
-- contracts/external/cw-token-swap/src/contract.rs: the escrow as a state machine.
use dao_contracts.Prelude.{
  ℕ, ◌≡◌, ap, sym, ◌∙◌, inl, inr, Bool, true, false, not, ◌&&◌, List, [], ◌∷◌, arith, ◌==◌, ==_iff,
  Bool-cases, not-eq-true, Outcome, ok, map_err, map_err-eq-ok, >>=-then, guard-eq-ok, ok-injective,
}
use mathlib.Core.Path.{subst}
use dao_contracts.Cosmwasm.{Addr, StdError}
use dao_contracts.TokenSwap.Contract.{
  std, CheckedCounterparty, State, Msg, Funds, Chain, ExecuteMsg, receive, fund, withdraw, Side,
  counterparty, other_counterparty, save, get_counterparty, swap_messages, do_fund, cw20_promise,
  native_promise, execute_receive, execute_fund, execute_withdraw, execute,
}

abbrev pub provide : Bool → CheckedCounterparty → CheckedCounterparty
provide b c = record c { provided = b }

-- The steps of the escrow: a party deposits what it promised; if the other one has done so before,
-- the promises are exchanged; until then a party can take its deposit back.
pub data Step (side : Side) (s : State) : State → List Msg → Type 0 where
  deposited :
      (counterparty side s).provided ≡ false
      → (other_counterparty side s).provided ≡ false
      → Step side s (save side (provide true (counterparty side s)) s) []
  exchanged :
      (counterparty side s).provided ≡ false
      → (other_counterparty side s).provided ≡ true
      → Step side s (save side (provide true (counterparty side s)) s) (
          record {
            promise = (counterparty side s).promise;
            recipient = (other_counterparty side s).address;
          }
          ∷ record {
            promise = (other_counterparty side s).promise;
            recipient = (counterparty side s).address;
          }
          ∷ [])
  withdrawn :
      (counterparty side s).provided ≡ true
      → (other_counterparty side s).provided ≡ false
      → Step side s (save side (provide false (counterparty side s)) s) (
          record {
            promise = (counterparty side s).promise;
            recipient = (counterparty side s).address;
          }
          ∷ [])

not-both : (a b : Bool) → a ≡ true → not (a && b) ≡ true → b ≡ false
not-both a b h k = ground arith

module _ (chain : Chain) where
  pub do_fund-Step :
      (side : Side) (paid expected : ℕ) (s : State) (r : State × List Msg)
      → do_fund chain side paid expected s ≡ ok r
      → Step side s r.0 r.1 × (paid ≡ expected) × ((counterparty side s).provided ≡ false)
  unfolding do_fund swap_messages
  do_fund-Step side paid expected s r h =
      let c = counterparty side s in
      let other = other_counterparty side s in
      let (fresh, h1) = guard-eq-ok (not c.provided) _ _ h in
      let (exact, h2) = guard-eq-ok (paid == expected) _ _ h1 in
      let new = not-eq-true c.provided fresh in
      (
        elim (Bool-cases other.provided) [
          | inl there ↦
              subst (λ (x : State × List Msg). Step side s x.0 x.1) (ok-injective h2)
                (rw there (exchanged new there))
          | inr missing ↦
              subst (λ (x : State × List Msg). Step side s x.0 x.1) (ok-injective h2)
                (rw missing (deposited new missing))
        ],
        (==_iff paid expected).0 exact,
        new,
      )

  pub withdraw-Step :
      (sender : Addr) (s : State) (r : State × List Msg)
      → execute_withdraw chain sender s ≡ ok r
      → (side : Side) × (get_counterparty chain s sender ≡ ok side)
        × Step side s r.0 r.1
        × ((counterparty side s).provided ≡ true)
  unfolding execute_withdraw
  withdraw-Step sender s r h = >>=-then (get_counterparty chain s sender) _ h λ side who h1.
      let c = counterparty side s in
      let (there, h2) = guard-eq-ok c.provided _ _ h1 in
      let (open', h3) =
        guard-eq-ok (not (c.provided && (other_counterparty side s).provided)) _ _ h2 in
      (
        side,
        who,
        subst (λ (x : State × List Msg). Step side s x.0 x.1) (ok-injective h3)
            (withdrawn there
              (not-both c.provided (other_counterparty side s).provided there open')),
        there,
      )

  -- Who sends a message: the sender itself, or who has sent the tokens to the escrow
  abbrev pub author : Addr → ExecuteMsg → Outcome StdError Addr
  author sender (receive from amount) = chain.addr_validate from
  author sender _ = ok sender

  -- The code takes a sender for the party whose address it has.
  get_counterparty-address :
      (s : State) (sender : Addr) (side : Side)
      → get_counterparty chain s sender ≡ ok side
      → (counterparty side s).address ≡ sender
  unfolding get_counterparty
  get_counterparty-address s sender Side.one h = ground arith
  get_counterparty-address s sender Side.two h = ground arith

  -- Every message that is accepted is a step of the escrow by the party whose address is that of
  -- the author of the message: its sender, or for a transfer of cw20 tokens who has sent them.
  pub execute-Step :
      (sender : Addr) (funds : Funds) (m : ExecuteMsg) (s : State) (r : State × List Msg)
      → execute chain sender funds m s ≡ ok r
      → (side : Side) × (author sender m ≡ ok ((counterparty side s).address)) × Step side s r.0 r.1
  unfolding execute execute_receive execute_fund
  execute-Step sender funds (receive from amount) s r h =
      >>=-then (map_err std (chain.addr_validate from)) _ h λ valid e h1.
        >>=-then (get_counterparty chain s valid) _ h1 λ side who h2.
          >>=-then (cw20_promise chain ((counterparty side s).promise) sender) _ h2 λ expected _ h3.
            (
              side,
              map_err-eq-ok std (chain.addr_validate from) e
                  ∙ ap ok (sym (get_counterparty-address s valid side who)),
              (do_fund-Step side amount expected s r h3).0,
            )
  execute-Step sender funds fund s r h =
      >>=-then (get_counterparty chain s sender) _ h λ side who h1.
        >>=-then (native_promise chain ((counterparty side s).promise) funds) _ h1
          λ (expected, paid) _ h2. (
            side,
            ap ok (sym (get_counterparty-address s sender side who)),
            (do_fund-Step side paid expected s r h2).0,
          )
  execute-Step sender funds withdraw s r h =
      let (side, who, step, _) = withdraw-Step sender s r h in
      (side, ap ok (sym (get_counterparty-address s sender side who)), step)
