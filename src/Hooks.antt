-- ===== src/Hooks.antt =====
-- packages/cw-hooks/src/lib.rs: the list of contracts that are told of events.
use dao_contracts.Prelude.{
  ℕ, ◌%◌, ◌^◌, ◌<◌, zero, suc, ◌≡◌, refl, true, false, List, [], ◌∷◌, ◌++◌, length, arith, ◌==◌,
  ◌||◌, if◌then◌else◌, Outcome, ok, err, panic, ok_or, Option, none, some, ◌>>=◌,
}
use dao_contracts.Cosmwasm.{Addr, StdError, not_found}
use dao_contracts.Voting.Policy.{contains}

pub data HookError : Type 0 where
  std : StdError → HookError
  hook_already_registered hook_not_registered : HookError

-- The item that holds the hooks, `none` until it is first saved.
abbrev pub Hooks : Type 0
Hooks = Option (List Addr)

-- `may_load(storage)?.unwrap_or_default()`
abbrev pub hooks_of : Hooks → List Addr
hooks_of none = []
hooks_of (some hooks) = hooks

-- `Vec::remove` at the first position of `addr`, which is known to be there
unfoldable pub remove : List Addr → Addr → List Addr
remove [] addr = []
remove (h ∷ hooks) addr = if h == addr then hooks else h ∷ remove hooks addr

unfoldable pub add_hook : Hooks → Addr → Outcome HookError Hooks
unfolding contains
add_hook item addr =
    if contains (hooks_of item) addr
    then err hook_already_registered
    else ok (some (hooks_of item ++ addr ∷ []))

unfoldable pub remove_hook : Hooks → Addr → Outcome HookError Hooks
unfolding contains remove
remove_hook item addr = do
  hooks ← ok_or item (std not_found)
  if contains hooks addr then ok (some (remove hooks addr)) else err hook_not_registered

-- The hook at an index and the others; `Vec::remove` panics out of range.
unfoldable pub take_at : List Addr → ℕ → Outcome HookError (Addr × List Addr)
take_at [] index = panic
take_at (h ∷ hooks) zero = ok (h, hooks)
take_at (h ∷ hooks) (suc index) = do (removed, rest) ← take_at hooks index; ok (removed, h ∷ rest)

-- The index is a u64, which is cast to a usize of 32 bits.
unfoldable pub remove_hook_by_index : Hooks → ℕ → Outcome HookError (Addr × Hooks)
unfolding take_at
remove_hook_by_index item index = do
  hooks ← ok_or item (std not_found)
  (removed, rest) ← take_at hooks (index % 2 ^ 32)
  ok (removed, some rest)

-- No hook is registered twice.
abbrev pub IsUnique : List Addr → Type 0
IsUnique [] = Unit
IsUnique (h ∷ hooks) = (contains hooks h ≡ false) × IsUnique hooks

contains-append :
    (hooks : List Addr) (a b : Addr) → contains (hooks ++ a ∷ []) b ≡ (contains hooks b || (a == b))
unfolding contains
contains-append [] a b = ground arith
contains-append (h ∷ hooks) a b = ground (arith, contains-append hooks a b)

pub append-IsUnique :
    (hooks : List Addr) (a : Addr)
    → contains hooks a ≡ false
    → IsUnique hooks
    → IsUnique (hooks ++ a ∷ [])
unfolding contains
append-IsUnique [] a n u = (refl, tt)
append-IsUnique (h ∷ hooks) a n u =
    ground (arith, contains-append hooks a h, append-IsUnique hooks a)

contains-remove :
    (hooks : List Addr) (a b : Addr)
    → IsUnique hooks
    → contains (remove hooks a) b ≡ (if a == b then false else contains hooks b)
unfolding contains remove
contains-remove [] a b u = ground arith
contains-remove (h ∷ hooks) a b u = ground (arith, contains-remove hooks a b u.1)

remove-IsUnique : (hooks : List Addr) (a : Addr) → IsUnique hooks → IsUnique (remove hooks a)
unfolding remove
remove-IsUnique [] a u = tt
remove-IsUnique (h ∷ hooks) a u =
    ground (arith, remove-IsUnique hooks a u.1, contains-remove hooks a h u.1)

-- A hook is added to a list without repetition only if it is not registered yet. It is registered from then on, every other
-- registration stays as it was, and none is made twice.
pub add_hook_registers :
    (item item' : Hooks) (a b : Addr)
    → IsUnique (hooks_of item)
    → add_hook item a ≡ ok item'
    → (contains (hooks_of item) a ≡ false)
      × IsUnique (hooks_of item')
      × (contains (hooks_of item') b ≡ (contains (hooks_of item) b || (a == b)))
unfolding add_hook
add_hook_registers none item' a b u h = unfold contains in ground arith
add_hook_registers (some hooks) item' a b u h =
    ground (arith, append-IsUnique hooks a, contains-append hooks a b)

-- A hook is removed from a list without repetition only if it is registered. It is not registered from then on, and every other
-- registration stays as it was.
pub remove_hook_unregisters :
    (item item' : Hooks) (a b : Addr)
    → IsUnique (hooks_of item)
    → remove_hook item a ≡ ok item'
    → (contains (hooks_of item) a ≡ true)
      × IsUnique (hooks_of item')
      × (contains (hooks_of item') b ≡ (if a == b then false else contains (hooks_of item) b))
unfolding remove_hook
remove_hook_unregisters none item' a b u h = cc
remove_hook_unregisters (some hooks) item' a b u h =
    ground (arith, remove-IsUnique hooks a u, contains-remove hooks a b u)

take_at_splits :
    (before after : List Addr) (a : Addr)
    → take_at (before ++ a ∷ after) (length before) ≡ ok (a, before ++ after)
unfolding take_at
take_at_splits [] after a = refl
take_at_splits (h ∷ before) after a = rw (take_at_splits before after a)

-- Removal by index takes out the hook that stands there, and leaves the others in their order, if
-- the index is less than 2^32.
pub remove_hook_by_index_splits :
    (before after : List Addr) (a : Addr)
    → length before < 2 ^ 32
    → remove_hook_by_index (some (before ++ a ∷ after)) (length before)
      ≡ ok (a, some (before ++ after))
unfolding remove_hook_by_index
remove_hook_by_index_splits before after a fits =
    let small : length before % 2 ^ 32 ≡ length before = omega arith in
    rw (small, take_at_splits before after a) refl
