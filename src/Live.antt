-- ===== src/Live.antt =====
-- realtime.go, the registry of live calls: `liveCallStore`. The map of calls is an association list
-- in which an id stands once; an owner is the hash of a bearer token, as a number. The clock is an
-- argument.
pub mod Store
mod Tests
use codex_auth_broker.Prelude.{
  Bool, List, Option, [], false, if◌then◌else◌, leb, length, ltb, none, some, true, ℕ, ◌+◌, ◌-◌,
  ◌==◌, ◌∷◌,
}
use codex_auth_broker.Prelude.Clock.{Time}
use codex_auth_broker.Prelude.Text.{Bytes, beq}

abbrev pub max_live_calls : ℕ
max_live_calls = 256

-- `account` is an index into the pool.
pub record LiveCall : Type 0 where
  pub account : ℕ
  pub owner : ℕ
  pub expires : Time

abbrev pub Calls : Type 0
Calls = List (Bytes × LiveCall)

pub record LiveCallStore : Type 0 where
  pub calls : Calls
  pub pending : ℕ

abbrev pub empty_store : LiveCallStore
empty_store = record { calls = []; pending = 0 }

-- The loop of `reserve`: calls that are past their time are deleted.
unfoldable pub unexpired : Time → Calls → Calls
unexpired now [] = []
unexpired now ((id, call) ∷ calls) =
    let rest = unexpired now calls in if ltb call.expires now then rest else (id, call) ∷ rest

unfoldable pub reserve : LiveCallStore → Time → LiveCallStore × Bool
reserve s now =
    let calls = unexpired now s.calls in
    if leb max_live_calls (length calls + s.pending)
    then (record s { calls = calls }, false)
    else (record { calls = calls; pending = s.pending + 1 }, true)

-- `s.calls[id] = call`
unfoldable pub put_call : Bytes → LiveCall → Calls → Calls
put_call id call [] = (id, call) ∷ []
put_call id call ((i, c) ∷ calls) =
    let rest = put_call id call calls in if beq id i then (id, call) ∷ calls else (i, c) ∷ rest

unfoldable pub delete_call : Bytes → Calls → Calls
delete_call id [] = []
delete_call id ((i, c) ∷ calls) =
    let rest = delete_call id calls in if beq id i then rest else (i, c) ∷ rest

unfoldable pub get_call : Bytes → Calls → Option LiveCall
get_call id [] = none
get_call id ((i, c) ∷ calls) = let rest = get_call id calls in if beq id i then some c else rest

-- The count of the source would go below 0 where this one stops.
unfoldable pub finish : LiveCallStore → Bytes → LiveCall → LiveCallStore
finish s id call = record {
  calls = if beq id [] then s.calls else put_call id call s.calls;
  pending = s.pending - 1;
}

-- A call that is found, not past its time, and of this owner.
unfoldable pub lookup : LiveCallStore → Bytes → ℕ → Time → LiveCallStore × Option LiveCall
lookup s id owner now = elim (get_call id s.calls) [
  | none ↦ (s, none)
  | some call ↦
      if ltb call.expires now
      then (record s { calls = delete_call id s.calls }, none)
      else (s, if call.owner == owner then some call else none)
]
