-- ===== src/Closing/Owned.antt =====
-- Who owns a position while it is closed: the request that is under way for it.
pub mod Updates
pub mod Loops
pub mod Sweeps
pub mod Requests
use aq_trading.Prelude.{
  ℕ, ◌≡◌, ◌≢◌, ◌⊎◌, inl, inr, refl, sym, ◌∙◌, ap, subst, some_injective, Bool, true, false, not,
  ◌&&◌, Option, none, some, List, [], ◌∷◌, keep, All, ◌==◌, if◌then◌else◌, same_or_not, Bool-cases,
  Option-cases, arith,
}
use aq_trading.Prelude.Dict.{Dict, lookup, insert, values, lookup-insert_same, lookup-insert_ne}
use aq_trading.Prelude.Dict.Keyed.{IsKeyed, Distinct, insert-IsKeyed, lookup-key, All-map}
use aq_trading.Closing.Types.{
  PositionStatus, open_, closing, close_retryable, RequestStatus, Position, CloseRequest, Store,
  write_position, write_request,
}

-- The status of a position while a request is under way for it; `none` for a request that has ended.
abbrev pub held_status : RequestStatus → Option PositionStatus
held_status RequestStatus.pending = some closing
held_status RequestStatus.submitted = some closing
held_status RequestStatus.retryable = some close_retryable
held_status RequestStatus.completed = none
held_status RequestStatus.failed = none

-- A row of the table of requests, and one that is under way.
abbrev pub Current : Store → CloseRequest → Type 0
Current s r = lookup r.id s.requests ≡ some r

abbrev pub IsLive : CloseRequest → Type 0
IsLive r = held_status r.status ≢ none

abbrev pub HeldBy : Position → CloseRequest → Type 0
HeldBy p r = (p.active_close_request_id ≡ some r.id) × (some p.status ≡ held_status r.status)

abbrev pub Holder : Store → CloseRequest → Type 0
Holder s r = (p : Position) × (lookup r.position_id s.positions ≡ some p) × HeldBy p r

-- Each request that is under way has its position marked as being closed by it.
abbrev pub IsOwned : Store → Type 0
IsOwned s =
    IsKeyed (λ (p : Position). p.id) s.positions
    × IsKeyed (λ (r : CloseRequest). r.id) s.requests
    × ((r : CloseRequest) → Current s r → IsLive r → Holder s r)

-- No other request is under way for the request's position.
abbrev pub Alone : CloseRequest → Store → Type 0
Alone r s =
    (q : CloseRequest) → Current s q → IsLive q → q.position_id ≡ r.position_id → q.id ≡ r.id

pub IsOwned-Alone : (s : Store) → IsOwned s → (r : CloseRequest) → Holder s r → Alone r s
IsOwned-Alone s owned r (p, at, held) q current live same =
    let (p', at', held') = owned.2 q current live in
    let same_p : p' ≡ p = some_injective (sym at' ∙ ap (λ k. lookup k s.positions) same ∙ at) in
    some_injective (sym held'.0 ∙ ap (λ (p : Position). p.active_close_request_id) same_p ∙ held.0)

-- A request that is written is the one found, and the others stay.
pub Current-write :
    (s : Store) (r q : CloseRequest)
    → Current (write_request r s) q
    → (q ≡ r) ⊎ ((q.id ≢ r.id) × Current s q)
Current-write s r q current = elim (same_or_not q.id r.id) [
  | inl same ↦ inl (some_injective (sym current ∙ lookup-insert_same s.requests r.id r q.id same))
  | inr other ↦ inr (other, sym (lookup-insert_ne s.requests r.id r q.id other) ∙ current)
]

pub write_request-IsOwned :
    (s : Store) (r : CloseRequest)
    → IsOwned s
    → (IsLive r → Holder s r)
    → IsOwned (write_request r s)
write_request-IsOwned s r owned own = (
  owned.0,
  insert-IsKeyed (λ (r : CloseRequest). r.id) s.requests r owned.1,
  λ q current live. elim (Current-write s r q current) [
    | inl e ↦ subst (λ q. Holder s q) (sym e) (own (subst IsLive e live))
    | inr (_, before) ↦ owned.2 q before live
  ],
)

-- The request and its position are written together.
pub write_both-IsOwned :
    (s : Store) (r : CloseRequest) (p : Position)
    → IsOwned s
    → Alone r s
    → p.id ≡ r.position_id
    → (IsLive r → HeldBy p r)
    → IsOwned (write_position p (write_request r s))
write_both-IsOwned s r p owned alone at held = (
  insert-IsKeyed (λ (p : Position). p.id) s.positions p owned.0,
  insert-IsKeyed (λ (r : CloseRequest). r.id) s.requests r owned.1,
  λ q current live. elim (Current-write s r q current) [
    | inl e ↦
        subst (λ q. Holder (write_position p (write_request r s)) q) (sym e)
          (
            p,
            lookup-insert_same s.positions p.id p r.position_id (sym at),
            held (subst IsLive e live),
          )
    | inr (other, before) ↦
        let (p', at', held') = owned.2 q before live in
        (
          p',
          lookup-insert_ne s.positions p.id p q.position_id
                (λ e. other (alone q before live (e ∙ at)))
              ∙ at',
          held',
        )
  ],
)

-- A position that no request holds is written.
pub write_position-IsOwned :
    (s : Store) (p : Position)
    → IsOwned s
    → ((q : CloseRequest) → Current s q → IsLive q → q.position_id ≢ p.id)
    → IsOwned (write_position p s)
write_position-IsOwned s p owned free = (
  insert-IsKeyed (λ (p : Position). p.id) s.positions p owned.0,
  owned.1,
  λ q current live.
      let (p', at', held') = owned.2 q current live in
      (p', lookup-insert_ne s.positions p.id p q.position_id (free q current live) ∙ at', held'),
)

-- The rows of the requests other than one stay as they are.
abbrev pub KeepsOthers : CloseRequest → Store → Store → Type 0
KeepsOthers r s s' = (q : CloseRequest) → q.id ≢ r.id → Current s q → Current s' q

pub write_both-KeepsOthers :
    (s : Store) (r r' : CloseRequest) → r'.id ≡ r.id → KeepsOthers r s (write_request r' s)
write_both-KeepsOthers s r r' e q other current =
    lookup-insert_ne s.requests r'.id r' q.id (λ same. other (same ∙ e)) ∙ current

pub Alone-write :
    (s : Store) (r r' : CloseRequest) → r'.id ≡ r.id → Alone r s → Alone r (write_request r' s)
Alone-write s r r' e alone q current live same = elim (Current-write s r' q current) [
  | inl is ↦ ap (λ (r : CloseRequest). r.id) is ∙ e
  | inr (_, before) ↦ alone q before live same
]

-- A position that is open is held by no request.
pub held_status-open : (st : RequestStatus) → some open_ ≢ held_status st
held_status-open RequestStatus.pending e = absurd cc
held_status-open RequestStatus.submitted e = absurd cc
held_status-open RequestStatus.retryable e = absurd cc
held_status-open RequestStatus.completed e = absurd cc
held_status-open RequestStatus.failed e = absurd cc
