-- ===== src/Closing/Owned/Loops.antt =====
-- What the loops of the reconciler share: their rows, and the writing of a request with its position.
use aq_trading.Prelude.{
  ℕ, ◌≡◌, ◌≢◌, sym, ◌∙◌, ap, Bool, true, ◌&&◌, none, some, List, [], ◌∷◌, keep, All, inl, inr,
  Option-cases, arith,
}
use aq_trading.Prelude.Dict.{lookup, values}
use aq_trading.Prelude.Dict.Keyed.{
  Distinct, All-map, All-zip, keep-All, keep-Distinct, values-Distinct,
}
use aq_trading.Closing.Types.{RequestStatus, Position, CloseRequest, Store, write_request}
use aq_trading.Closing.Reconciler.{
  is_pending, is_submitted, is_retryable, for_each, write_found, update_position,
}
use aq_trading.Closing.Owned.{
  held_status, Current, IsLive, HeldBy, Holder, IsOwned, Alone, write_request-IsOwned,
  write_both-IsOwned, KeepsOthers, write_both-KeepsOthers, Alone-write,
}
use aq_trading.Closing.Owned.Requests.{owned_position_id}

-- A loop keeps an invariant, if its body keeps it for a row that is good, and keeps the other rows good.
module _ {A : Type 0} (key : A → ℕ) (Inv : Store → Type 0) (Good : A → Store → Type 0)
    (body : A → Store → Store) where
  pub for_each-keeps :
      ((a : A) (s : Store)
        → Inv s
        → Good a s
        → Inv (body a s) × ((b : A) → key b ≢ key a → Good b s → Good b (body a s)))
      → (rows : List A) (s : Store) → Distinct key rows
      → Inv s
      → All (λ a. Good a s) rows
      → Inv (for_each body rows s)
  unfolding for_each
  for_each-keeps step [] s distinct inv good = inv
  for_each-keeps step (a ∷ rows) s (apart, distinct) inv (here, good) =
      let (after, others) = step a s inv here in
      for_each-keeps step rows (body a s) distinct after (
        All-map (λ b. (key b ≢ key a) × Good b s) (λ b. Good b (body a s)) (λ b h. others b h.0 h.1)
          rows (All-zip (λ b. key b ≢ key a) (λ b. Good b s) rows apart good))

-- A request and, if it is there, its position are written together.
module _ (f : Position → Position) (r r' : CloseRequest) where
  pub write-IsOwned :
      (s : Store)
      → IsOwned s
      → Alone r s
      → r'.id ≡ r.id
      → r'.position_id ≡ r.position_id
      → ((p : Position) → (f p).id ≡ p.id)
      → ((p : Position) → lookup r.position_id s.positions ≡ some p → IsLive r' → HeldBy (f p) r')
      → (IsLive r' → Holder s r)
      → IsOwned (update_position f r (write_request r' s))
        × Alone r (update_position f r (write_request r' s))
        × KeepsOthers r s (update_position f r (write_request r' s))
  unfolding update_position write_found
  write-IsOwned s owned alone same_id same_at keeps held own =
      elim (Option-cases (lookup r.position_id s.positions)) [
        | inl missed ↦ rw missed (
          write_request-IsOwned s r' owned (λ live. let h = own live in absurd cc),
          Alone-write s r r' same_id alone,
          write_both-KeepsOthers s r r' same_id,
        )
        | inr (p, found) ↦ rw found (
          write_both-IsOwned s r' (f p) owned
              (λ q current live same. alone q current live (same ∙ same_at) ∙ sym same_id)
              (keeps p ∙ owned_position_id s owned r.position_id p found ∙ sym same_at)
              (held p found),
          Alone-write s r r' same_id alone,
          write_both-KeepsOthers s r r' same_id,
        )
      ]

pub and-left : (a b : Bool) → a && b ≡ true → a ≡ true
and-left a b e = ground arith

pub and-right : (a b : Bool) → a && b ≡ true → b ≡ true
and-right a b e = ground arith

pub is_pending-eq : (st : RequestStatus) → is_pending st ≡ true → st ≡ RequestStatus.pending
unfolding is_pending
is_pending-eq st e = ground arith

pub is_submitted-eq : (st : RequestStatus) → is_submitted st ≡ true → st ≡ RequestStatus.submitted
unfolding is_submitted
is_submitted-eq st e = ground arith

pub is_retryable-eq : (st : RequestStatus) → is_retryable st ≡ true → st ≡ RequestStatus.retryable
unfolding is_retryable
is_retryable-eq st e = ground arith

-- A request of a query on the status, which is current while nothing writes it.
abbrev pub IsRow : RequestStatus → CloseRequest → Store → Type 0
IsRow st r s = Current s r × (r.status ≡ st)

-- A query for requests that includes a test of the status gives rows with that status.
module _ (test : RequestStatus → Bool) (st : RequestStatus)
    (only : (x : RequestStatus) → test x ≡ true → x ≡ st) where
  pub keeps_rows :
      (p : CloseRequest → Bool) (s : Store)
      → IsOwned s
      → ((r : CloseRequest) → p r ≡ true → test r.status ≡ true)
      → All (λ r. IsRow st r s) (keep p (values s.requests))
  keeps_rows p s owned implies =
      All-map (λ r. Current s r × (p r ≡ true)) (λ r. IsRow st r s)
        (λ r h. (h.0, only r.status (implies r h.1))) (keep p (values s.requests))
        (keep-All (λ (r : CloseRequest). r.id) p s.requests owned.1)

pub query-Distinct :
    (p : CloseRequest → Bool) (s : Store)
    → IsOwned s
    → Distinct (λ (r : CloseRequest). r.id) (keep p (values s.requests))
query-Distinct p s owned =
    keep-Distinct (λ (r : CloseRequest). r.id) p (values s.requests)
      (values-Distinct (λ (r : CloseRequest). r.id) s.requests owned.1)

pub row-Holder :
    (st : RequestStatus)
    → held_status st ≢ none
    → (r : CloseRequest) (s : Store) → IsOwned s
    → IsRow st r s
    → Holder s r
row-Holder st live r s owned (current, is_st) =
    owned.2 r current (λ dead. live (sym (ap held_status is_st) ∙ dead))

-- The rows of a loop over requests that changes one request at a time.
abbrev pub Sweep : RequestStatus → (CloseRequest → Store → Store) → Type 0
Sweep st body =
    (r : CloseRequest) (s : Store)
    → IsOwned s
    → IsRow st r s
    → IsOwned (body r s) × KeepsOthers r s (body r s)

pub Sweep-IsOwned :
    (st : RequestStatus) (body : CloseRequest → Store → Store)
    → Sweep st body
    → (rows : List CloseRequest) (s : Store) → Distinct (λ (r : CloseRequest). r.id) rows
    → IsOwned s
    → All (λ r. IsRow st r s) rows
    → IsOwned (for_each body rows s)
Sweep-IsOwned st body step =
    for_each-keeps (λ (r : CloseRequest). r.id) IsOwned (IsRow st) body
      (λ r s owned row.
        let (after, others) = step r s owned row in
        (after, λ q other is. (others q other is.0, is.1)))
