-- ===== src/Closing/Owned/Requests.antt =====
-- The endpoint, the worker and the order updates keep each position with the request that owns it.
use aq_trading.Prelude.{
  ℕ, ◌+◌, ◌≡◌, ◌≢◌, ◌⊎◌, inl, inr, refl, sym, ◌∙◌, ap, subst, some_injective, ◌||◌, Option, none,
  some, keep, leb, Bool-cases, Option-cases,
}
use aq_trading.Prelude.Dict.{lookup, values}
use aq_trading.Prelude.Dict.Keyed.{lookup-key}
use aq_trading.Prelude.Int.{ℤ, pos, eqb_ℤ, leb_ℤ}
use aq_trading.Prelude.Table.{Found, missing, one, multiple_results, scalar_one_or_none}
use aq_trading.Closing.Types.{
  PositionStatus, open_, closing, closed, close_retryable, close_failed, RequestStatus, Position,
  CloseRequest, OutboxEvent, Store,
}
use aq_trading.Closing.Request.{
  same_key, begin_close, close_new, close_found, close_with_key, close_position, create,
  new_request, new_event,
}
use aq_trading.Closing.Outbox.{
  Quote, Submission, taken, refused, submit_raised, WorkerError, max_retries, limit_price,
  fail_position, fail_request, after_submission, submit_at, submit_quoted, submit_pending,
  submit_request, handle_submit_close_order, handle_failure, finish_event, process_event,
}
use aq_trading.Closing.Owned.{
  Current, held_status, Holder, IsOwned, Alone, IsOwned-Alone, held_status-open,
  write_request-IsOwned, write_both-IsOwned,
}

pub owned_position_id :
    (s : Store) → IsOwned s → (k : ℕ) (p : Position) → lookup k s.positions ≡ some p → p.id ≡ k
owned_position_id s owned k p found =
    lookup-key (λ (p : Position). p.id) s.positions owned.0 k p found

pub owned_request_id :
    (s : Store) → IsOwned s → (k : ℕ) (r : CloseRequest) → lookup k s.requests ≡ some r → r.id ≡ k
owned_request_id s owned k r found =
    lookup-key (λ (r : CloseRequest). r.id) s.requests owned.1 k r found

pub found-Current :
    (s : Store)
    → IsOwned s
    → (k : ℕ) (r : CloseRequest) → lookup k s.requests ≡ some r
    → Current s r
found-Current s owned k r found =
    ap (λ k. lookup k s.requests) (owned_request_id s owned k r found) ∙ found

module _ (position_id key request_id event_id now : ℕ) where
  open-Alone :
      (s : Store) (p : Position)
      → IsOwned s
      → lookup position_id s.positions ≡ some p
      → p.status ≡ open_
      → Alone (new_request position_id key request_id event_id now p) s
  unfolding new_request
  open-Alone s p owned found is_open q current live same =
      let (p', at, held) = owned.2 q current live in
      let same_p : p' ≡ p = some_injective (sym at ∙ ap (λ k. lookup k s.positions) same ∙ found) in
      absurd (
        held_status-open q.status
          (ap some (sym is_open ∙ sym (ap (λ (p : Position). p.status) same_p)) ∙ held.1))

  create-IsOwned :
      (s : Store) (p : Position)
      → IsOwned s
      → lookup position_id s.positions ≡ some p
      → p.status ≡ open_
      → IsOwned (create position_id key request_id event_id now p s).0
  unfolding create new_request new_event
  create-IsOwned s p owned found is_open =
      write_both-IsOwned s (new_request position_id key request_id event_id now p)
        (record p { status = closing; active_close_request_id = some request_id }) owned
        (open-Alone s p owned found is_open) (owned_position_id s owned position_id p found)
        (λ live. (refl, refl))

  begin_close-IsOwned :
      (st : PositionStatus) (s : Store) (p : Position)
      → IsOwned s
      → lookup position_id s.positions ≡ some p
      → p.status ≡ st
      → IsOwned (begin_close position_id key request_id event_id now st p s).0
  unfolding begin_close
  begin_close-IsOwned closing s p owned found e = owned
  begin_close-IsOwned open_ s p owned found e = elim (Bool-cases (eqb_ℤ p.quantity (pos 0))) [
    | inl zero ↦ rw zero owned
    | inr other ↦ rw other (create-IsOwned s p owned found e)
  ]
  begin_close-IsOwned closed s p owned found e = owned
  begin_close-IsOwned close_retryable s p owned found e = owned
  begin_close-IsOwned close_failed s p owned found e = owned

  close_new-IsOwned :
      (p : Option Position) (s : Store)
      → IsOwned s
      → lookup position_id s.positions ≡ p
      → IsOwned (close_new position_id key request_id event_id now p s).0
  unfolding close_new
  close_new-IsOwned none s owned found = owned
  close_new-IsOwned (some p) s owned found = begin_close-IsOwned p.status s p owned found refl

  close_found-IsOwned :
      (r : Found CloseRequest) (s : Store)
      → IsOwned s
      → IsOwned (close_found position_id key request_id event_id now r s).0
  unfolding close_found
  close_found-IsOwned missing s owned =
      close_new-IsOwned (lookup position_id s.positions) s owned refl
  close_found-IsOwned (one r) s owned = owned
  close_found-IsOwned multiple_results s owned = owned

pub close_position-IsOwned :
    (position_id : ℕ) (key : Option ℕ) (request_id event_id now : ℕ) (s : Store)
    → IsOwned s
    → IsOwned (close_position position_id key request_id event_id now s).0
unfolding close_position close_with_key
close_position-IsOwned position_id none request_id event_id now s owned = owned
close_position-IsOwned position_id (some key) request_id event_id now s owned =
    close_found-IsOwned position_id key request_id event_id now
      (scalar_one_or_none (keep (same_key position_id key) (values s.requests))) s owned

pub fail_request-IsOwned :
    (cent : ℤ) (now : ℕ) (r : CloseRequest) (s : Store)
    → IsOwned s
    → Alone r s
    → IsOwned (fail_request cent now r s)
unfolding fail_request fail_position
fail_request-IsOwned cent now r s owned alone =
    elim (Option-cases (lookup r.position_id s.positions)) [
      | inl missed ↦ rw missed (write_request-IsOwned s ended owned (λ live. absurd (live refl)))
      | inr (p, found) ↦ rw found (
          write_both-IsOwned s ended
            (record p { status = close_failed; active_close_request_id = none }) owned alone
            (owned_position_id s owned r.position_id p found) (λ live. absurd (live refl)))
    ]
  where
    ended : CloseRequest
    ended = record r { status = RequestStatus.failed; completed_at = some now }

some_ne_none {ℓ} : {A : Type ℓ} {a : A} → some a ≢ none
some_ne_none e = absurd cc

-- A position that an event's request holds.
abbrev pub IsReady : OutboxEvent → Store → Type 0
IsReady e s = (r : CloseRequest) → lookup e.close_request_id s.requests ≡ some r → Holder s r

-- What the submission of an event's order leaves.
abbrev IsSubmitted : OutboxEvent → Store × Option WorkerError → Type 0
IsSubmitted e (s, error) = IsOwned s × ((error ≡ none) ⊎ IsReady e s)

module _ (cent : ℤ) (quote : Option Quote) (submit : ℤ → Submission) (now : ℕ) where
  module _ (e : OutboxEvent) (r : CloseRequest) (s : Store) where
    after_submission-IsSubmitted :
        (answer : Submission)
        → IsOwned s
        → Holder s r
        → r.status ≡ RequestStatus.pending
        → IsReady e s
        → IsSubmitted e (after_submission cent now r answer s)
    unfolding after_submission
    after_submission-IsSubmitted submit_raised owned (p, at, held) pending ready =
        (owned, inr ready)
    after_submission-IsSubmitted refused owned holder pending ready =
        (fail_request-IsOwned cent now r s owned (IsOwned-Alone s owned r holder), inl refl)
    after_submission-IsSubmitted taken owned (p, at, held) pending ready = (
      write_request-IsOwned s
          (record r { status = RequestStatus.submitted; submitted_at = some now }) owned
          (λ live. (p, at, (held.0, held.1 ∙ ap held_status pending))),
      inl refl,
    )

    submit_at-IsSubmitted :
        (price : Option ℤ)
        → IsOwned s
        → Holder s r
        → r.status ≡ RequestStatus.pending
        → IsReady e s
        → IsSubmitted e (submit_at cent quote submit now r price s)
    unfolding submit_at
    submit_at-IsSubmitted none owned holder pending ready = (owned, inr ready)
    submit_at-IsSubmitted (some price) owned holder pending ready =
        after_submission-IsSubmitted (submit price) owned holder pending ready

    submit_quoted-IsSubmitted :
        (q : Option Quote)
        → IsOwned s
        → Holder s r
        → r.status ≡ RequestStatus.pending
        → IsReady e s
        → IsSubmitted e (submit_quoted cent quote submit now e r q s)
    unfolding submit_quoted
    submit_quoted-IsSubmitted none owned holder pending ready = (owned, inr ready)
    submit_quoted-IsSubmitted (some q) owned holder pending ready =
        elim (Bool-cases (leb_ℤ q.bid (pos 0) || leb_ℤ q.ask (pos 0))) [
          | inl bad ↦ rw bad (owned, inr ready)
          | inr good ↦
              rw good (submit_at-IsSubmitted (limit_price cent e.side q) owned holder pending ready)
        ]

    submit_pending-IsSubmitted :
        (st : RequestStatus)
        → r.status ≡ st
        → IsOwned s
        → lookup e.close_request_id s.requests ≡ some r
        → IsSubmitted e (submit_pending cent quote submit now e st r s)
    unfolding submit_pending
    submit_pending-IsSubmitted RequestStatus.pending is_st owned found =
        submit_quoted-IsSubmitted quote owned holder is_st
          (λ q at. subst (λ q. Holder s q) (some_injective (sym found ∙ at)) holder)
      where
        holder : Holder s r
        holder =
            owned.2 r (found-Current s owned e.close_request_id r found)
              (λ dead. absurd (some_ne_none (sym (ap held_status is_st) ∙ dead)))
    submit_pending-IsSubmitted RequestStatus.submitted is_st owned found = (owned, inl refl)
    submit_pending-IsSubmitted RequestStatus.completed is_st owned found = (owned, inl refl)
    submit_pending-IsSubmitted RequestStatus.retryable is_st owned found = (owned, inl refl)
    submit_pending-IsSubmitted RequestStatus.failed is_st owned found = (owned, inl refl)

  submit_request-IsSubmitted :
      (e : OutboxEvent) (r : Option CloseRequest) (s : Store)
      → IsOwned s
      → lookup e.close_request_id s.requests ≡ r
      → IsSubmitted e (submit_request cent quote submit now e r s)
  unfolding submit_request
  submit_request-IsSubmitted e none s owned found = (owned, inl refl)
  submit_request-IsSubmitted e (some r) s owned found =
      submit_pending-IsSubmitted e r s r.status refl owned found

  handle_failure-IsOwned :
      (e : OutboxEvent) (r : Option CloseRequest) (s : Store)
      → IsOwned s
      → lookup e.close_request_id s.requests ≡ r
      → IsReady e s
      → IsOwned (handle_failure cent quote submit now r s)
  unfolding handle_failure
  handle_failure-IsOwned e none s owned found ready = owned
  handle_failure-IsOwned e (some r) s owned found ready =
      fail_request-IsOwned cent now r s owned (IsOwned-Alone s owned r (ready r found))

  finish_event-IsOwned :
      (e : OutboxEvent) (error : Option WorkerError) (s : Store)
      → IsSubmitted e (s, error)
      → IsOwned (finish_event cent quote submit now e error s)
  unfolding finish_event
  finish_event-IsOwned e none s (owned, ready) = owned
  finish_event-IsOwned e (some error) s (owned, inl no_error) = absurd (some_ne_none no_error)
  finish_event-IsOwned e (some error) s (owned, inr ready) =
      elim (Bool-cases (leb max_retries (e.retry_count + 1))) [
        | inl last ↦
            rw last
              (handle_failure-IsOwned e (lookup e.close_request_id s.requests) s owned refl ready)
        | inr again ↦ rw again owned
      ]

  pub process_event-IsOwned :
      (e : OutboxEvent) (s : Store)
      → IsOwned s
      → IsOwned (process_event cent quote submit now e s).0
  unfolding process_event handle_submit_close_order
  process_event-IsOwned e s owned =
      let out = submit_request cent quote submit now e (lookup e.close_request_id s.requests) s in
      finish_event-IsOwned e out.1 out.0
        (submit_request-IsSubmitted e (lookup e.close_request_id s.requests) s owned refl)
