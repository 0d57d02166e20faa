-- ===== src/Closing/Request/Replay.antt =====
-- A close request that is sent again is answered from its row.
use aq_trading.Prelude.{
  ℕ, ◌≡◌, inl, inr, refl, sym, ◌∙◌, ap, subst, Bool, Option, none, some, List, [], ◌∷◌, ◌++◌, keep,
  same_or_not, same-eqb, other-eqb, Bool-cases, arith,
}
use aq_trading.Prelude.Dict.{Dict, lookup, insert, values, lookup-insert_same}
use aq_trading.Prelude.Dict.Keyed.{IsKeyed, lookup-key}
use aq_trading.Prelude.Int.{pos, eqb_ℤ}
use aq_trading.Prelude.Table.{Found, missing, one, multiple_results, scalar_one_or_none}
use aq_trading.Closing.Types.{
  PositionStatus, open_, closing, closed, close_retryable, close_failed, Position, CloseRequest,
  Store,
}
use aq_trading.Closing.Request.{
  Accepted, Answer, accepted, same_key, replay, new_request, new_event, create, begin_close,
  close_new, close_found, close_with_key, close_position,
}

values-insert_fresh {ℓ} :
    {V : Type ℓ} (d : Dict V) (k : ℕ) (v : V)
    → lookup k d ≡ none
    → values (insert d k v) ≡ values d ++ (v ∷ [])
values-insert_fresh [] k v fresh = refl
values-insert_fresh ((at, w) ∷ rest) k v fresh = elim (same_or_not at k) [
  | inl same ↦ let here : lookup k ((at, w) ∷ rest) ≡ some w = rw (same-eqb same) refl in absurd cc
  | inr other ↦
      let below : lookup k ((at, w) ∷ rest) ≡ lookup k rest = rw (other-eqb other) refl in
      rw (other-eqb other) (ap (λ vs. w ∷ vs) (values-insert_fresh rest k v (sym below ∙ fresh)))
]

keep-append {ℓ} :
    {A : Type ℓ} (p : A → Bool) (xs ys : List A) → keep p (xs ++ ys) ≡ keep p xs ++ keep p ys
keep-append p [] ys = refl
keep-append p (x ∷ xs) ys = elim (Bool-cases (p x)) [
  | inl kept ↦ rw kept (ap (λ zs. x ∷ zs) (keep-append p xs ys))
  | inr dropped ↦ rw dropped (keep-append p xs ys)
]

missing-nil {ℓ} : {A : Type ℓ} (xs : List A) → scalar_one_or_none xs ≡ missing → xs ≡ []
unfolding scalar_one_or_none
missing-nil [] e = refl
missing-nil (_ ∷ []) e = absurd cc
missing-nil (_ ∷ _ ∷ _) e = absurd cc

module _ (position_id key request_id event_id now : ℕ) where
  -- The row of a new request is the one that its key finds.
  finds_new :
      (s : Store) (p : Position)
      → lookup request_id s.requests ≡ none
      → scalar_one_or_none (keep (same_key position_id key) (values s.requests)) ≡ missing
      → scalar_one_or_none (
          keep
            (same_key position_id key)
            (values (create position_id key request_id event_id now p s).0.requests))
        ≡ one (new_request position_id key request_id event_id now p)
  unfolding scalar_one_or_none create new_request
  finds_new s p fresh missed = ap scalar_one_or_none (
      ap (keep (same_key position_id key)) (values-insert_fresh s.requests request_id r fresh)
      ∙ keep-append (same_key position_id key) (values s.requests) (r ∷ [])
      ∙ only)
    where
      r : CloseRequest
      r = new_request position_id key request_id event_id now p

      only :
          keep (same_key position_id key) (values s.requests)
            ++ keep (same_key position_id key) (r ∷ [])
          ≡ r ∷ []
      only =
          rw
            (
              missing-nil (keep (same_key position_id key) (values s.requests)) missed,
              same-eqb {a = position_id} refl,
              same-eqb {a = key} refl,
            )
            refl

  -- The answer to the first call and that to the second.
  abbrev IsReplayed : Store × Answer → Type 0
  IsReplayed (s, answer) =
      (a : Accepted)
      → answer ≡ accepted a
      → a.status_code ≡ 201
      → (request_id' event_id' now' : ℕ)
      → close_position position_id (some key) request_id' event_id' now' s
        ≡ (s, accepted (record a { status_code = 200 }))

  create-IsReplayed :
      (s : Store) (p : Position)
      → lookup request_id s.requests ≡ none
      → scalar_one_or_none (keep (same_key position_id key) (values s.requests)) ≡ missing
      → p.id ≡ position_id
      → IsReplayed (create position_id key request_id event_id now p s)
  unfolding create new_request new_event close_position close_with_key close_found replay
  create-IsReplayed s p fresh missed same a is_a code request_id' event_id' now' =
      rw
        (
          finds_new s p fresh missed,
          lookup-insert_same s.positions p.id
              (record p { status = closing; active_close_request_id = some request_id }) position_id
              (sym same),
        )
        cc

  begin_close-IsReplayed :
      (st : PositionStatus) (s : Store) (p : Position)
      → lookup request_id s.requests ≡ none
      → scalar_one_or_none (keep (same_key position_id key) (values s.requests)) ≡ missing
      → p.id ≡ position_id
      → IsReplayed (begin_close position_id key request_id event_id now st p s)
  unfolding begin_close
  begin_close-IsReplayed closing s p fresh missed same = λ a is_a. absurd cc
  begin_close-IsReplayed open_ s p fresh missed same =
      elim (Bool-cases (eqb_ℤ p.quantity (pos 0))) [
        | inl zero ↦ rw zero (λ a is_a. absurd cc)
        | inr other ↦ rw other (create-IsReplayed s p fresh missed same)
      ]
  begin_close-IsReplayed closed s p fresh missed same = λ a is_a. absurd cc
  begin_close-IsReplayed close_retryable s p fresh missed same = λ a is_a. absurd cc
  begin_close-IsReplayed close_failed s p fresh missed same = λ a is_a. absurd cc

  close_new-IsReplayed :
      (p : Option Position) (s : Store)
      → lookup request_id s.requests ≡ none
      → scalar_one_or_none (keep (same_key position_id key) (values s.requests)) ≡ missing
      → ((q : Position) → p ≡ some q → q.id ≡ position_id)
      → IsReplayed (close_new position_id key request_id event_id now p s)
  unfolding close_new
  close_new-IsReplayed none s fresh missed same = λ a is_a. absurd cc
  close_new-IsReplayed (some p) s fresh missed same =
      begin_close-IsReplayed p.status s p fresh missed (same p refl)

  close_found-IsReplayed :
      (found : Found CloseRequest) (s : Store)
      → lookup request_id s.requests ≡ none
      → IsKeyed (λ (p : Position). p.id) s.positions
      → scalar_one_or_none (keep (same_key position_id key) (values s.requests)) ≡ found
      → IsReplayed (close_found position_id key request_id event_id now found s)
  unfolding close_found replay
  close_found-IsReplayed missing s fresh keyed e =
      close_new-IsReplayed (lookup position_id s.positions) s fresh e
        (lookup-key (λ (p : Position). p.id) s.positions keyed position_id)
  close_found-IsReplayed (one r) s fresh keyed e = λ a is_a code.
      let codes : 200 ≡ a.status_code = ap code_of is_a in absurd (omega (arith, codes, code))
    where
      code_of : Answer → ℕ
      code_of answer = elim answer [ accepted a ↦ a.status_code | _ ↦ 200 ]
  close_found-IsReplayed multiple_results s fresh keyed e = λ a is_a. absurd cc

-- Where a call of the endpoint with a key has made a request (status 201), on positions keyed by their ids and with a
-- request id that was not in use, each later call for the same position with the same key, on the tables that the
-- first call left, changes nothing and answers as the first one did but for the status 200.
pub close_position_replays :
    (position_id key request_id event_id now : ℕ) (s s' : Store) (a : Accepted)
    → IsKeyed (λ (p : Position). p.id) s.positions
    → lookup request_id s.requests ≡ none
    → close_position position_id (some key) request_id event_id now s ≡ (s', accepted a)
    → a.status_code ≡ 201
    → (request_id' event_id' now' : ℕ)
    → close_position position_id (some key) request_id' event_id' now' s'
      ≡ (s', accepted (record a { status_code = 200 }))
unfolding close_position close_with_key
close_position_replays position_id key request_id event_id now s s' a keyed fresh e =
    subst (IsReplayed position_id key request_id event_id now) e
      (close_found-IsReplayed position_id key request_id event_id now
        (scalar_one_or_none (keep (same_key position_id key) (values s.requests))) s fresh keyed
        refl)
      a refl
