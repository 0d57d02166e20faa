-- ===== src/Closing/Owned/Updates.antt =====
-- An update of an order keeps each position with the request that owns it, while the order's request is
-- under way.
use aq_trading.Prelude.{
  ℕ, ◌≡◌, refl, sym, ◌∙◌, ap, subst, some_injective, Bool, true, false, not, ◌&&◌, Option, none,
  some, List, keep, inl, inr, Bool-cases, Option-cases, arith,
}
use aq_trading.Prelude.Dict.{lookup, values}
use aq_trading.Prelude.Int.{ℤ, pos, eqb_ℤ}
use aq_trading.Prelude.Table.{Found, missing, one, multiple_results, scalar_one_or_none}
use aq_trading.Closing.Types.{
  open_, closed, close_retryable, RequestStatus, OrderStatus, Position, CloseRequest, OrderRecord,
  Store, remaining_qty, write_order,
}
use aq_trading.Closing.Updates.{
  Update, is_terminal, is_filled, all_orders, sum_filled, update_ended, update_open, settle,
  settle_found, is_for, update_close_request, apply_update, update_found, update_order,
  broker_status_map, has_broker_id, on_order_update,
}
use aq_trading.Closing.Owned.{
  IsLive, Holder, IsOwned, Alone, IsOwned-Alone, write_request-IsOwned, write_both-IsOwned,
}
use aq_trading.Closing.Owned.Requests.{owned_position_id, found-Current}

module _ (now : ℕ) where
  settle-IsOwned :
      (r : CloseRequest) (p : Position) (orders : List OrderRecord) (s : Store)
      → IsOwned s
      → Holder s r
      → lookup r.position_id s.positions ≡ some p
      → IsOwned (settle now r p orders s)
  unfolding settle
  settle-IsOwned r p orders s owned (q, at, held) found =
      elim (Bool-cases (not (all_orders is_terminal orders))) [
        | inl under_way ↦ rw under_way (write_request-IsOwned s r' owned (λ live. (q, at, held)))
        | inr ended ↦
            rw ended
              (elim (Bool-cases (all_orders is_filled orders && eqb_ℤ (remaining_qty r') (pos 0))) [
                | inl all ↦ rw all (
                    write_both-IsOwned s
                      (record r' { status = RequestStatus.completed; completed_at = some now })
                      (record p {
                        status = closed;
                        closed_at = some now;
                        active_close_request_id = none;
                      })
                      owned alone at_id (λ live. absurd (live refl)))
                | inr some_left ↦ rw some_left (elim (Bool-cases (eqb_ℤ r'.filled_qty (pos 0))) [
                  | inl nothing ↦ rw nothing (
                      write_both-IsOwned s
                        (record r' { status = RequestStatus.failed; completed_at = some now })
                        (record p { status = open_; active_close_request_id = none }) owned alone
                        at_id (λ live. absurd (live refl)))
                  | inr part ↦ rw part (
                      write_both-IsOwned s (record r' { status = RequestStatus.retryable })
                        (record p { status = close_retryable }) owned alone at_id
                        (λ live.
                          (ap (λ (p : Position). p.active_close_request_id) same_p ∙ held.0, refl)))
                ])
              ])
      ]
    where
      r' : CloseRequest
      r' = record r { filled_qty = sum_filled orders }

      alone : Alone r s
      alone = IsOwned-Alone s owned r (q, at, held)

      at_id : p.id ≡ r.position_id
      at_id = owned_position_id s owned r.position_id p found

      same_p : p ≡ q
      same_p = some_injective (sym found ∙ at)

  settle_found-IsOwned :
      (id : ℕ) (r : Option CloseRequest) (s : Store)
      → IsOwned s
      → lookup id s.requests ≡ r
      → ((r : CloseRequest) → lookup id s.requests ≡ some r → IsLive r)
      → IsOwned (settle_found now r s)
  unfolding settle_found
  settle_found-IsOwned id none s owned found live = owned
  settle_found-IsOwned id (some r) s owned found live =
      elim (Option-cases (lookup r.position_id s.positions)) [
        | inl missed ↦ rw (settle_found, missed) owned
        | inr (p, at) ↦
            rw (settle_found, at)
              (settle-IsOwned r p (keep (is_for r.id) (values s.orders)) s owned
                (owned.2 r (found-Current s owned id r found) (live r found)) at)
      ]

  -- The request of an order is under way, where it has one.
  abbrev pub HasLive : OrderRecord → Store → Type 0
  HasLive o s =
      (id : ℕ)
      → o.close_request_id ≡ some id
      → (r : CloseRequest) → lookup id s.requests ≡ some r
      → IsLive r

  apply_update-IsOwned :
      (o : OrderRecord) (due : Bool) (s : Store)
      → IsOwned s
      → HasLive o s
      → IsOwned (apply_update now (o, due) s)
  unfolding apply_update update_close_request
  apply_update-IsOwned o false s owned live = owned
  apply_update-IsOwned o true s owned live = go o.close_request_id live
    where
      go :
          (c : Option ℕ)
          → ((id : ℕ) → c ≡ some id → (r : CloseRequest) → lookup id s.requests ≡ some r → IsLive r)
          → IsOwned (update_close_request now c (write_order o s))
      go none live = owned
      go (some id) live =
          settle_found-IsOwned id (lookup id s.requests) (write_order o s) owned refl (live id refl)

  update_order-request :
      (status : OrderStatus) (filled_qty : ℤ) (seq : Option ℤ) (o : OrderRecord)
      → (update_order now status filled_qty seq o).0.close_request_id ≡ o.close_request_id
  unfolding update_order update_ended update_open
  update_order-request status filled_qty seq o = ground arith

  -- The store after an update, where the update does not raise.
  abbrev OwnedAfter : Option Store → Type 0
  OwnedAfter none = Unit
  OwnedAfter (some s) = IsOwned s

  update_found-OwnedAfter :
      (u : Update) (status : Option OrderStatus) (found : Found OrderRecord) (s : Store)
      → IsOwned s
      → ((o : OrderRecord) → found ≡ one o → HasLive o s)
      → OwnedAfter (update_found now u status found s)
  unfolding update_found
  update_found-OwnedAfter u status missing s owned live = owned
  update_found-OwnedAfter u status multiple_results s owned live = tt
  update_found-OwnedAfter u none (one o) s owned live = owned
  update_found-OwnedAfter u (some status) (one o) s owned live =
      let out = update_order now status u.filled_qty u.broker_update_seq o in
      apply_update-IsOwned out.0 out.1 s owned (λ id is.
        live o refl id (sym (update_order-request status u.filled_qty u.broker_update_seq o) ∙ is))

  -- The order of an update belongs to a request that is under way.
  abbrev pub IsTimely : Update → Store → Type 0
  IsTimely u s =
      (o : OrderRecord)
      → scalar_one_or_none (keep (has_broker_id u.broker_order_id) (values s.orders)) ≡ one o
      → HasLive o s

  pub on_order_update-IsOwned :
      (u : Update) (s s' : Store)
      → IsOwned s
      → IsTimely u s
      → on_order_update now u s ≡ some s'
      → IsOwned s'
  unfolding on_order_update
  on_order_update-IsOwned u s s' owned timely e = subst OwnedAfter e (
      update_found-OwnedAfter u (broker_status_map u.broker_status)
        (scalar_one_or_none (keep (has_broker_id u.broker_order_id) (values s.orders))) s owned
        timely)
