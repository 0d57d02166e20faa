-- ===== src/Audit/Tests.antt =====
-- A digest without collisions, and chains at it.
use aq_trading.Prelude.{
  ℕ, zero, suc, ◌+◌, ◌*◌, ◌≡◌, ◌≢◌, refl, ap, Option, none, some, List, [], ◌∷◌, arith,
}
use aq_trading.Audit.Chain.{
  text, Json, json_null, json_text, verify_chain_integrity, persist_audit_event,
}
use aq_trading.Audit.Chain.Verified.{IsInjective}
use aq_trading.Audit.Chain.Persisted.{Entry, no_rows, persist_all, persisted_never_verifies}

-- Two numbers as one.
pair : ℕ → ℕ → ℕ
pair zero b = 2 * b + 1
pair (suc a) b = 2 * pair a b

pair_injective : (a a' b b' : ℕ) → pair a b ≡ pair a' b' → (a ≡ a') × (b ≡ b')
unfolding pair
pair_injective zero zero b b' e = (refl, omega (arith, e))
pair_injective zero (suc a') b b' e = absurd (omega (arith, e))
pair_injective (suc a) zero b b' e = absurd (omega (arith, e))
pair_injective (suc a) (suc a') b b' e =
    let (same, below) = pair_injective a a' b b' (omega (arith, e)) in (ap suc same, below)

json_code : Json → ℕ
json_code json_null = 0
json_code (json_text t) = suc t

json_code_injective : (v w : Json) → json_code v ≡ json_code w → v ≡ w
unfolding json_code
json_code_injective json_null json_null e = refl
json_code_injective json_null (json_text u) e = absurd (omega (arith, e))
json_code_injective (json_text t) json_null e = absurd (omega (arith, e))
json_code_injective (json_text t) (json_text u) e = ap json_text (omega (arith, e))

list_code : List Json → ℕ
list_code [] = 0
list_code (v ∷ rest) = suc (pair (json_code v) (list_code rest))

list_code_injective : (vs ws : List Json) → list_code vs ≡ list_code ws → vs ≡ ws
unfolding list_code
list_code_injective [] [] e = refl
list_code_injective [] (_ ∷ _) e = absurd (omega (arith, e))
list_code_injective (_ ∷ _) [] e = absurd (omega (arith, e))
list_code_injective (v ∷ vs) (w ∷ ws) e =
    let (here, below) =
      pair_injective (json_code v) (json_code w) (list_code vs) (list_code ws) (omega (arith, e)) in
    let same = json_code_injective v w here in let rest = list_code_injective vs ws below in cc

prev_code : Option ℕ → ℕ
prev_code none = 0
prev_code (some c) = suc c

prev_code_injective : (p q : Option ℕ) → prev_code p ≡ prev_code q → p ≡ q
unfolding prev_code
prev_code_injective none none e = refl
prev_code_injective none (some d) e = absurd (omega (arith, e))
prev_code_injective (some c) none e = absurd (omega (arith, e))
prev_code_injective (some c) (some d) e = ap some (omega (arith, e))

digest : List Json → ℕ → Option ℕ → ℕ
digest vs id prev = pair (list_code vs) (pair id (prev_code prev))

abbrev same : ℕ → ℕ
same n = n

digest-IsInjective : IsInjective same same same digest
unfolding digest
digest-IsInjective vs ws id id' prev prev' e =
    let (lists, rest) =
      pair_injective (list_code vs) (list_code ws) (pair id (prev_code prev))
        (pair id' (prev_code prev')) e in
    let (ids, prevs) = pair_injective id id' (prev_code prev) (prev_code prev') rest in
    (list_code_injective vs ws lists, ids, prev_code_injective prev prev' prevs)

abbrev an_entry : Entry
an_entry = record { id = 3; rest = λ field. text 4; chain_key = 7 }

abbrev two_entries : List Entry
two_entries = an_entry ∷ an_entry ∷ []

cons_ne_nil : {A : Type 0} {a : A} {rest : List A} → a ∷ rest ≢ []
cons_ne_nil e = absurd cc

persisted_never_verifies_example :
    verify_chain_integrity same same same digest
      (λ v. v)
      7
      100
      (persist_all same same same digest two_entries no_rows)
    ≢ some []
unfolding persist_all digest persist_audit_event
persisted_never_verifies_example =
    persisted_never_verifies same same same digest (λ v. v) digest-IsInjective two_entries 7 99
      cons_ne_nil
