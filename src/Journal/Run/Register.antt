-- ===== src/Journal/Run/Register.antt =====
-- store.rs, what the journal promises of payments: an abstract register in which a settlement is
-- accepted once for a payment that no other settlement has, and settled once.
use x402_facilitator.Prelude.{
  ◌≡◌, ◌≢◌, refl, ap, sym, ◌∙◌, true, false, Option, none, some, List, [], ◌∷◌, ◌++◌, ◌==◌,
  if◌then◌else◌, arith, inl, inr, Bool-cases, Option-cases,
}
use x402_facilitator.Journal.Types.{
  Uuid, Hash, SettlementState, is_terminal, TerminalResult, SettlementIdentity, SettlementRecord,
}
use x402_facilitator.Journal.Tables.{Collation, Constraint, Db, find_row, replace_row, clashes}
use x402_facilitator.Journal.Rows.{find_row-id, find_row-append, find_row-replace_row}
use x402_facilitator.Journal.Claim.{new_row}
use x402_facilitator.Journal.Effects.{Effect}
use x402_facilitator.Journal.Accounting.Steps.{Move-columns, Amend-columns}
use x402_facilitator.Journal.Exclusive.{IsAlone, violation-none}
use x402_facilitator.Journal.Exclusive.Apart.{any-find_row}
use x402_facilitator.Journal.Lifecycle.{Evolves, Move-Evolves, Amend-Evolves}
use x402_facilitator.Journal.Run.{
  Op, apply, run, apply-Effect, apply-IsSound, run-IsSound, empty, empty-IsSound, IsSound,
}
use x402_facilitator.Journal.Run.Safety.{after}

-- An outcome with the response that is kept for replays.
pub record Answer : Type 0 where
  pub state : SettlementState
  pub response : Option TerminalResult

-- A payment in the register: open until it is answered.
pub record Payment : Type 0 where
  pub hash : Hash
  pub answer : Option Answer

abbrev pub Register : Type 0
Register = Uuid → Option Payment

-- One step of the register, which touches at most one settlement.
pub data Step (m m' : Register) : Type 0 where
  stay : ((j : Uuid) → m' j ≡ m j) → Step m m'
  accept :
      (i : Uuid) (h : Hash)
      → m i ≡ none
      → ((j : Uuid) (q : Payment) → m j ≡ some q → q.hash ≢ h)
      → m' i ≡ some (record { hash = h; answer = none })
      → ((j : Uuid) → (i == j) ≡ false → m' j ≡ m j)
      → Step m m'
  settle :
      (i : Uuid) (h : Hash) (a : Answer)
      → m i ≡ some (record { hash = h; answer = none })
      → is_terminal a.state ≡ true
      → m' i ≡ some (record { hash = h; answer = some a })
      → ((j : Uuid) → (i == j) ≡ false → m' j ≡ m j)
      → Step m m'

-- Any number of steps.
pub data Reaches : Register → Register → Type 0 where
  start : {m : Register} → Reaches m m
  next : {m m' m'' : Register} → Step m m' → Reaches m' m'' → Reaches m m''

abbrev payment : SettlementRecord → Payment
payment r = record {
  hash = r.payment_hash;
  answer =
      if is_terminal r.state
      then some (record { state = r.state; response = r.terminal })
      else none;
}

abbrev answered : Hash → Option Answer → Payment
answered h a = record { hash = h; answer = a }

abbrev entry : Option SettlementRecord → Option Payment
entry none = none
entry (some r) = some (payment r)

-- What the rows say of the payments: everything else is forgotten.
abbrev pub register : List SettlementRecord → Register
register rows j = entry (find_row j rows)

entry-hash :
    (o : Option SettlementRecord) (q : Payment)
    → entry o ≡ some q
    → (r : SettlementRecord) × (o ≡ some r) × (r.payment_hash ≡ q.hash)
entry-hash none q h = ground arith
entry-hash (some r) q h = (r, refl, ground arith)

payment-open :
    (r : SettlementRecord)
    → is_terminal r.state ≡ false
    → payment r ≡ record { hash = r.payment_hash; answer = none }
payment-open r o = rw o refl

payment-closed :
    (r : SettlementRecord)
    → is_terminal r.state ≡ true
    → payment r ≡ record {
      hash = r.payment_hash;
      answer = some (record { state = r.state; response = r.terminal });
    }
payment-closed r o = rw o refl

-- A row whose primary key meets no other was not there.
alone_missing :
    (c : Collation) (new : SettlementRecord) (rows : List SettlementRecord)
    → IsAlone c new rows
    → find_row new.id rows ≡ none
unfolding clashes
alone_missing c new rows a = elim (Option-cases (find_row new.id rows)) [
  | inl e ↦ e
  | inr (r, e) ↦
      let k =
        any-find_row (clashes c Constraint.primary_key new) new.id rows r (a Constraint.primary_key)
          e in
      let i = find_row-id new.id rows r e in absurd (ground (arith, k, i))
]

alone_fresh :
    (c : Collation) (new : SettlementRecord) (rows : List SettlementRecord) (j : Uuid) (q : Payment)
    → IsAlone c new rows
    → register rows j ≡ some q
    → q.hash ≢ new.payment_hash
unfolding clashes
alone_fresh c new rows j q a h e =
    let (r, f, p) = entry-hash (find_row j rows) q h in
    let k =
      any-find_row (clashes c Constraint.payment_hash_key new) j rows r
        (a Constraint.payment_hash_key) f in
    absurd (ground (arith, k, p, e))

-- A row that is added alone is a payment accepted.
append-Step :
    (c : Collation) (new : SettlementRecord) (rows : List SettlementRecord)
    → IsAlone c new rows
    → is_terminal new.state ≡ false
    → Step (register rows) (register (rows ++ new ∷ []))
append-Step c new rows a o =
    let missing = alone_missing c new rows a in
    let here : find_row new.id (rows ++ new ∷ []) ≡ some new =
      ground (arith, find_row-append new.id rows new) in
    Step.accept new.id new.payment_hash (ap entry missing) (λ j q h. alone_fresh c new rows j q a h)
      (ap entry here ∙ ap some (payment-open new o))
      (λ j n.
        let there : find_row j (rows ++ new ∷ []) ≡ find_row j rows =
          elim (Option-cases (find_row j rows)) [
            | inl e ↦ ground (arith, find_row-append j rows new)
            | inr (r, e) ↦ ground (arith, find_row-append j rows new)
          ] in
        ap entry there)

-- A row that is replaced by what it develops into is a payment left alone, or settled.
replace-Step :
    (id : Uuid) (r r' : SettlementRecord) (rows : List SettlementRecord)
    → find_row id rows ≡ some r
    → r'.columns ≡ r.columns
    → Evolves r r'
    → Step (register rows) (register (replace_row id r' rows))
replace-Step id r r' rows f e v =
    let same : r'.id ≡ id = ap (λ (x : SettlementIdentity). x.id) e ∙ find_row-id id rows r f in
    let hash : r'.payment_hash ≡ r.payment_hash =
      ap (λ (x : SettlementIdentity). x.payment_hash) e in
    let here : find_row id (replace_row id r' rows) ≡ some r' =
      ground (arith, find_row-replace_row id id r' rows r f same) in
    let others : (j : Uuid)
        → (id == j) ≡ false
        → register (replace_row id r' rows) j ≡ register rows j =
      λ j n.
        let there : find_row j (replace_row id r' rows) ≡ find_row j rows =
          ground (arith, find_row-replace_row id j r' rows r f same) in
        ap entry there in
    let kept : payment r' ≡ payment r
        → (j : Uuid) → register (replace_row id r' rows) j ≡ register rows j =
      λ p j. elim (Bool-cases (id == j)) [
        | inl hit ↦
            let i : id ≡ j = ground arith in
            ap (register (replace_row id r' rows)) (sym i)
            ∙ ap entry here
            ∙ ap some p
            ∙ sym (ap entry f)
            ∙ ap (register rows) i
        | inr miss ↦ others j miss
      ] in
    elim (Bool-cases (is_terminal r.state)) [
      | inl t ↦ let (s, p) = v.final t in Step.stay (kept (ground arith))
      | inr o ↦ elim (Bool-cases (is_terminal r'.state)) [
        | inl t ↦
            Step.settle id r.payment_hash (record { state = r'.state; response = r'.terminal })
              (ap entry f ∙ ap some (payment-open r o)) t
              (ap entry here
                ∙ ap some (payment-closed r' t)
                ∙ ap
                    (λ (x : Hash).
                      some
                        (answered x (some (record { state = r'.state; response = r'.terminal }))))
                    hash)
              others
        | inr n ↦ Step.stay (
            kept (
              payment-open r' n ∙ ap (λ (x : Hash). answered x none) hash ∙ sym (payment-open r o)))
      ]
    ]

Effect-Step :
    (c : Collation) (db db' : Db)
    → IsSound c db
    → Effect c db db'
    → Step (register db.rows) (register db'.rows)
unfolding is_terminal
Effect-Step c db db' h (Effect.unchanged e) = Step.stay (λ j. rw e refl)
Effect-Step c db db' h (Effect.claimed n today b code v p e) =
    let (_, a) = violation-none c (new_row n today) db.rows v in
    rw e (append-Step c (new_row n today) db.rows a refl)
Effect-Step c db db' h (Effect.moved id r r' b code f v m e) = rw e (
    replace-Step id r r' db.rows f (Move-columns r r' _ b m)
      (Move-Evolves r r' (h.clean id r f) m).0)
Effect-Step c db db' h (Effect.amended id r r' f v m e) = rw e (
    replace-Step id r r' db.rows f (Amend-columns r r' m) (Amend-Evolves r r' (h.clean id r f) m).0)

run_sound-Reaches :
    (c : Collation) (ops : List Op) (db : Db)
    → IsSound c db
    → Reaches (register db.rows) (register (run c ops db).rows)
unfolding run
run_sound-Reaches c [] db h = Reaches.start
run_sound-Reaches c (o ∷ ops) db h =
    Reaches.next (Effect-Step c db (apply c o db) h (apply-Effect c o db))
      (run_sound-Reaches c ops (apply c o db) (apply-IsSound c o db h))

-- The journal refines the register: between two points of any sequence of journal operations, the
-- payments the rows stand for change by steps of the register only, each of which leaves all as it
-- is, accepts one unknown settlement for a payment no settlement has, or settles one open payment.
pub run-Reaches :
    (c : Collation) (ops more : List Op)
    → Reaches (register (after c ops).rows) (register (run c more (after c ops)).rows)
run-Reaches c ops more =
    run_sound-Reaches c more (after c ops) (run-IsSound c ops empty (empty-IsSound c))
