-- ===== src/Near/Graph.antt =====
-- receipt.rs: the index of the outcomes, the walk over the reachable receipts and the topological
-- sort of `interpret_final_outcome`. A HashMap of outcomes is the list of its values, the HashSet
-- `visited` a list, and the HashMap of indegrees a function. The loops run on fuel; `none` means
-- that it ran out.
pub mod Counts
pub mod Indexed
pub mod Walk
pub mod Sort
mod Indegrees
pub mod Acyclic
use x402_facilitator.Near.Types.{
  ExecutionStatusView, ExecutionOutcome, Validated, ReceiptValidationError,
}
use x402_facilitator.Prelude.{
  ℕ, zero, suc, ◌+◌, ◌-◌, ◌*◌, ◌≤◌, ◌<◌, ◌≡◌, ◌≢◌, refl, ap, sym, ◌∙◌, Bool, true, false, not, ◌&&◌,
  ◌||◌, Option, none, some, List, [], ◌∷◌, ◌++◌, map, ltb, leb, ◌==◌, if◌then◌else◌, arith, inl,
  inr, ◌⊎◌, ◌↔◌, ok, err, and_then, Outcome, any, filter, length, is_some, Bool-cases, Option-cases,
  if_cases, All,
}

-- `outcomes.get(id)`
unfoldable pub get : ℕ → List ExecutionOutcome → Option ExecutionOutcome
get id [] = none
get id (o ∷ os) = if o.id == id then some o else get id os

-- `visited.contains(id)`
abbrev pub mem : ℕ → List ℕ → Bool
mem a xs = any (λ x. a == x) xs

unfoldable pub index_from :
    List ExecutionOutcome → List ExecutionOutcome → Validated (List ExecutionOutcome)
index_from indexed [] = ok indexed
index_from indexed (o ∷ os) =
    let rest = index_from (o ∷ indexed) os in
    if is_some (get o.id indexed)
    then err ReceiptValidationError.duplicate_receipt_outcome
    else rest

unfoldable pub by_id : List ExecutionOutcome → Validated (List ExecutionOutcome)
by_id outcomes = index_from [] outcomes

abbrev pub execution_failure : ExecutionStatusView → Option ℕ
execution_failure (ExecutionStatusView.failure e) = some e
execution_failure _ = none

abbrev pub is_unknown : ExecutionStatusView → Bool
is_unknown ExecutionStatusView.unknown = true
is_unknown _ = false

-- The checks of the walk on one receipt.
abbrev pub visit_check : ℕ → ExecutionOutcome → Validated (Unit {0})
visit_check token_id receipt = elim (execution_failure receipt.status) [
  | some e ↦ err (ReceiptValidationError.reachable_receipt_failure e)
  | none ↦
      if not (receipt.id == token_id) && is_unknown receipt.status
      then err ReceiptValidationError.incomplete_receipt_graph
      else ok tt
]

abbrev pub lookup_receipt : ℕ → List ExecutionOutcome → Validated ExecutionOutcome
lookup_receipt id outcomes = elim (get id outcomes) [
  | none ↦ err ReceiptValidationError.incomplete_receipt_graph
  | some receipt ↦ ok receipt
]

-- The receipt that the walk visits next, after its checks.
unfoldable pub visited_receipt : List ExecutionOutcome → ℕ → ℕ → Validated ExecutionOutcome
visited_receipt outcomes token_id id =
    and_then (lookup_receipt id outcomes)
      λ receipt. and_then (visit_check token_id receipt) λ _. ok receipt

-- A visited receipt queues its children once, so this many rounds are enough.
unfoldable pub total_children : List ExecutionOutcome → ℕ
total_children [] = 0
total_children (o ∷ os) = length o.receipt_ids + total_children os

unfoldable pub walk_fuel : List ExecutionOutcome → ℕ
walk_fuel outcomes = total_children outcomes + 2

-- The `while let Some(receipt_id) = queue.pop_front()` loop.
unfoldable pub walk : List ExecutionOutcome → ℕ → ℕ → List ℕ → List ℕ → Option (Validated (List ℕ))
walk outcomes token_id zero queue visited = none
walk outcomes token_id (suc fuel) [] visited = some (ok visited)
walk outcomes token_id (suc fuel) (id ∷ queue) visited = elim (mem id visited) [
  | true ↦ walk outcomes token_id fuel queue visited
  | false ↦ elim (visited_receipt outcomes token_id id) [
    | err e ↦ some (err e)
    | ok receipt ↦ walk outcomes token_id fuel (queue ++ receipt.receipt_ids) (id ∷ visited)
  ]
]

-- The HashMap of indegrees.
abbrev pub Indegrees : Type 0
Indegrees = ℕ → Option ℕ

abbrev pub update : Indegrees → ℕ → ℕ → Indegrees
update d c n = λ v. if v == c then some n else d v

-- `if let Some(indegree) = indegrees.get_mut(child_id) { *indegree += 1 }`, for each child.
unfoldable pub count_children : List ℕ → Indegrees → Indegrees
count_children [] d = d
count_children (c ∷ cs) d =
    count_children cs (elim (d c) [ none ↦ d | some n ↦ update d c (n + 1) ])

unfoldable pub count_edges : List ExecutionOutcome → List ℕ → Indegrees → Validated Indegrees
count_edges outcomes [] d = ok d
count_edges outcomes (id ∷ ids) d = elim (lookup_receipt id outcomes) [
  | err e ↦ err e
  | ok receipt ↦ count_edges outcomes ids (count_children receipt.receipt_ids d)
]

abbrev pub zero_indegrees : List ℕ → Indegrees
zero_indegrees visited = λ v. if mem v visited then some 0 else none

unfoldable pub is_root : Indegrees → ℕ → Bool
is_root d v = elim (d v) [ none ↦ false | some n ↦ n == 0 ]

-- The children of a sorted receipt lose one edge; those that have none left become roots.
unfoldable pub release : List ℕ → Indegrees → List ℕ → Indegrees × List ℕ
release [] d roots = (d, roots)
release (c ∷ cs) d roots = elim (d c) [
  | none ↦ release cs d roots
  | some n ↦ release cs (update d c (n - 1)) (if n - 1 == 0 then roots ++ c ∷ [] else roots)
]

-- The `while let Some(receipt_id) = roots.pop_front()` loop, with the count of the sorted receipts.
unfoldable pub sort : List ExecutionOutcome → ℕ → Indegrees → List ℕ → ℕ → Option (Validated ℕ)
sort outcomes zero d roots sorted = none
sort outcomes (suc fuel) d [] sorted = some (ok sorted)
sort outcomes (suc fuel) d (id ∷ roots) sorted = elim (lookup_receipt id outcomes) [
  | err e ↦ some (err e)
  | ok receipt ↦
      let rest = release receipt.receipt_ids d roots in
      sort outcomes fuel rest.0 rest.1 (sorted + 1)
]

-- `if sorted != visited.len()`
abbrev pub counts_agree : Option (Validated ℕ) → ℕ → Option (Validated (Unit {0}))
counts_agree none n = none
counts_agree (some (err e)) n = some (err e)
counts_agree (some (ok sorted)) n =
    if not (sorted == n)
    then some (err ReceiptValidationError.cyclic_receipt_graph)
    else some (ok tt)

-- The indegrees of the visited receipts, their sort, and the comparison of the two counts.
unfoldable pub check_acyclic : List ExecutionOutcome → List ℕ → Option (Validated (Unit {0}))
check_acyclic outcomes visited = elim (count_edges outcomes visited (zero_indegrees visited)) [
  | err e ↦ some (err e)
  | ok d ↦
      counts_agree (sort outcomes (length visited + 1) d (filter (is_root d) visited) 0)
        (length visited)
]
