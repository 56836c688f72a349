-- ===== src/Control/Listing.antt =====
-- daemon/src/ControlPlane.cpp: `readOnly`, the requests that are served from the read-only connection.
use a2ad.Common.{
  ℕ, zero, suc, String, Bool, true, false, ◌&&◌, ◌||◌, Option, none, some, List, [], ◌∷◌, ◌==◌,
  string_eq, if◌then◌else◌, str_lt, Dict, lookup,
}
use a2ad.Common.Int.{ℤ, pos, pos_part, ltb_ℤ}
use a2ad.Control.Records.{
  Field, missing, ill_typed, given, After, text, Request, Op, policy_info, execution_list,
  session_list, approval_list, provenance_list, continuation_list, execution_get, session_get,
  audit_verify, Store, Reply, failure,
}
use a2ad.Control.Exit.{
  Exit, next, return, throw, type_error, ◌>>=◌, ◌>>◌, return_if, contains, required,
}
use a2ad.Control.Audit.{Platform, verify}

-- `req.contains(key) && item.value(key, "") != req.at(key).get<std::string>()`, negated.
unfoldable pub matches : Field String → String → Exit Bool
matches missing v = next true
matches ill_typed v = throw type_error
matches (given k) v = next (v == k)

-- The same test as a condition of the SQL query, after its text is bound.
unfoldable pub sql_matches : Field String → String → Bool
sql_matches (given k) v = v == k
sql_matches _ v = true

unfoldable pub bindable : Field String → Exit (Unit {0})
bindable ill_typed = throw type_error
bindable _ = next tt

-- `after`, where a text is asked for.
unfoldable pub after_text : Field After → Exit String
after_text missing = next ""
after_text (given (text k)) = next k
after_text _ = return (failure "invalid_request" "after must be a string and limit must be 1..500")

unfoldable pub page_limit : Field ℤ → Exit ℕ
page_limit missing = next 100
page_limit ill_typed =
    return (failure "invalid_request" "after must be a string and limit must be 1..500")
page_limit (given z) = do
  return_if (ltb_ℤ z (pos 1) || ltb_ℤ (pos 500) z)
      (failure "invalid_request" "after must be a string and limit must be 1..500")
  next (pos_part z)

module _ {V : Type 0} where
  abbrev pub values : Dict V → List V
  values [] = []
  values ((k, v) ∷ rows) = v ∷ values rows

  -- The loop over the rows of one page: the items, and the last key if there are more rows.
  unfoldable pub page_items : ℕ → String → Dict V → List V × Option String
  page_items zero last [] = ([], none)
  page_items zero last (row ∷ rows) = ([], some last)
  page_items (suc n) last [] = ([], none)
  page_items (suc n) last ((k, v) ∷ rows) =
      let (items, cursor) = page_items n k rows in (v ∷ items, cursor)

module _ {V : Type 0} (session_of task_of : V → String) where
  -- The loop that keeps the executions of a session or of a task.
  unfoldable pub filter_items : Request → List V → Exit (List V)
  filter_items req [] = next []
  filter_items req (x ∷ xs) = do
    a ← matches req.session_id (session_of x)
    b ← elim a [ true ↦ matches req.task_id (task_of x) | false ↦ next false ]
    rest ← filter_items req xs
    next (if b then x ∷ rest else rest)

  -- `WHERE kind=? AND id>? … ORDER BY id`
  unfoldable pub select : Request → String → Dict V → Dict V
  select req after [] = []
  select req after ((k, v) ∷ rows) =
      if str_lt after k
        && sql_matches req.session_id (session_of v)
        && sql_matches req.task_id (task_of v)
      then (k, v) ∷ select req after rows
      else select req after rows

  unfoldable pub paged_list : (List V → Option String → Reply) → Request → Dict V → Exit Reply
  paged_list reply req rows = do
    after ← after_text req.after
    limit ← page_limit req.limit
    bindable req.session_id
    bindable req.task_id
    let (items, cursor) = page_items limit "" (select req after rows)
    next (reply items cursor)

  -- Only executions are filtered when the list is not paged.
  unfoldable pub list_op : Bool → (List V → Option String → Reply) → Request → Dict V → Exit Reply
  list_op filtered reply req rows = elim (contains req.limit || contains req.after) [
    | true ↦ paged_list reply req rows
    | false ↦ elim filtered [
      | true ↦ do items ← filter_items req (values rows); next (reply items none)
      | false ↦ next (reply (values rows) none)
    ]
  ]

unfoldable pub found : {V : Type 0} → (V → Reply) → Option V → Exit Reply
found reply none = return (failure "not_found" "record not found")
found reply (some v) = next (reply v)

abbrev pub absent : {V : Type 0} → V → String
absent _ = ""

module _ (p : Platform) where
  -- `none` is the JSON null for an operation that is not read-only.
  unfoldable pub read_only : Op → Request → Store → Option (Exit Reply)
  read_only policy_info req s = some (next (Reply.policy p.enforce))
  read_only execution_list req s =
      some (list_op (λ e. e.session_id) (λ e. e.task_id) true Reply.executions req s.executions)
  read_only session_list req s = some (list_op absent absent false Reply.sessions req s.sessions)
  read_only approval_list req s =
      some (list_op absent (λ a. a.task_id) false Reply.approvals req s.approvals)
  read_only provenance_list req s =
      some (list_op absent absent false Reply.provenances req s.provenances)
  read_only continuation_list req s =
      some (list_op absent (λ c. c.task_id) false Reply.continuations req s.continuations)
  read_only execution_get req s =
      some (do id ← required req.id; found Reply.execution (lookup id s.executions))
  read_only session_get req s =
      some (do id ← required req.id; found Reply.session (lookup id s.sessions))
  read_only audit_verify req s = some (next (verify p s))
  read_only _ req s = none
