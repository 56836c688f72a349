-- ===== src/Control/Audit/Chain.antt =====
-- `audit.verify` accepts exactly the chains of hashes, and `append` makes a chain longer.
use a2ad.Common.{
  ℕ, suc, ◌+◌, String, ◌≡◌, refl, sym, ◌∙◌, ◌↔◌, List, [], ◌∷◌, ◌++◌, length, length-append,
  string_eq, arith, str_eq_iff,
}
use a2ad.Control.Records.{Event, Row, Store, audit}
use a2ad.Control.Audit.{
  Platform, Env, link_hash, last_hash, new_row, append_row, append, verify_from, verify,
}

module _ (p : Platform) where
  -- Each row holds the hash of the row before it, and its own hash is that of its link.
  abbrev pub IsChain : String → List Row → Type 0
  IsChain previous [] = Unit
  IsChain previous (row ∷ rows) =
      (previous ≡ row.previous_hash)
      × (link_hash p previous row.time row.body ≡ row.hash)
      × IsChain row.hash rows

  pub verify_from_complete :
      (previous : String) (count : ℕ) (rows : List Row)
      → IsChain previous rows
      → verify_from p previous count rows ≡ audit (count + length rows) (last_hash p previous rows)
  unfolding verify_from last_hash
  verify_from_complete previous count [] h = ground arith
  verify_from_complete previous count (row ∷ rows) h = ground (
    arith,
    str_eq_iff previous row.previous_hash,
    str_eq_iff (link_hash p previous row.time row.body) row.hash,
    verify_from_complete row.hash (suc count) rows,
  )

  pub verify_from_sound :
      (previous : String) (count : ℕ) (rows : List Row) (n : ℕ) (head : String)
      → verify_from p previous count rows ≡ audit n head
      → IsChain previous rows
  unfolding verify_from
  verify_from_sound previous count [] n head h = tt
  verify_from_sound previous count (row ∷ rows) n head h = ground (
    arith,
    str_eq_iff previous row.previous_hash,
    str_eq_iff (link_hash p previous row.time row.body) row.hash,
    verify_from_sound row.hash (suc count) rows n head,
  )

  pub append_row-IsChain :
      (previous : String) (rows : List Row) (row : Row)
      → IsChain previous rows
      → row.previous_hash ≡ last_hash p previous rows
      → row.hash ≡ link_hash p (last_hash p previous rows) row.time row.body
      → IsChain previous (rows ++ row ∷ [])
  unfolding last_hash
  append_row-IsChain previous [] row h e f = (sym e, sym f, tt)
  append_row-IsChain previous (r ∷ rows) row h e f =
      (h.0, h.1, append_row-IsChain r.hash rows row h.2 e f)

  pub append-IsChain :
      (env : Env) (event : Event) (s : Store)
      → IsChain "" s.events
      → IsChain "" (append p env event s).events
  unfolding append append_row new_row
  append-IsChain env event s h =
      append_row-IsChain "" s.events (new_row p env event s.events) h refl refl

  last_hash-append :
      (previous : String) (rows : List Row) (row : Row)
      → last_hash p previous (rows ++ row ∷ []) ≡ row.hash
  unfolding last_hash
  last_hash-append previous [] row = refl
  last_hash-append previous (r ∷ rows) row = last_hash-append r.hash rows row

  -- `audit.verify` answers with a count and a head exactly when the log is a chain of hashes from
  -- the empty text: it then reports the number of rows and the hash of the last one.
  pub verify_iff :
      (s : Store) (n : ℕ) (head : String)
      → (verify p s ≡ audit n head)
        ↔ (IsChain "" s.events × (n ≡ length s.events) × (head ≡ last_hash p "" s.events))
  unfolding verify
  verify_iff s n head = (
    (λ h.
        let chain = verify_from_sound "" 0 s.events n head h in
        (
          chain,
          ground (arith, verify_from_complete "" 0 s.events chain, h),
          ground (arith, verify_from_complete "" 0 s.events chain, h),
        )),
    (λ h. verify_from_complete "" 0 s.events h.0 ∙ ground (arith, h.1, h.2)),
  )

  -- An appended event keeps an accepted log accepted: the count goes up by one, and the new head is
  -- the hash of the old head, the time and the event.
  pub append-verify :
      (env : Env) (event : Event) (s : Store) (n : ℕ) (head : String)
      → verify p s ≡ audit n head
      → verify p (append p env event s)
        ≡ audit (n + 1) (link_hash p head env.now (p.dump_event event))
  unfolding append append_row new_row
  append-verify env event s n head h =
      let (chain, count, last) = (verify_iff s n head).0 h in
      (verify_iff (append p env event s) (n + 1) (link_hash p head env.now (p.dump_event event))).1
        (
          append-IsChain env event s chain,
          omega (arith, length-append s.events (new_row p env event s.events ∷ [])),
          rw last (sym (last_hash-append "" s.events (new_row p env event s.events))),
        )
