-- ===== src/Capture/Outbox/Enqueued.antt =====
-- capture/dispatcher.py: the intention to process a session, stored once.
use pages_to_rgb.Prelude.{
  ℕ, String, ◌≡◌, ◌≤◌, refl, true, false, some, inl, inr, List, [], ◌∷◌, ◌++◌, find?, count,
  find?-append_none, find?-none-count, count-append, Option-cases, ==_refl, ◌∙◌, arith,
}
use pages_to_rgb.Common.Exec.{Result, ok}
use pages_to_rgb.Capture.Outbox.{intent_of, new_intent, enqueue_row, enqueue_workflow_intent}
use pages_to_rgb.Db.{Db, WorkflowOutbox}

new_intent-found :
    (session_id : ℕ) (public_id : String)
    → intent_of session_id (new_intent session_id public_id) ≡ true
unfolding new_intent
new_intent-found session_id public_id = ==_refl session_id

-- The row of the session is there, whether it was there before or not, and nothing else changes.
abbrev pub Enqueued : ℕ → Db → Result WorkflowOutbox × Db → Type 0
Enqueued session_id db out =
    (row : WorkflowOutbox) × (outbox : List WorkflowOutbox) × (out
      ≡ (ok row, record db { outbox = outbox }))
    × (find? (intent_of session_id) outbox ≡ some row)
    × ((find? (intent_of session_id) db.outbox ≡ some row) → outbox ≡ db.outbox)
    × ((count (intent_of session_id) db.outbox ≤ 1) → count (intent_of session_id) outbox ≤ 1)

pub enqueue-Enqueued :
    (session_id : ℕ) (public_id : String) (db : Db)
    → Enqueued session_id db (enqueue_workflow_intent false session_id public_id db)
unfolding enqueue_workflow_intent enqueue_row
enqueue-Enqueued session_id public_id db =
    let q = intent_of session_id in
    let new = new_intent session_id public_id in
    elim (Option-cases (find? q db.outbox)) [
      | inl e ↦ (
        new,
        db.outbox ++ new ∷ [],
        rw e refl,
        find?-append_none q db.outbox (new ∷ []) e
            ∙ rw (new_intent-found session_id public_id) refl,
        λ f. cc (e, f),
        λ _.
            (let zero_there = find?-none-count q db.outbox e in
              let both = count-append q db.outbox (new ∷ []) in
              ground (arith, new_intent-found session_id public_id)),
      )
      | inr (row, e) ↦ (row, db.outbox, rw e refl, e, λ _. refl, λ h. h)
    ]
