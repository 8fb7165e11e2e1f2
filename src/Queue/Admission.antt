-- ===== src/Queue/Admission.antt =====
-- What QueuePendingExpense answers, and what it leaves in the queue.
use gastto.Queue.Refinement.{enqueue-appends, new_item, IsQueue}
use gastto.Queue.Sorting.{length-sort}
use gastto.Base.{
  length-append, le→leb, leb→le, leb, Bool-cases, ◌++◌, refl, ap, ◌<◌, arith, ◌∷◌, false, ◌===◌,
  inl, inr, any, filter, ◌⊎◌, sym, [], ℕ, length, ◌≡◌,
}
use gastto.Queue.Pending.{queued, full, after_enqueue, queue_pending}
use gastto.Queue.{is_of, returned, Channel, String, QueueTable, count_by_user, find_by_user}

pub count_by_user-length :
    (u : String) (db : QueueTable) → count_by_user u db ≡ length (find_by_user u db)
unfolding count_by_user find_by_user
count_by_user-length u db = sym (length-sort (filter (is_of u) db))

-- The use case queues an expense behind those that wait and answers how many then wait, or answers
-- that the queue is full, exactly when two wait; it never throws, and the queue stays one. The new
-- id is no row's.
queue_pending-outcome :
    (id : String) (now : ℕ) (u raw_message : String) (channel : Channel) (db : QueueTable)
    → IsQueue u db
    → any (λ x. x.id === id) db ≡ false
    → let q = find_by_user u db in
      let (answer, db') = queue_pending id now u raw_message channel db in
      ((length q ≡ 2) × (answer ≡ returned (full 2)) × (db' ≡ db))
      ⊎ ((length q < 2)
          × (answer ≡ returned (queued (length (find_by_user u db'))))
          × (find_by_user u db' ≡ q ++ new_item id now u raw_message channel q ∷ [])
          × IsQueue u db')
unfolding queue_pending after_enqueue
queue_pending-outcome id now u raw_message channel db queue fresh =
    let q = find_by_user u db in
    let counted = count_by_user-length u db in
    elim (Bool-cases (leb 2 (count_by_user u db))) [
      | inl much ↦ inl (
        ground (arith, leb→le 2 (count_by_user u db), queue.1, counted),
        rw much refl,
        rw much refl,
      )
      | inr few ↦ elim (enqueue-appends id now u raw_message channel db queue fresh) [
        | inl (two, threw_, same) ↦ absurd (ground (arith, le→leb 2 (count_by_user u db), counted))
        | inr (short, made, grown, queue', others) ↦ inr (
          short,
          rw few (
              rw made (
                rw grown (
                  ap (λ n. returned (queued n))
                    (omega (
                      arith,
                      counted,
                      length-append q (new_item id now u raw_message channel q ∷ []),
                    ))))),
          rw few (rw made grown),
          rw few (rw made queue'),
        )
      ]
    ]
