-- ===== src/Incoming/Once.antt =====
-- What one delivery of a message leaves, and what the next delivery of the message finds.
use gastto.Vocabulary.{done}
use gastto.Base.{
  List, lt→ltb, ◌∙◌, arith, true, ◌≢◌, none, ◌+◌, ◌<◌, sym, ◌≤◌, subst, refl, ap, [], if◌then◌else◌,
  ◌∷◌, inr, ◌++◌, inl, Bool-cases, false, some, ◌⊎◌, ◌≡◌,
}
use gastto.Incoming.{
  lost, undone, has_run, answer_of, threw, QueueError, Effect, text_message, callback_message,
  unsupported_message, handle_by_type, job_of, state_or_idle, mark_as_processed, is_guided,
  callback_job_of, done, undone, lost, mark, answer_of, has_run, text_or_empty, state_for, port,
  returned, exists, create_key, ProcessedMessageKey, ℕ, FsmState, Option, Answer, Channel, Bool,
  FreeText, Forms, String, RedisServer, Job, NormalizedPayload, Outside, is_blank, is_foreign,
  MessageType, route_incoming, handle_text, handle_callback, once, route_text, route_callback,
  enqueue_and_mark,
}
use gastto.Queue.Pending.{and_then}
use gastto.Queue.Advance.{and_then-cases}
use gastto.Processed.{mark_as_processed-exists}

module _ {S : Type 0} (redis : RedisServer) (trim : String → String) (forms : Forms)
    (classify : String → FreeText) (admits : String → Bool)
    (resolve_identity : Channel → String → S → Answer String × S)
    (get_state : String → S → Answer (Option FsmState) × S)
    (handle_unsupported send_guidance : String → S → Answer Unit × S) (add : Job → S → Effect × S)
    (set : ProcessedMessageKey → S → Effect × S) where
  abbrev World : Type 0
  World = Outside redis.State S

  abbrev pub Kept : World → World → Type 0
  Kept w w' = (w'.jobs ≡ w.jobs) × (w'.markers ≡ w.markers)

  -- The marker is set and the call returns, or the call throws, with the marker set or not.
  abbrev pub IsMarked : ℕ → ProcessedMessageKey → World → Answer Unit × World → Type 0
  IsMarked now key w end =
      ((end.0 ≡ returned tt) × (end.1.markers ≡ mark_as_processed redis now key w.markers))
      ⊎ ((e : QueueError) × (end.0 ≡ threw e))

  -- What a call leaves: nothing was taken, or one job of the payload, whose key was not marked; it now
  -- is, if the call returns.
  abbrev pub IsOnce : ℕ → NormalizedPayload → World → Answer Unit × World → Type 0
  IsOnce now p w end =
      Kept w end.1
      ⊎ ((key : ProcessedMessageKey) × (job : Job) × (create_key trim p.channel
              p.external_message_id
            ≡ some key)
          × (exists redis now key w.markers ≡ false)
          × (end.1.jobs ≡ w.jobs ++ job ∷ [])
          × IsMarked now key w end
          × (job.external_message_id ≡ p.external_message_id))

  module _ (now : ℕ) (p : NormalizedPayload) (key : ProcessedMessageKey) (w : World)
      (made : create_key trim p.channel p.external_message_id ≡ some key)
      (new : exists redis now key w.markers ≡ false) where
    -- The job is taken, and `set` comes to this.
    mark-IsOnce :
        (job : Job) (w' : World) (jobs : List Job) (effect : Effect) (s : S)
        → Kept w w'
        → jobs ≡ w'.jobs ++ job ∷ []
        → job.external_message_id ≡ p.external_message_id
        → IsOnce now p w (
          answer_of effect,
          record {
            markers =
                if has_run effect then mark_as_processed redis now key w'.markers else w'.markers;
            ports = s;
            jobs = jobs;
          },
        )
    mark-IsOnce job w' jobs effect s (old, markers) grown same =
        inr (key, job, made, new, grown ∙ ap (λ js. js ++ job ∷ []) old, marked effect, same)
      where
        marked :
            (effect : Effect)
            → IsMarked now key w (
              answer_of effect,
              record {
                markers =
                    if has_run effect
                    then mark_as_processed redis now key w'.markers
                    else w'.markers;
                ports = s;
                jobs = jobs;
              },
            )
        marked done = inl (refl, ap (mark_as_processed redis now key) markers)
        marked (undone e) = inr (e, refl)
        marked (lost e) = inr (e, refl)

    -- `add` comes to this.
    enqueued-IsOnce :
        (job : Job) (w' : World) (effect : Effect) (s : S)
        → Kept w w'
        → job.external_message_id ≡ p.external_message_id
        → IsOnce now p w (
            and_then
              (
                answer_of effect,
                record w' {
                  ports = s;
                  jobs = if has_run effect then w'.jobs ++ job ∷ [] else w'.jobs;
                },
              )
              (λ _ v.
                mark redis trim forms classify admits resolve_identity get_state handle_unsupported
                  send_guidance add set now key v))
    unfolding and_then
    enqueued-IsOnce job w' done s kept same =
        mark-IsOnce job w' (w'.jobs ++ job ∷ []) (set key s).0 (set key s).1 kept refl same
    enqueued-IsOnce job w' (undone e) s kept same = inl kept
    enqueued-IsOnce job w' (lost e) s (old, markers) same =
        inr (key, job, made, new, ap (λ js. js ++ job ∷ []) old, inr (e, refl), same)

    enqueue_and_mark-IsOnce :
        (job : Job) (w' : World)
        → Kept w w'
        → job.external_message_id ≡ p.external_message_id
        → IsOnce now p w (
            enqueue_and_mark redis trim forms classify admits resolve_identity get_state
              handle_unsupported send_guidance add set now key job w')
    unfolding enqueue_and_mark
    enqueue_and_mark-IsOnce job w' kept same =
        enqueued-IsOnce job w' (add job w'.ports).0 (add job w'.ports).1 kept same

    route_callback-IsOnce : IsOnce now p w (
        route_callback redis trim forms classify admits resolve_identity get_state
          handle_unsupported send_guidance add set now p key w)
    unfolding route_callback
    route_callback-IsOnce =
        elim (and_then-cases
          (port redis trim forms classify admits resolve_identity get_state handle_unsupported
            send_guidance add set (resolve_identity p.channel p.chat_id) w)
          (λ u w1.
            enqueue_and_mark redis trim forms classify admits resolve_identity get_state
              handle_unsupported send_guidance add set now key
              (callback_job_of redis trim forms classify admits resolve_identity get_state
                handle_unsupported send_guidance add set p u)
              w1)) [
                | inl (e, failed, stop) ↦ rw stop (inl (refl, refl))
                | inr (u, good, go) ↦ rw go (
                    enqueue_and_mark-IsOnce
                      (callback_job_of redis trim forms classify admits resolve_identity get_state
                        handle_unsupported send_guidance add set p u)
                      (port redis trim forms classify admits resolve_identity get_state
                        handle_unsupported send_guidance add set
                        (resolve_identity p.channel p.chat_id) w).1
                      (refl, refl) refl)
              ]

    state_for-Kept :
        (u : String) (v : World)
        → Kept w v
        → Kept w
            (state_for redis trim forms classify admits resolve_identity get_state
              handle_unsupported send_guidance add set u v).1
    state_for-Kept u v kept = elim (Bool-cases (admits u)) [
      | inl admitted ↦ rw admitted kept
      | inr asked ↦ rw asked kept
    ]

    route_text-IsOnce : IsOnce now p w (
        route_text redis trim forms classify admits resolve_identity get_state handle_unsupported
          send_guidance add set now p key w)
    unfolding route_text
    route_text-IsOnce =
        let text = text_or_empty p.text in
        elim (and_then-cases
          (port redis trim forms classify admits resolve_identity get_state handle_unsupported
            send_guidance add set (resolve_identity p.channel p.chat_id) w)
          (λ u w1.
            and_then
              (state_for redis trim forms classify admits resolve_identity get_state
                handle_unsupported send_guidance add set u w1)
              (λ found w2.
                if is_guided redis trim forms classify admits resolve_identity get_state
                  handle_unsupported send_guidance add set u
                  (state_or_idle redis trim forms classify admits resolve_identity get_state
                    handle_unsupported send_guidance add set found)
                  text
                then port redis trim forms classify admits resolve_identity get_state
                    handle_unsupported send_guidance add set (send_guidance p.chat_id) w2
                else enqueue_and_mark redis trim forms classify admits resolve_identity get_state
                    handle_unsupported send_guidance add set now key
                    (job_of redis trim forms classify admits resolve_identity get_state
                      handle_unsupported send_guidance add set p u)
                    w2))) [
                      | inl (e, failed, stop) ↦ rw stop (inl (refl, refl))
                      | inr (u, good, go) ↦ rw go (
                          let w1 =
                            (port redis trim forms classify admits resolve_identity get_state
                              handle_unsupported send_guidance add set
                              (resolve_identity p.channel p.chat_id) w).1 in
                          let kept = state_for-Kept u w1 (refl, refl) in
                          elim (and_then-cases
                            (state_for redis trim forms classify admits resolve_identity get_state
                              handle_unsupported send_guidance add set u w1)
                            (λ found w2.
                              if is_guided redis trim forms classify admits resolve_identity
                                get_state handle_unsupported send_guidance add set u
                                (state_or_idle redis trim forms classify admits resolve_identity
                                  get_state handle_unsupported send_guidance add set found)
                                text
                              then port redis trim forms classify admits resolve_identity get_state
                                  handle_unsupported send_guidance add set (send_guidance p.chat_id)
                                  w2
                              else enqueue_and_mark redis trim forms classify admits
                                  resolve_identity get_state handle_unsupported send_guidance add
                                  set now key
                                  (job_of redis trim forms classify admits resolve_identity
                                    get_state handle_unsupported send_guidance add set p u)
                                  w2)) [
                                    | inl (e, failed, stop) ↦ rw stop (inl kept)
                                    | inr (found, seen, go') ↦
                                        rw go'
                                          (elim (Bool-cases (
                                            is_guided redis trim forms classify admits
                                              resolve_identity get_state handle_unsupported
                                              send_guidance add set u
                                              (state_or_idle redis trim forms classify admits
                                                resolve_identity get_state handle_unsupported
                                                send_guidance add set found)
                                              text)) [
                                                | inl guided ↦ rw guided (inl kept)
                                                | inr not_guided ↦ rw not_guided (
                                                    enqueue_and_mark-IsOnce
                                                      (job_of redis trim forms classify admits
                                                        resolve_identity get_state
                                                        handle_unsupported send_guidance add set p
                                                        u)
                                                      (state_for redis trim forms classify admits
                                                        resolve_identity get_state
                                                        handle_unsupported send_guidance add set u
                                                        w1).1
                                                      kept refl)
                                              ])
                                  ])
                    ]

  once-IsOnce :
      (now : ℕ) (p : NormalizedPayload) (w : World) (o : Option ProcessedMessageKey)
      (route : ProcessedMessageKey → World → Answer Unit × World)
      → create_key trim p.channel p.external_message_id ≡ o
      → ((key : ProcessedMessageKey)
          → create_key trim p.channel p.external_message_id ≡ some key
          → exists redis now key w.markers ≡ false
          → IsOnce now p w (route key w))
      → IsOnce now p w (
          once redis trim forms classify admits resolve_identity get_state handle_unsupported
            send_guidance add set now o route w)
  unfolding once
  once-IsOnce now p w none route made step = inl (refl, refl)
  once-IsOnce now p w (some key) route made step =
      elim (Bool-cases (exists redis now key w.markers)) [
        | inl seen ↦ rw seen (inl (refl, refl))
        | inr new ↦
            let taken_once = step key made new in
            subst (IsOnce now p w) (sym (if_new key w route new)) taken_once
      ]
    where
      if_new :
          (key : ProcessedMessageKey) (w : World)
          (route : ProcessedMessageKey → World → Answer Unit × World)
          → exists redis now key w.markers ≡ false
          → (if exists redis now key w.markers then (returned tt, w) else route key w) ≡ route key w
      if_new key w route new = rw new refl

  handle_text-IsOnce :
      (now : ℕ) (p : NormalizedPayload) (w : World)
      → IsOnce now p w (
          handle_text redis trim forms classify admits resolve_identity get_state handle_unsupported
            send_guidance add set now p w)
  unfolding handle_text
  handle_text-IsOnce now p w = elim (Bool-cases (is_blank p.text)) [
    | inl blank ↦ rw blank (inl (refl, refl))
    | inr full ↦ rw full (
        once-IsOnce now p w (create_key trim p.channel p.external_message_id)
          (route_text redis trim forms classify admits resolve_identity get_state handle_unsupported
            send_guidance add set now p)
          refl (λ key made new. route_text-IsOnce now p key w made new))
  ]

  handle_callback-IsOnce :
      (now : ℕ) (p : NormalizedPayload) (w : World)
      → IsOnce now p w (
          handle_callback redis trim forms classify admits resolve_identity get_state
            handle_unsupported send_guidance add set now p w)
  unfolding handle_callback
  handle_callback-IsOnce now p w = elim (Bool-cases (is_blank p.callback_data)) [
    | inl blank ↦ rw blank (inl (refl, refl))
    | inr full ↦ rw full (elim (Bool-cases (is_foreign p)) [
      | inl foreign ↦ rw foreign (inl (refl, refl))
      | inr own ↦ rw own (
          once-IsOnce now p w (create_key trim p.channel p.external_message_id)
            (route_callback redis trim forms classify admits resolve_identity get_state
              handle_unsupported send_guidance add set now p)
            refl (λ key made new. route_callback-IsOnce now p key w made new))
    ])
  ]

  handle_by_type-IsOnce :
      (kind : MessageType) (now : ℕ) (p : NormalizedPayload) (w : World)
      → IsOnce now p w (
          handle_by_type redis trim forms classify admits resolve_identity get_state
            handle_unsupported send_guidance add set kind now p w)
  handle_by_type-IsOnce text_message now p w = handle_text-IsOnce now p w
  handle_by_type-IsOnce callback_message now p w = handle_callback-IsOnce now p w
  handle_by_type-IsOnce unsupported_message now p w = inl (refl, refl)

  -- A delivered message leads to no job, and then no marker changes, or to one job with its id, and
  -- then it was not marked before, and is marked now if the call returns: whatever the ports answer.
  route_incoming-IsOnce :
      (now : ℕ) (p : NormalizedPayload) (w : World)
      → IsOnce now p w (
          route_incoming redis trim forms classify admits resolve_identity get_state
            handle_unsupported send_guidance add set now p w)
  unfolding route_incoming
  route_incoming-IsOnce now p w = handle_by_type-IsOnce p.message_type now p w

  -- When a delivery has led to a job and returned, a delivery with the same channel and id in the next
  -- 24 hours leads to none, if the markers are then those that the first left, whatever else has
  -- changed. A delivery that throws may have led to a job, and promises nothing.
  pub route_incoming-once :
      (now t : ℕ) (p q : NormalizedPayload) (w later : World)
      → q.channel ≡ p.channel
      → q.external_message_id ≡ p.external_message_id
      → now ≤ t
      → t < now + 86400000
      → (route_incoming redis trim forms classify admits resolve_identity get_state
          handle_unsupported send_guidance add set now p w).1.jobs
        ≢ w.jobs
      → (route_incoming redis trim forms classify admits resolve_identity get_state
          handle_unsupported send_guidance add set now p w).0
        ≡ returned tt
      → later.markers
        ≡ (route_incoming redis trim forms classify admits resolve_identity get_state
            handle_unsupported send_guidance add set now p w).1.markers
      → (route_incoming redis trim forms classify admits resolve_identity get_state
          handle_unsupported send_guidance add set t q later).1.jobs
        ≡ later.jobs
  route_incoming-once now t p q w later channel id le soon took answered left =
      elim (route_incoming-IsOnce now p w) [
        | inl (jobs, markers) ↦ absurd (took jobs)
        | inr (key, job, made, new, grown, inr (e, failed), mine) ↦
            absurd (let got : threw e ≡ returned tt = sym failed ∙ answered in cc)
        | inr (key, job, made, new, grown, inl (ok, marked), mine) ↦
            elim (route_incoming-IsOnce t q later) [
              | inl (jobs, markers) ↦ jobs
              | inr (key', job', made', new', grown', marked', mine') ↦
                  let made2 : create_key trim p.channel p.external_message_id ≡ some key' =
                    rw (channel, id) at made' in
                  let both : some key ≡ some key' = sym made ∙ made2 in
                  let same : key ≡ key' = cc in
                  let shown : exists redis t key later.markers ≡ true =
                    rw (left, marked)
                      ((mark_as_processed-exists redis now t key key w.markers le).0
                        ∙ lt→ltb t (now + 86400000) soon) in
                  absurd (clash shown (rw same new'))
            ]
      ]
    where
      clash : {b : Bool} → b ≡ true → b ≡ false → ⊥
      clash {b} h k = ground arith
