-- ===== src/Checks/Incoming.antt =====
-- Deliveries of one message, where the state seen by the ports counts the guidance sent.
use gastto.Conversation.Fsm.{expense_review, FsmState}
use gastto.Queue.{port_failed, returned, Answer}
use gastto.Incoming.Once.{route_incoming-once}
use gastto.Incoming.{
  undone, done, Effect, handle_callback, handle_text, once, route_callback, route_incoming,
  route_text, text_message, enqueue_and_mark, callback_message, Outside, NormalizedPayload, Job,
}
use gastto.Base.{length, refl, none, suc, [], some, arith, false, Option, ◌≡◌, ◌≢◌, ℕ, String}
use gastto.Processed.{ProcessedMessageKey, telegram, Channel}
use gastto.Queue.Pending.{and_then}
use gastto.Checks.Lock.{Entries, server, empty, lock_parts}
use gastto.Checks.Routing.{as_it_is, chatter, routing_parts}

incoming_parts : Unit {0}
unfolding lock_parts routing_parts and_then enqueue_and_mark route_text route_callback once
    handle_text handle_callback route_incoming
incoming_parts = tt

abbrev known : Channel → String → ℕ → Answer String × ℕ
known c chat n = (returned "ann", n)

abbrev reviewing : String → ℕ → Answer (Option FsmState) × ℕ
reviewing u n = (returned (some expense_review), n)

abbrev sent : String → ℕ → Answer Unit × ℕ
sent chat n = (returned tt, suc n)

abbrev accepts : Job → ℕ → Effect × ℕ
accepts job n = (done, n)

abbrev sets : ProcessedMessageKey → ℕ → Effect × ℕ
sets key n = (done, n)

abbrev loses : ProcessedMessageKey → ℕ → Effect × ℕ
loses key n = (undone (port_failed "redis is down"), n)

abbrev deliver : ℕ → NormalizedPayload → Outside Entries ℕ → Answer Unit × Outside Entries ℕ
deliver now p w =
    route_incoming server (λ s. s) as_it_is chatter (λ u. false) known reviewing sent sent accepts
      sets now p w

abbrev hello : NormalizedPayload
hello = record {
  message_type = text_message;
  channel = telegram;
  chat_id = "77";
  user_id = some "77";
  text = some "buen dia";
  callback_data = none;
  external_message_id = "m1";
  timestamp = 5;
}

abbrev before : Outside Entries ℕ
before = record { markers = empty; ports = 0; jobs = [] }

one_job : (deliver 10 hello before).1.jobs ≢ before.jobs
unfolding incoming_parts
one_job e = absurd (ground arith)

returns_at_once : (deliver 10 hello before).0 ≡ returned tt
unfolding incoming_parts
returns_at_once = refl

route_incoming-once_example :
    (deliver 20 hello (deliver 10 hello before).1).1.jobs ≡ (deliver 10 hello before).1.jobs
route_incoming-once_example =
    route_incoming-once server (λ s. s) as_it_is chatter (λ u. false) known reviewing sent sent
      accepts sets 10 20 hello hello before (deliver 10 hello before).1 refl refl (omega arith)
      (omega arith) one_job returns_at_once refl

foreign_callbacks_are_dropped :
    deliver 10
      (record hello {
        message_type = callback_message;
        callback_data = some "x";
        user_id = some "9";
      })
      before
    ≡ (returned tt, before)
unfolding incoming_parts
foreign_callbacks_are_dropped = refl

abbrev deliver_unmarked : Outside Entries ℕ → Answer Unit × Outside Entries ℕ
deliver_unmarked w =
    route_incoming server (λ s. s) as_it_is chatter (λ u. false) known reviewing sent sent accepts
      loses 10 hello w

-- Where the marker is not set after the job was taken, the next delivery makes a second job.
lost_marker_repeats_the_job : length (deliver_unmarked (deliver_unmarked before).1).1.jobs ≡ 2
unfolding incoming_parts
lost_marker_repeats_the_job = refl
