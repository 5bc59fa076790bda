-- ===== src/Consumer.antt =====
-- internal/consumer/consumer.go and the choice of listeners in cmd/consumer/main.go. Messages, their
-- context, the recovery of panics and the listeners belong to the helper packages.
pub mod Main
use platform_idp_demo.Base.{
  ◌≡◌, refl, String, Option, none, some, List, [], ◌∷◌, ◌++◌, if◌then◌else◌, map, append_assoc,
  append-nil,
}
use platform_idp_demo.Base.Text.{str_eq, eq_refl}
use platform_idp_demo.Go.{M, Exec, pure, returned, panicked, out_of_fuel, ◌>>=◌}
use platform_idp_demo.Platform.{Platform, Err}

-- What a recovery makes of the end of a body: a return is left, and a panic is reported and becomes a nil
-- error.
abbrev pub recovered_end : {W E : Type 0} → (W → W) → Exec W (Option E) → Exec W (Option E)
recovered_end report (returned err w) = returned err w
recovered_end report (panicked w) = returned none (report w)
recovered_end report (out_of_fuel w) = out_of_fuel w

module _ (P : Platform) (W Context Message : Type 0) where
  -- The interface `Consumer`: its `Process`.
  abbrev pub Consumer : Type 0
  Consumer = Context → Message → M W (Err P)

  -- `Handler`, by its map from queue names to consumers; its context and configuration only serve the
  -- reports of a recovery.
  pub record Handler : Type 0 where
    pub consumers : List (String × Consumer)

  abbrev pub new_handler : Handler
  new_handler = record { consumers = [] }

  abbrev pub find_consumer : String → List (String × Consumer) → Option Consumer
  find_consumer name [] = none
  find_consumer name ((key, consumer) ∷ rest) =
      let found = find_consumer name rest in if str_eq key name then some consumer else found

  -- `recovered` is what the deferred `recovery.RecoverWithReporter` makes of the end of the body.
  module _ (queue_name : Message → String) (recovered : Exec W (Err P) → Exec W (Err P)) where
    unfoldable pub consume : Handler → Context → Message → M W (Err P)
    consume h ctx payload w = recovered (elim (find_consumer (queue_name payload) h.consumers) [
      | some process ↦ process ctx payload w
      | none ↦ pure none w
    ])

    -- How `Consume` ends when panics are reported and recovered: a message for a queue with a consumer
    -- gives what the consumer returns, or a nil error after the report when the consumer panics; a message
    -- for another queue gives a nil error and changes nothing.
    pub consume_lem :
        (report : W → W)
        → ((end : Exec W (Err P)) → recovered end ≡ recovered_end report end)
        → (h : Handler) (ctx : Context) (payload : Message) (w : W)
        → consume h ctx payload w ≡ elim (find_consumer (queue_name payload) h.consumers) [
          | some process ↦ recovered_end report (process ctx payload w)
          | none ↦ returned none w
        ]
    unfolding consume
    consume_lem report recovers h ctx payload w =
        go (find_consumer (queue_name payload) h.consumers)
      where
        go :
            (found : Option Consumer)
            → recovered (elim found [ some process ↦ process ctx payload w | none ↦ pure none w ])
              ≡ elim found [
                | some process ↦ recovered_end report (process ctx payload w)
                | none ↦ returned none w
              ]
        go none = recovers (returned none w)
        go (some process) = recovers (process ctx payload w)

    -- The handler that `NewHandler` makes has no consumers: when panics are reported and recovered, every
    -- message gives a nil error and changes nothing.
    pub consume-new_handler :
        (report : W → W)
        → ((end : Exec W (Err P)) → recovered end ≡ recovered_end report end)
        → (ctx : Context) (payload : Message) (w : W)
        → consume new_handler ctx payload w ≡ returned none w
    consume-new_handler report recovers ctx payload w =
        consume_lem report recovers new_handler ctx payload w

module _ {W Listener : Type 0} where
  -- The loop over the topics: one listener for each, added to the group.
  unfoldable pub add_listeners :
      (String → M W Listener) → List String → List Listener → M W (List Listener)
  add_listeners new_listener [] group = pure group
  add_listeners new_listener (topic ∷ topics) group = do
    listener ← new_listener topic
    add_listeners new_listener topics (group ++ listener ∷ [])

  -- The group that `main` starts: the listeners of the Kafka topics, the RabbitMQ listener, or none
  -- where it ends the process because the stack is neither.
  unfoldable pub listeners :
      (kafka_driver rabbit_driver : String)
      → (String → M W Listener)
      → M W Listener
      → String
      → List String
      → M W (Option (List Listener))
  unfolding add_listeners
  listeners kafka_driver rabbit_driver new_kafka new_rabbit stack topics =
      if str_eq stack kafka_driver
      then (do group ← add_listeners new_kafka topics []; pure (some group))
      else if str_eq stack rabbit_driver
      then (do listener ← new_rabbit; pure (some (listener ∷ [])))
      else pure none

  -- The group that the loop makes, when every listener can be made without changing the world: one
  -- listener for each topic, in order, after those of the group so far.
  add_listeners-map :
      (new_listener : String → M W Listener) (listener_of : String → Listener) (w : W)
      → ((topic : String) → new_listener topic w ≡ returned (listener_of topic) w)
      → (topics : List String) (group : List Listener)
      → add_listeners new_listener topics group w ≡ returned (group ++ map listener_of topics) w
  unfolding add_listeners
  add_listeners-map new_listener listener_of w made [] group = rw (append-nil group) refl
  add_listeners-map new_listener listener_of w made (topic ∷ topics) group =
      rw
        (
          made topic,
          add_listeners-map new_listener listener_of w made topics
              (group ++ listener_of topic ∷ []),
          append_assoc group (listener_of topic ∷ []) (map listener_of topics),
        )
        refl

  -- With the Kafka stack, when every listener can be made without changing the world, the group has one
  -- listener for each topic, in order.
  pub listeners-map :
      (kafka_driver rabbit_driver : String) (new_kafka : String → M W Listener)
      (new_rabbit : M W Listener) (listener_of : String → Listener) (topics : List String) (w : W)
      → ((topic : String) → new_kafka topic w ≡ returned (listener_of topic) w)
      → listeners kafka_driver rabbit_driver new_kafka new_rabbit kafka_driver topics w
        ≡ returned (some (map listener_of topics)) w
  unfolding listeners
  listeners-map kafka_driver rabbit_driver new_kafka new_rabbit listener_of topics w made =
      rw (eq_refl kafka_driver, add_listeners-map new_kafka listener_of w made topics []) refl
