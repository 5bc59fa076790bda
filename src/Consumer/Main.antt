-- ===== src/Consumer/Main.antt =====
-- cmd/consumer/main.go: the process that listens to the queues. The group of listeners, the settings of
-- the queue and the end of the process belong to the helper packages and to Go's library.
use platform_idp_demo.Base.{◌≡◌, refl, String, Option, none, some, List, map, ◌⊎◌, inl, inr}
use platform_idp_demo.Go.{M, returned, panicked, deferred, world_after, ◌>>=◌}
use platform_idp_demo.Platform.{Platform}
use platform_idp_demo.Config.{Config, load}
use platform_idp_demo.Registry.{Parts, WorkerContext, new_consumer_context}
use platform_idp_demo.Consumer.{Handler, new_handler, listeners, listeners-map}

pub record Queues (P : Platform) {W : Type 0} (K : Parts W) (Context Message : Type 0)
    : Type 1 where
  -- `flag.Parse` and `conf.MustLoad`
  pub parse : M W (Unit {0})
  pub must_load : String → M W (Config K.settings)
  -- `queue.KafkaDriver` and `queue.RabbitDriver`, and what the settings name
  pub kafka_driver : String
  pub rabbit_driver : String
  pub stack : K.settings.Queue → String
  pub topics : K.settings.Queue → List String
  -- `MustNewListener` of the two packages
  pub Listener : Type 0
  pub new_kafka : K.settings.Queue → Handler P W Context Message → String → M W Listener
  pub new_rabbit : K.settings.Queue → Handler P W Context Message → M W Listener
  -- `Start` and `Stop` of the service group
  pub start : List Listener → M W (Unit {0})
  pub stop : List Listener → M W (Unit {0})
  -- `log.Fatal`
  pub fatal : M W (Unit {0})

module _ {P : Platform} {W : Type 0} (K : Parts W) {Context Message : Type 0}
    (Q : Queues P K Context Message) where
  abbrev pub handler : Handler P W Context Message
  handler = new_handler P W Context Message

  unfoldable pub main : Option String → M W (Unit {0})
  unfolding load new_consumer_context listeners
  main file = do
    c ← load K.settings Q.parse Q.must_load file
    ctx ← new_consumer_context K c
    started ←
        listeners Q.kafka_driver Q.rabbit_driver (Q.new_kafka c.queue handler)
          (Q.new_rabbit c.queue handler) (Q.stack c.queue) (Q.topics c.queue)
    elim started [ none ↦ Q.fatal | some group ↦ deferred (Q.stop group) (Q.start group) ]

  -- With the Kafka stack, when the configuration is loaded, the context is made, and every listener can be made
  -- without changing the world: the group of one listener for each topic, in order, is started, and it is
  -- stopped after the start has returned or panicked, so that the process ends in the world after the stop.
  pub main-stop :
      (file : String) (w w₁ w₂ w₃ w₄ w₅ : W) (c : Config K.settings) (ctx : WorkerContext K)
      (listener_of : String → Q.Listener)
      → Q.parse w ≡ returned tt w₁
      → Q.must_load file w₁ ≡ returned c w₂
      → new_consumer_context K c w₂ ≡ returned ctx w₃
      → Q.stack c.queue ≡ Q.kafka_driver
      → ((topic : String) → Q.new_kafka c.queue handler topic w₃ ≡ returned (listener_of topic) w₃)
      → (Q.start (map listener_of (Q.topics c.queue)) w₃ ≡ returned tt w₄)
        ⊎ (Q.start (map listener_of (Q.topics c.queue)) w₃ ≡ panicked w₄)
      → Q.stop (map listener_of (Q.topics c.queue)) w₄ ≡ returned tt w₅
      → world_after (main (some file) w) ≡ w₅
  unfolding main load
  main-stop file w w₁ w₂ w₃ w₄ w₅ c ctx listener_of parsed loaded opened kafka made (inl started)
        stopped =
      rw
        (
          parsed,
          loaded,
          opened,
          kafka,
          listeners-map Q.kafka_driver Q.rabbit_driver (Q.new_kafka c.queue handler)
              (Q.new_rabbit c.queue handler) listener_of (Q.topics c.queue) w₃ made,
          started,
          stopped,
        )
        refl
  main-stop file w w₁ w₂ w₃ w₄ w₅ c ctx listener_of parsed loaded opened kafka made (inr started)
        stopped =
      rw
        (
          parsed,
          loaded,
          opened,
          kafka,
          listeners-map Q.kafka_driver Q.rabbit_driver (Q.new_kafka c.queue handler)
              (Q.new_rabbit c.queue handler) listener_of (Q.topics c.queue) w₃ made,
          started,
          stopped,
        )
        refl
