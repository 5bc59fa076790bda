-- ===== src/Handler/Kafka.antt =====
-- `CheckKafka` of internal/handler/product_handler.go. The queue packages are not part of the
-- repository: `Queue` is what the handler calls of them.
pub mod Ends
use platform_idp_demo.Base.{
  ℕ, ◌≡◌, String, true, false, Option, none, some, List, [], ◌∷◌, if◌then◌else◌, arith, ◌≢◌,
}
use platform_idp_demo.Base.Text.{str_eq}
use platform_idp_demo.Go.{M, pure, deref, deferred, returned, ◌>>=◌}
use platform_idp_demo.Platform.{Platform, Err}
use platform_idp_demo.Api.Errors.{Error, error_text}
use platform_idp_demo.Api.CheckKafkaRequest.{CheckKafkaRequest}
use platform_idp_demo.Api.CheckKafkaResponse.{CheckKafkaResponse}
use platform_idp_demo.Service.{Answer}

-- `queue.Config` with `kconf.Config`
pub record Config : Type 0 where
  pub stack : String
  pub brokers : List String
  pub topic : String

-- `consumerq.Payload`
pub record Payload : Type 0 where
  pub queue_name : String
  pub message : String

pub record Queue (P : Platform) (W : Type 0) : Type 1 where
  -- A `queue.Producer` that is not nil.
  pub Producer : Type 0
  -- `queue.KafkaDriver`
  pub kafka_driver : String
  -- `queue.New`
  pub new : Config → M W (Option Producer × Err P)
  -- `SendCtx` under a time limit in seconds
  pub send : Producer → ℕ → Payload → M W (Err P)
  pub close : Producer → M W (Unit {0})

abbrev health_payload : Payload
health_payload = record { queue_name = "health-check"; message = "ping" }

module _ {P : Platform} {W : Type 0} (Q : Queue P W) where
  abbrev pub down : Error P.Failure → Answer P CheckKafkaResponse
  down e = (some (record { status = false; message = error_text P.failure_text e }), none)

  abbrev pub up : Answer P CheckKafkaResponse
  up = (some (record { status = true; message = "connected" }), none)

  abbrev pub broker_of : String → String
  broker_of env = if str_eq env "" then "localhost:9092" else env

  abbrev pub config_of : String → Config
  config_of broker = record {
    stack = Q.kafka_driver;
    brokers = broker ∷ [];
    topic = "health-check";
  }

  -- `env` is the environment's KAFKA_BROKER, empty if it is not set.
  unfoldable pub check_kafka : String → Option CheckKafkaRequest → M W (Answer P CheckKafkaResponse)
  check_kafka env req = do
    (prod, err) ← Q.new (config_of (broker_of env))
    elim err [
      | some e ↦ pure (down e)
      | none ↦ do
        p ← deref prod
        deferred (Q.close p) (do
          err' ← Q.send p 3 health_payload
          elim err' [ some e ↦ pure (down e) | none ↦ pure up ])
    ]

  -- Whatever the queue does, an answer of the check has a response and a nil error.
  pub check_kafka-answers :
      (env : String) (req : Option CheckKafkaRequest) (w w' : W)
      (answer : Answer P CheckKafkaResponse)
      → check_kafka env req w ≡ returned answer w'
      → (answer.0 ≢ none) × (answer.1 ≡ none)
  unfolding check_kafka
  check_kafka-answers env req w w' answer h = ground arith
