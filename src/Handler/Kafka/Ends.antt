-- ===== src/Handler/Kafka/Ends.antt =====
-- How `CheckKafka` ends, and that it leaves no producer open.
use platform_idp_demo.Base.{
  ℕ, suc, ◌-◌, ◌≡◌, ◌≢◌, refl, String, true, false, Option, none, some, [], ◌∷◌, arith,
}
use platform_idp_demo.Base.Text.{eq_iff}
use platform_idp_demo.Go.{returned}
use platform_idp_demo.Platform.{Platform, Err}
use platform_idp_demo.Api.Errors.{Error, error_text}
use platform_idp_demo.Api.CheckKafkaRequest.{CheckKafkaRequest}
use platform_idp_demo.Api.CheckKafkaResponse.{CheckKafkaResponse}
use platform_idp_demo.Service.{Answer}
use platform_idp_demo.Handler.Kafka.{
  Queue, Config, Payload, check_kafka, config_of, broker_of, down, up,
}

module _ {P : Platform} {W : Type 0} (Q : Queue P W) where
  module _ (count : W → ℕ) where
    -- `queue.New` gives a producer that is open, or an error.
    pub data Opens (o : Option Q.Producer) (err : Err P) (w w' : W) : Type 0 where
      opened :
          (p : Q.Producer) → o ≡ some p → err ≡ none → count w' ≡ suc (count w) → Opens o err w w'
      refused : (e : Error P.Failure) → err ≡ some e → count w' ≡ count w → Opens o err w w'

  -- The calls of the queue return, and `count` counts the producers that are open.
  pub record CountsProducers : Type 0 where
    pub count : W → ℕ
    pub new_lem :
        (c : Config) (w : W)
        → (o : Option Q.Producer) × (err : Err P) × (w' : W) × (Q.new c w ≡ returned (o, err) w')
          × Opens count o err w w'
    pub send_lem :
        (p : Q.Producer) (seconds : ℕ) (payload : Payload) (w : W)
        → (err : Err P) × (w' : W) × (Q.send p seconds payload w ≡ returned err w')
          × (count w' ≡ count w)
    pub close_lem :
        (p : Q.Producer) (w : W)
        → (w' : W) × (Q.close p w ≡ returned tt w') × (count w' ≡ count w - 1)

  -- The topic of the check on the broker of the environment, or on that of the local machine.
  pub record IsHealthConfig (env : String) (c : Config) : Type 0 where
    pub stack : c.stack ≡ Q.kafka_driver
    pub topic : c.topic ≡ "health-check"
    pub default_broker : env ≡ "" → c.brokers ≡ "localhost:9092" ∷ []
    pub broker : env ≢ "" → c.brokers ≡ env ∷ []

  -- How the check may end: no producer was opened, or it was, and it was closed after the ping was refused or
  -- sent within three seconds.
  pub data KafkaEnd (env : String) (w w' : W) (answer : Answer P CheckKafkaResponse) : Type 0 where
    not_opened :
        (c : Config) (o : Option Q.Producer) (e : Error P.Failure)
        → IsHealthConfig env c
        → Q.new c w ≡ returned (o, some e) w'
        → answer ≡ (some (record { status = false; message = error_text P.failure_text e }), none)
        → KafkaEnd env w w' answer
    not_sent :
        (c : Config) (p : Q.Producer) (e : Error P.Failure) (w₁ w₂ : W)
        → IsHealthConfig env c
        → Q.new c w ≡ returned (some p, none) w₁
        → Q.send p 3 (record { queue_name = "health-check"; message = "ping" }) w₁
          ≡ returned (some e) w₂
        → Q.close p w₂ ≡ returned tt w'
        → answer ≡ (some (record { status = false; message = error_text P.failure_text e }), none)
        → KafkaEnd env w w' answer
    sent :
        (c : Config) (p : Q.Producer) (w₁ w₂ : W)
        → IsHealthConfig env c
        → Q.new c w ≡ returned (some p, none) w₁
        → Q.send p 3 (record { queue_name = "health-check"; message = "ping" }) w₁
          ≡ returned none w₂
        → Q.close p w₂ ≡ returned tt w'
        → answer ≡ (some (record { status = true; message = "connected" }), none)
        → KafkaEnd env w w' answer

  config_of-IsHealthConfig : (env : String) → IsHealthConfig env (config_of Q (broker_of Q env))
  config_of-IsHealthConfig env = record {
    stack = refl;
    topic = refl;
    default_broker = λ empty. ground (arith, eq_iff env "");
    broker = λ set. ground (arith, eq_iff env "");
  }

  module _ (L : CountsProducers) where
    after_send :
        (env : String) (req : Option CheckKafkaRequest) (w : W) (p : Q.Producer) (w₁ w₂ w₃ : W)
        (err : Err P)
        → Q.new (config_of Q (broker_of Q env)) w ≡ returned (some p, none) w₁
        → Q.send p 3 (record { queue_name = "health-check"; message = "ping" }) w₁ ≡ returned err w₂
        → Q.close p w₂ ≡ returned tt w₃
        → (answer : Answer P CheckKafkaResponse) × (check_kafka Q env req w ≡ returned answer w₃)
          × KafkaEnd env w w₃ answer
    unfolding check_kafka
    after_send env req w p w₁ w₂ w₃ none made pinged closed = (
      up Q,
      ground arith,
      sent (config_of Q (broker_of Q env)) p w₁ w₂ (config_of-IsHealthConfig env) made pinged closed
          refl,
    )
    after_send env req w p w₁ w₂ w₃ (some e) made pinged closed = (
      down Q e,
      ground arith,
      not_sent (config_of Q (broker_of Q env)) p e w₁ w₂ (config_of-IsHealthConfig env) made pinged
          closed refl,
    )

    -- When the calls of the queue return and `count` counts the open producers, `CheckKafka` returns for every
    -- request and leaves as many producers open as before. It asks for a producer of the topic `health-check`
    -- on the broker of KAFKA_BROKER, or on `localhost:9092` if that is not set. If it gets none, the answer is
    -- the status false with the text of the error. Otherwise it sends the ping with three seconds to do so and
    -- closes the producer, and the answer is the status true and `connected` if the ping was sent, and the
    -- status false with the text of the error if not. The error beside the answer is always nil.
    pub check_kafka-KafkaEnd :
        (env : String) (req : Option CheckKafkaRequest) (w : W)
        → (answer : Answer P CheckKafkaResponse) × (w' : W) × (check_kafka Q env req w
            ≡ returned answer w')
          × KafkaEnd env w w' answer
          × (L.count w' ≡ L.count w)
    unfolding check_kafka
    check_kafka-KafkaEnd env req w =
        let c = config_of Q (broker_of Q env) in
        let is_c = config_of-IsHealthConfig env in
        let (o, err, w₁, made, opens) = L.new_lem c w in
        elim opens [
          | refused e failed same ↦
              let made' : Q.new c w ≡ returned (o, some e) w₁ = rw failed at made in
              (down Q e, w₁, rw made' refl, not_opened c o e is_c made' refl, same)
          | opened p is_p no_err more ↦
              let made' : Q.new c w ≡ returned (some p, none) w₁ = rw (is_p, no_err) at made in
              let (send_err, w₂, pinged, kept) =
                L.send_lem p 3 (record { queue_name = "health-check"; message = "ping" }) w₁ in
              let (w₃, closed, fewer) = L.close_lem p w₂ in
              let (answer, ran, end) =
                after_send env req w p w₁ w₂ w₃ send_err made' pinged closed in
              (answer, w₃, ran, end, omega (arith, fewer, kept, more))
        ]
