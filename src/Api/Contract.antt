-- ===== src/Api/Contract.antt =====
-- What both queue adapters promise to a consumer, with no view of the order of messages: which bodies
-- are live in the main queue and which are dead-lettered, each as often.
use frontdesk_intake.Prelude.{ℕ, ◌+◌, String, Bool, List, ◌≡◌, All, if◌then◌else◌}
use frontdesk_intake.Json.{Json}
use frontdesk_intake.Database.Tx.{ok}
use frontdesk_intake.Database.Order.{count}
use frontdesk_intake.Api.Queue.{QueueMessage, Operations}

abbrev pub one : (Json → Bool) → Json → ℕ
one p body = if p body then 1 else 0

-- `live` and `dead` are the bodies in the two places; a handle `holds` the body of a live message.
pub record Contract {State : Type 0} (ops : Operations State) (live dead : State → List Json)
    (holds : String → Json → State → Type 0) : Type 0 where
  pub send_lem :
      (body : Json) (s t : State) (id : String) (p : Json → Bool)
      → ops.send body s ≡ (ok id, t)
      → (count p (live t) ≡ count p (live s) + one p body) × (count p (dead t) ≡ count p (dead s))
  pub receive_lem :
      (vt qty : ℕ) (s t : State) (ms : List QueueMessage) (p : Json → Bool)
      → ops.receive vt qty s ≡ (ok ms, t)
      → (count p (live t) ≡ count p (live s))
        × (count p (dead t) ≡ count p (dead s))
        × All (λ m. holds m.id m.body t) ms
  pub ack_lem :
      (id : String) (body : Json) (s t : State) (p : Json → Bool)
      → holds id body s
      → ops.ack id s ≡ (ok tt, t)
      → (count p (live t) + one p body ≡ count p (live s)) × (count p (dead t) ≡ count p (dead s))
  pub nack_lem :
      (id : String) (body : Json) (s t : State) (p : Json → Bool)
      → holds id body s
      → ops.nack id s ≡ (ok tt, t)
      → (count p (live t) ≡ count p (live s)) × (count p (dead t) ≡ count p (dead s))
  pub dead_letter_lem :
      (id : String) (body : Json) (s t : State) (p : Json → Bool)
      → holds id body s
      → ops.dead_letter id s ≡ (ok tt, t)
      → (count p (live t) + one p body ≡ count p (live s))
        × (count p (dead t) ≡ count p (dead s) + one p body)
