-- ===== src/Board/Job.antt =====
-- krep-board/src/job.rs: what the events of a job carry. Their JSON is a parameter.
pub mod Exchange
use k_rep.Base.{
  ℕ, ◌≡◌, not, Option, some, List, [], ◌∷◌, Result, ok, ◌>>=◌, ◌>>◌, refuse_if, ok_or, ◌==◌,
}
use k_rep.Keys.{XOnly}
use k_rep.Core.Attestation.{Crypto, Signer}
use k_rep.Board.Event.{Texts, SignatureBytes, Event, EventError, malformed_event, tag, sign_event}

abbrev pub kind_job : ℕ
kind_job = 30402

abbrev pub kind_claim : ℕ
kind_claim = 1403

abbrev pub kind_accept : ℕ
kind_accept = 1404

pub record JobPost (T : Type 0) : Type 0 where
  pub v : ℕ
  pub kind : T
  pub file_hash : T
  pub file_ptr : T
  pub process : T
  pub material : T
  pub tolerance_class : T
  pub qty : ℕ
  pub reward : ℕ
  pub maker_bond : ℕ
  pub deadline : ℕ
  pub ship_region : T
  pub escrow_template : T
  pub buyer_rep_hint : Option T

pub record Claim (T : Type 0) : Type 0 where
  pub v : ℕ
  pub rep_head : T
  pub rep_pubkey : T
  pub payment_pubkey : T
  pub bond_txid : T
  pub note : Option T

pub record Acceptance (T : Type 0) : Type 0 where
  pub v : ℕ
  pub claim_id : T
  pub escrow_address : T
  pub escrow_outpoint : T

-- `serde_json::to_string` and `serde_json::from_str`: what is written is read back.
pub record Json (T A : Type 0) : Type 0 where
  pub to_json : A → T
  pub from_json : T → Option A
  pub from_json-to_json : (a : A) → from_json (to_json a) ≡ some a

module _ {T : Type 0} ⦃texts : Texts T⦄ where
  module _ (K S : Type 0) {P : Type 0} ⦃key : XOnly K⦄ ⦃crypto : Crypto K S⦄
      ⦃bytes : SignatureBytes K S⦄ ⦃signer : Signer K S P⦄ where
    unfoldable pub post_event : ⦃json : Json T (JobPost T)⦄ → JobPost T → P → T → ℕ → Event T
    post_event ⦃json = json⦄ post pair job_id created_at =
        sign_event K S pair kind_job
          ((texts.literal "d" ∷ job_id ∷ [])
            ∷ (texts.literal "process" ∷ post.process ∷ [])
            ∷ (texts.literal "region" ∷ post.ship_region ∷ [])
            ∷ (texts.literal "escrow" ∷ post.escrow_template ∷ [])
            ∷ [])
          (json.to_json post) created_at

    unfoldable pub claim_event : ⦃json : Json T (Claim T)⦄ → Claim T → P → T → ℕ → Event T
    claim_event ⦃json = json⦄ claim pair job_addr created_at =
        sign_event K S pair kind_claim ((texts.literal "a" ∷ job_addr ∷ []) ∷ [])
          (json.to_json claim) created_at

    unfoldable pub accept_event :
        ⦃json : Json T (Acceptance T)⦄ → Acceptance T → P → T → ℕ → Event T
    accept_event ⦃json = json⦄ acceptance pair job_addr created_at =
        sign_event K S pair kind_accept
          ((texts.literal "a" ∷ job_addr ∷ [])
            ∷ (texts.literal "e" ∷ acceptance.claim_id ∷ [])
            ∷ [])
          (json.to_json acceptance) created_at

  unfoldable pub read_post :
      ⦃json : Json T (JobPost T)⦄ → Event T → Result EventError (T × JobPost T)
  read_post ⦃json = json⦄ e = do
    refuse_if (not (e.kind == kind_job)) (malformed_event "not a job posting")
    id ← ok_or (tag e (texts.literal "d")) (malformed_event "job posting has no d tag")
    post ← ok_or (json.from_json e.content) (malformed_event "job content")
    ok (id, post)

  unfoldable pub read_claim : ⦃json : Json T (Claim T)⦄ → Event T → Result EventError (T × Claim T)
  read_claim ⦃json = json⦄ e = do
    refuse_if (not (e.kind == kind_claim)) (malformed_event "not a claim")
    job ← ok_or (tag e (texts.literal "a")) (malformed_event "claim has no a tag")
    claim ← ok_or (json.from_json e.content) (malformed_event "claim content")
    ok (job, claim)

  unfoldable pub read_acceptance :
      ⦃json : Json T (Acceptance T)⦄ → Event T → Result EventError (Acceptance T)
  read_acceptance ⦃json = json⦄ e = do
    refuse_if (not (e.kind == kind_accept)) (malformed_event "not an acceptance")
    ok_or (json.from_json e.content) (malformed_event "acceptance content")
