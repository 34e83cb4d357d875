-- ===== src/Board/Job/Exchange.antt =====
-- The events of a job (krep-board/src/job.rs) are read back, each by its own reader.
use k_rep.Base.{ℕ, ◌≡◌, refl, ok}
use k_rep.Keys.{XOnly}
use k_rep.Core.Attestation.{Crypto, Signer}
use k_rep.Board.Event.{Texts, SignatureBytes, Event, verify_event, sign_event, tag}
use k_rep.Board.Event.Signed.{verify_event-sign_event}
use k_rep.Board.Job.{
  kind_job, kind_claim, kind_accept, JobPost, Claim, Acceptance, Json, post_event, claim_event,
  accept_event, read_post, read_claim, read_acceptance,
}

module _ {T : Type 0} ⦃texts : Texts T⦄ (K S : Type 0) {P : Type 0} ⦃key : XOnly K⦄
    ⦃crypto : Crypto K S⦄ ⦃bytes : SignatureBytes K S⦄ ⦃signer : Signer K S P⦄ where
  -- The event of a job posting passes its checks and is read back with the id of the job.
  pub read_post-post_event :
      ⦃json : Json T (JobPost T)⦄ (post : JobPost T) (pair : P) (job_id : T) (created_at : ℕ)
      → (verify_event K S (post_event K S post pair job_id created_at) ≡ ok tt)
        × (read_post (post_event K S post pair job_id created_at) ≡ ok (job_id, post))
  unfolding post_event read_post sign_event tag
  read_post-post_event ⦃json = json⦄ post pair job_id created_at =
      let made : Event T = post_event K S post pair job_id created_at in
      (
        (verify_event-sign_event K S pair kind_job made.tags made.content created_at).0,
        rw (
          (texts.same_text_iff (texts.literal "d") (texts.literal "d")).1 refl,
          json.from_json-to_json post,
        ),
      )

  -- The event of a claim passes its checks and is read back with the address of the job.
  pub read_claim-claim_event :
      ⦃json : Json T (Claim T)⦄ (claim : Claim T) (pair : P) (job_addr : T) (created_at : ℕ)
      → (verify_event K S (claim_event K S claim pair job_addr created_at) ≡ ok tt)
        × (read_claim (claim_event K S claim pair job_addr created_at) ≡ ok (job_addr, claim))
  unfolding claim_event read_claim sign_event tag
  read_claim-claim_event ⦃json = json⦄ claim pair job_addr created_at =
      let made : Event T = claim_event K S claim pair job_addr created_at in
      (
        (verify_event-sign_event K S pair kind_claim made.tags made.content created_at).0,
        rw (
          (texts.same_text_iff (texts.literal "a") (texts.literal "a")).1 refl,
          json.from_json-to_json claim,
        ),
      )

  -- A job posting is read back with the id of the job and a claim with the address of the job, each
  -- from the event that its maker signs, which passes its checks; so is an acceptance, which is read
  -- without the address.
  pub job_events_read :
      ⦃posts : Json T (JobPost T)⦄ ⦃claims : Json T (Claim T)⦄ ⦃acceptances : Json T (Acceptance T)⦄
      (post : JobPost T) (claim : Claim T) (acceptance : Acceptance T) (buyer maker : P)
      (job_id job_addr : T) (created_at : ℕ)
      → ((verify_event K S (post_event K S post buyer job_id created_at) ≡ ok tt)
          × (read_post (post_event K S post buyer job_id created_at) ≡ ok (job_id, post)))
        × ((verify_event K S (claim_event K S claim maker job_addr created_at) ≡ ok tt)
            × (read_claim (claim_event K S claim maker job_addr created_at) ≡ ok (job_addr, claim)))
        × ((verify_event K S (accept_event K S acceptance buyer job_addr created_at) ≡ ok tt)
            × (read_acceptance (accept_event K S acceptance buyer job_addr created_at)
                ≡ ok acceptance))
  unfolding accept_event read_acceptance sign_event
  job_events_read ⦃acceptances = acceptances⦄ post claim acceptance buyer maker job_id job_addr t =
      let made : Event T = accept_event K S acceptance buyer job_addr t in
      (
        read_post-post_event post buyer job_id t,
        read_claim-claim_event claim maker job_addr t,
        (
          (verify_event-sign_event K S buyer kind_accept made.tags made.content t).0,
          rw (acceptances.from_json-to_json acceptance),
        ),
      )
