-- ===== src/Kyc/Workflow/Approval.antt =====
-- Who is approved: only a user with an approved application.
use pine_backend.Base.{ℕ, Bool}
use pine_backend.Kyc.Workflow.{
  KycDb, DocumentType, ScanEnd, start_application, upload_document, process_verification,
}

infix 40 ◌⟶◌ ◌⟶*◌
-- One call of the service.
pub data ◌⟶◌ : KycDb → KycDb → Type 0 where
  start : {db : KycDb} (uid : ℕ) → db ⟶ (start_application uid db).1
  upload :
      {db : KycDb} (id uid : ℕ) (type : DocumentType) (valid : Bool)
      → db ⟶ (upload_document id uid type valid db).1
  verify : {db : KycDb} (id uid : ℕ) (scan : ScanEnd) → db ⟶ (process_verification id uid scan db).1

pub data ◌⟶*◌ : KycDb → KycDb → Type 0 where
  here : {db : KycDb} → db ⟶* db
  next_call : {a b c : KycDb} → a ⟶ b → b ⟶* c → a ⟶* c
