-- ===== src/Kyc/Workflow.antt =====
-- Applications for approval, src/modules/kyc/services/kyc-workflow.service.ts with the queries of
-- src/modules/kyc/repositories/kyc.repository.ts. What the scan of the documents decides is an argument,
-- as is whether a file passes the checks on its type and size.
pub mod Earned
pub mod Approval
use pine_backend.Base.{
  ℕ, suc, Bool, true, false, not, ◌&&◌, ◌||◌, Option, none, some, List, [], ◌∷◌, ◌++◌, Result, ok,
  err, ◌==◌, ltb, if◌then◌else◌, find?, update_where, Tx, Action,
}

pub data KycStatus : Type 0 where
  not_submitted pending additional_docs manual_review approved rejected : KycStatus

pub data Stage : Type 0 where
  created id_uploaded selfie_uploaded complete failed : Stage

-- `STAGE_ORDER`, of the stages that outlast a call
abbrev pub stage_order : Stage → ℕ
stage_order created = 0
stage_order id_uploaded = 1
stage_order selfie_uploaded = 2
stage_order complete = 11
stage_order failed = 12

pub data DocumentType : Type 0 where
  national_id national_id_back selfie proof_of_residence : DocumentType

pub record Application : Type 0 where
  pub id : ℕ
  pub user_id : ℕ
  pub status : KycStatus
  pub stage : Stage

pub record Document : Type 0 where
  pub application_id : ℕ
  pub type : DocumentType

pub record Applicant : Type 0 where
  pub id : ℕ
  pub kyc_status : KycStatus

-- applications with the latest first
pub record KycDb : Type 0 where
  pub applications : List Application
  pub documents : List Document
  pub users : List Applicant
  pub next : ℕ

pub data KycError : Type 0 where
  already_approved application_not_found file_refused documents_missing : KycError

abbrev pub latest_application : ℕ → KycDb → Option Application
latest_application user_id db = find? (λ (a : Application). a.user_id == user_id) db.applications

abbrev pub find_application : ℕ → KycDb → Option Application
find_application id db = find? (λ (a : Application). a.id == id) db.applications

-- `createApplication`
abbrev create_application : ℕ → Action KycError KycDb ℕ
create_application user_id db = (
  ok db.next,
  record db {
    applications =
        record { id = db.next; user_id = user_id; status = not_submitted; stage = created }
        ∷ db.applications;
    next = suc db.next;
  },
)

-- `RESUMABLE`, APPROVED, and REJECTED, which falls through
abbrev start_at : ℕ → ℕ → KycStatus → Action KycError KycDb ℕ
start_at user_id id approved db = (err already_approved, db)
start_at user_id id rejected db = create_application user_id db
start_at user_id id _ db = (ok id, db)

abbrev start_after : ℕ → Option Application → Action KycError KycDb ℕ
start_after user_id none db = create_application user_id db
start_after user_id (some a) db = start_at user_id a.id a.status db

-- `startApplication`
unfoldable pub start_application : ℕ → Action KycError KycDb ℕ
start_application user_id db = start_after user_id (latest_application user_id db) db

-- `updateApplicationStage` and `updateApplicationStatus`
abbrev pub update_application : ℕ → (Application → Application) → KycDb → KycDb
update_application id f db = record db {
  applications = update_where (λ (a : Application). a.id == id) f db.applications;
}

-- `updateUserKycStatus`
abbrev pub update_user : ℕ → KycStatus → KycDb → KycDb
update_user user_id status db = record db {
  users =
      update_where (λ (u : Applicant). u.id == user_id)
        (λ (u : Applicant). record u { kyc_status = status }) db.users;
}

abbrev advanced : Stage → Application → Application
advanced proposed a =
    if ltb (stage_order a.stage) (stage_order proposed) then record a { stage = proposed } else a

-- the stage that a document proposes
abbrev proposed_by : DocumentType → Application → Application
proposed_by national_id a = advanced id_uploaded a
proposed_by national_id_back a = advanced id_uploaded a
proposed_by selfie a = advanced selfie_uploaded a
proposed_by proof_of_residence a = a

abbrev add_document : Document → KycDb → KycDb
add_document d db = record db { documents = db.documents ++ (d ∷ []) }

abbrev upload_to : ℕ → DocumentType → Bool → Option Application → Action KycError KycDb (Unit {0})
upload_to user_id type valid none db = (err application_not_found, db)
upload_to user_id type valid (some a) db =
    if not (a.user_id == user_id)
    then (err application_not_found, db)
    else if not valid
    then (err file_refused, db)
    else (
      ok tt,
      update_application a.id (proposed_by type)
          (add_document (record { application_id = a.id; type = type }) db),
    )

-- `uploadDocument`. `valid` is the answer of `validateUploadedFile`.
unfoldable pub upload_document : ℕ → ℕ → DocumentType → Bool → Action KycError KycDb (Unit {0})
upload_document id user_id type valid db = upload_to user_id type valid (find_application id db) db

pub data Decision : Type 0 where
  decided_approved decided_rejected decided_manual_review : Decision

abbrev status_of : Decision → KycStatus
status_of decided_approved = approved
status_of decided_rejected = rejected
status_of decided_manual_review = pending

abbrev set_application : ℕ → KycStatus → KycDb → KycDb
set_application id status =
    update_application id (λ (a : Application). record a { status = status })

abbrev set_both : ℕ → ℕ → KycStatus → KycDb → KycDb
set_both id user_id status db =
    update_user user_id status
      (update_application id (λ (a : Application). record a { status = status }) db)

abbrev at_stage : ℕ → Stage → KycDb → KycDb
at_stage id stage = update_application id (λ (a : Application). record a { stage = stage })

-- How the `try` ends: an error before the verdict, after the application's status is written, or after
-- the user's is; or no error.
pub data ScanEnd : Type 0 where
  scan_failed : ScanEnd
  failed_after_status : Decision → ScanEnd
  failed_after_verdict : Decision → ScanEnd
  concluded : Decision → ScanEnd

-- The `try` and `catch`. The stages on the way are overwritten by the last one. MANUAL_REVIEW leaves
-- the user's status, which is PENDING.
abbrev conclude : ℕ → ℕ → ScanEnd → KycDb → KycDb
conclude id user_id scan_failed db = at_stage id failed db
conclude id user_id (failed_after_status d) db =
    at_stage id failed (set_application id (status_of d) db)
conclude id user_id (failed_after_verdict d) db =
    at_stage id failed (set_both id user_id (status_of d) db)
conclude id user_id (concluded d) db = at_stage id complete (set_both id user_id (status_of d) db)

abbrev is_national_id : DocumentType → Bool
is_national_id national_id = true
is_national_id _ = false

abbrev is_selfie : DocumentType → Bool
is_selfie selfie = true
is_selfie _ = false

abbrev is_there : Option Document → Bool
is_there none = false
is_there (some d) = true

abbrev has_document : ℕ → (DocumentType → Bool) → KycDb → Bool
has_document id p db =
    is_there (find? (λ (d : Document). d.application_id == id && p d.type) db.documents)

abbrev run_for : ℕ → ScanEnd → Option Application → Action KycError KycDb (Unit {0})
run_for user_id scan none db = (err application_not_found, db)
run_for user_id scan (some a) db =
    if not (a.user_id == user_id)
    then (err application_not_found, db)
    else if not (has_document a.id is_national_id db && has_document a.id is_selfie db)
    then (err documents_missing, db)
    else (ok tt, conclude a.id user_id scan (set_both a.id user_id pending db))

-- `processVerification`: its lock is free, since calls come one after another
unfoldable pub process_verification : ℕ → ℕ → ScanEnd → Action KycError KycDb (Unit {0})
process_verification id user_id scan db = run_for user_id scan (find_application id db) db
