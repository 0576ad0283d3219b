-- ===== src/Kyc/Tests.antt =====
-- The specimen card of the standard: number D23145890, born 12 August 1974, expired 15 April 2012.
use pine_backend.Base.{ℕ, ◌≡◌, refl, true, some, none, List, [], ◌∷◌, ◌++◌, ◌%◌, ◌↔◌}
use pine_backend.Kyc.Workflow.{
  KycDb, not_submitted, national_id, selfie, decided_approved, concluded, start_application,
  upload_document, process_verification,
}
use pine_backend.Kyc.Mrz.{check_digit, check_value, filler, fillers, MrzResult}
use pine_backend.Kyc.Mrz.RoundTrip.{Card}
use pine_backend.Kyc.Mrz.Checks.{check_digit_detects}

abbrev specimen : Card
specimen = record {
  code = 73 ∷ filler ∷ [];
  issuer = 85 ∷ 84 ∷ 79 ∷ [];
  number = 68 ∷ 50 ∷ 51 ∷ 49 ∷ 52 ∷ 53 ∷ 56 ∷ 57 ∷ 48 ∷ [];
  optional1 = fillers 15;
  birth = 55 ∷ 52 ∷ 48 ∷ 56 ∷ 49 ∷ 50 ∷ [];
  sex = 70;
  expiry = 49 ∷ 50 ∷ 48 ∷ 52 ∷ 49 ∷ 53 ∷ [];
  nationality = 85 ∷ 84 ∷ 79 ∷ [];
  optional2 = fillers 11 ++ (54 ∷ []);
}

-- ERIKSSON<<ANNA
abbrev names : List ℕ
names = 69 ∷ 82 ∷ 73 ∷ 75 ∷ 83 ∷ 83 ∷ 79 ∷ 78 ∷ filler ∷ filler ∷ 65 ∷ 78 ∷ 78 ∷ 65 ∷ fillers 16

check_digits :
    (check_digit specimen.number ≡ 55)
    × (check_digit specimen.birth ≡ 50)
    × (check_digit specimen.expiry ≡ 57)
unfolding check_digit
check_digits = (refl, refl, refl)

abbrev specimen_read : MrzResult
specimen_read = record {
  document_code = some (73 ∷ []);
  issuing_country = some specimen.issuer;
  document_number = some (record { value = specimen.number; check_digit_valid = true });
  optional_data1 = none;
  birth_date = some (record {
    value = record { day = 49 ∷ 50 ∷ []; month = 48 ∷ 56 ∷ []; year = some 1_974 };
    check_digit_valid = true;
  });
  sex = some 70;
  expiry_date = some (record {
    value = record { day = 49 ∷ 53 ∷ []; month = 48 ∷ 52 ∷ []; year = some 2_012 };
    check_digit_valid = true;
  });
  nationality = some specimen.nationality;
  surname = some (69 ∷ 114 ∷ 105 ∷ 107 ∷ 115 ∷ 115 ∷ 111 ∷ 110 ∷ []);
  given_names = some (65 ∷ 110 ∷ 110 ∷ 97 ∷ []);
  check_digit_score = 3;
}

-- O read for D in the number is detected; N would not be
check_digit_detects_example :
    (check_digit ([] ++ (68 ∷ 50 ∷ 51 ∷ [])) ≡ check_digit ([] ++ (79 ∷ 50 ∷ 51 ∷ [])))
    ↔ (check_value 68 % 10 ≡ check_value 79 % 10)
check_digit_detects_example = check_digit_detects [] (50 ∷ 51 ∷ []) 68 79

-- a user who applies, hands in both documents, and is approved
abbrev fresh_db : KycDb
fresh_db = record {
  applications = [];
  documents = [];
  users = record { id = 1; kyc_status = not_submitted } ∷ [];
  next = 5;
}

abbrev approved_db : KycDb
approved_db =
    (process_verification 5 1 (concluded decided_approved)
      (upload_document 5 1 selfie true
        (upload_document 5 1 national_id true (start_application 1 fresh_db).1).1).1).1
