-- ===== src/Kyc/Mrz/RoundTrip.antt =====
-- The layout of a TD1 zone, as the comment at the top of src/modules/kyc/ocr/mrz.parser.ts gives it, and
-- the parser on a zone laid out so.
use pine_backend.Base.{
  ℕ, zero, suc, ◌+◌, ◌≡◌, refl, true, ◌⊎◌, inl, inr, some, List, [], ◌∷◌, ◌++◌, length, take, drop,
  get_elem?, take-append, drop-append, get_elem?-append, All, arith, ==_iff, ap, ◌∙◌,
}
use pine_backend.Kyc.Mrz.{
  check_digit, is_digit, is_letter, without_fillers, fix_numeric, fix_alpha, slice, or_null,
  mrz_date_to_display, DateKind, number_field, date_field, checks, surname_of, given_names_of,
  parse_lines, sex_of,
}

-- The fields of a card.
pub record Card : Type 0 where
  pub code : List ℕ
  pub issuer : List ℕ
  pub number : List ℕ
  pub optional1 : List ℕ
  pub birth : List ℕ
  pub sex : ℕ
  pub expiry : List ℕ
  pub nationality : List ℕ
  pub optional2 : List ℕ

abbrev pub line1 : Card → List ℕ
line1 c = c.code ++ (c.issuer ++ (c.number ++ (check_digit c.number ∷ c.optional1)))

abbrev pub line2 : Card → List ℕ
line2 c =
    c.birth
    ++ (check_digit c.birth
        ∷ c.sex
        ∷ (c.expiry ++ (check_digit c.expiry ∷ (c.nationality ++ c.optional2))))

abbrev pub Digits : List ℕ → Type 0
Digits = All (λ n. is_digit n ≡ true)

abbrev pub Letters : List ℕ → Type 0
Letters = All (λ n. is_letter n ≡ true)

-- The fields have their widths and their alphabets.
pub record IsLaidOut (c : Card) : Type 0 where
  pub code : length c.code ≡ 2
  pub issuer : length c.issuer ≡ 3
  pub number : length c.number ≡ 9
  pub optional1 : length c.optional1 ≡ 15
  pub birth : length c.birth ≡ 6
  pub expiry : length c.expiry ≡ 6
  pub nationality : length c.nationality ≡ 3
  pub issuer_letters : Letters c.issuer
  pub nationality_letters : Letters c.nationality
  pub birth_digits : Digits c.birth
  pub expiry_digits : Digits c.expiry
  pub sex : (c.sex ≡ 77) ⊎ (c.sex ≡ 70)

fix_numeric-Digits : (s : List ℕ) → Digits s → fix_numeric s ≡ s
unfolding fix_numeric
fix_numeric-Digits [] p = refl
fix_numeric-Digits (n ∷ ns) (p, ps) = ground (arith, p, fix_numeric-Digits ns ps)

fix_alpha-Letters : (s : List ℕ) → Letters s → fix_alpha s ≡ s
unfolding fix_alpha
fix_alpha-Letters [] p = refl
fix_alpha-Letters (n ∷ ns) (p, ps) = ground (arith, p, fix_alpha-Letters ns ps)

checks-check_digit : (s : List ℕ) → checks s (some (check_digit s)) ≡ true
checks-check_digit s = (==_iff (check_digit s) (check_digit s)).1 refl

take-all : (n : ℕ) (xs : List ℕ) → length xs ≡ n → take n xs ≡ xs
take-all zero [] h = refl
take-all zero (x ∷ xs) h = absurd (omega (arith, h))
take-all (suc n) [] h = refl
take-all (suc n) (x ∷ xs) h = rw (take-all n xs (omega (arith, h))) refl

module _ (c : Card) (laid : IsLaidOut c) where
  abbrev after_number : List ℕ
  after_number = check_digit c.number ∷ c.optional1

  abbrev after_sex : List ℕ
  after_sex = c.expiry ++ (check_digit c.expiry ∷ (c.nationality ++ c.optional2))

  abbrev after_birth : List ℕ
  after_birth = check_digit c.birth ∷ c.sex ∷ after_sex

  drop_code : (n : ℕ) → drop (2 + (3 + n)) (line1 c) ≡ drop n (c.number ++ after_number)
  drop_code n =
      drop-append 2 (3 + n) c.code (c.issuer ++ (c.number ++ after_number)) laid.code
      ∙ drop-append 3 n c.issuer (c.number ++ after_number) laid.issuer

  code_read : slice 0 2 (line1 c) ≡ c.code
  code_read = take-append 2 c.code (c.issuer ++ (c.number ++ after_number)) laid.code

  issuer_read : slice 2 5 (line1 c) ≡ c.issuer
  issuer_read =
      ap (take 3) (drop-append 2 0 c.code (c.issuer ++ (c.number ++ after_number)) laid.code)
      ∙ take-append 3 c.issuer (c.number ++ after_number) laid.issuer

  number_read : slice 5 14 (line1 c) ≡ c.number
  number_read = ap (take 9) (drop_code 0) ∙ take-append 9 c.number after_number laid.number

  number_check_read : get_elem? 14 (line1 c) ≡ some (check_digit c.number)
  number_check_read =
      get_elem?-append 2 12 c.code (c.issuer ++ (c.number ++ after_number)) laid.code
      ∙ get_elem?-append 3 9 c.issuer (c.number ++ after_number) laid.issuer
      ∙ get_elem?-append 9 0 c.number after_number laid.number

  optional_read : slice 15 30 (line1 c) ≡ c.optional1
  optional_read =
      ap (take 15) (drop_code 10 ∙ drop-append 9 1 c.number after_number laid.number)
      ∙ take-all 15 c.optional1 laid.optional1

  birth_read : slice 0 6 (line2 c) ≡ c.birth
  birth_read = take-append 6 c.birth after_birth laid.birth

  birth_check_read : get_elem? 6 (line2 c) ≡ some (check_digit c.birth)
  birth_check_read = get_elem?-append 6 0 c.birth after_birth laid.birth

  sex_read : get_elem? 7 (line2 c) ≡ some c.sex
  sex_read = get_elem?-append 6 1 c.birth after_birth laid.birth

  expiry_read : slice 8 14 (line2 c) ≡ c.expiry
  expiry_read =
      ap (take 6) (drop-append 6 2 c.birth after_birth laid.birth)
      ∙ take-append 6 c.expiry (check_digit c.expiry ∷ (c.nationality ++ c.optional2)) laid.expiry

  expiry_check_read : get_elem? 14 (line2 c) ≡ some (check_digit c.expiry)
  expiry_check_read =
      get_elem?-append 6 8 c.birth after_birth laid.birth
      ∙ get_elem?-append 6 0 c.expiry (check_digit c.expiry ∷ (c.nationality ++ c.optional2))
          laid.expiry

  nationality_read : slice 15 18 (line2 c) ≡ c.nationality
  nationality_read =
      ap (take 3) (
        drop-append 6 9 c.birth after_birth laid.birth
        ∙ drop-append 6 1 c.expiry (check_digit c.expiry ∷ (c.nationality ++ c.optional2))
            laid.expiry)
      ∙ take-append 3 c.nationality c.optional2 laid.nationality

  sex_known : sex_of (some c.sex) ≡ some c.sex
  sex_known = elim laid.sex [ inl m ↦ ground (arith, m) | inr f ↦ ground (arith, f) ]

  date_known :
      (now_yy : ℕ) (kind : DateKind) (raw : List ℕ)
      → length raw ≡ 6
      → date_field now_yy kind raw true
        ≡ some (record { value = mrz_date_to_display now_yy kind raw; check_digit_valid = true })
  date_known now_yy kind raw six = rw six refl

  -- From a zone whose fields have their widths and alphabets, with check digits over number, birth date
  -- and expiry date, the parser reads the fields of the first line, and birth date, sex, expiry date and
  -- nationality from the second, fillers removed, with all three checks valid, whatever the third says.
  parse_lines-line1 :
      (now_yy : ℕ) (l3 : List ℕ)
      → parse_lines now_yy (line1 c) (line2 c) l3
        ≡ some (record {
          document_code = or_null (without_fillers c.code);
          issuing_country = or_null c.issuer;
          document_number = number_field (without_fillers c.number) true;
          optional_data1 = or_null (without_fillers c.optional1);
          birth_date = some (record {
            value = mrz_date_to_display now_yy DateKind.birth c.birth;
            check_digit_valid = true;
          });
          sex = some c.sex;
          expiry_date = some (record {
            value = mrz_date_to_display now_yy DateKind.expiry c.expiry;
            check_digit_valid = true;
          });
          nationality = or_null c.nationality;
          surname = or_null (surname_of l3);
          given_names = or_null (given_names_of l3);
          check_digit_score = 3;
        })
  unfolding parse_lines
  parse_lines-line1 now_yy l3 =
      rw
        (
          code_read,
          issuer_read,
          number_read,
          number_check_read,
          optional_read,
          birth_read,
          birth_check_read,
          sex_read,
          expiry_read,
          expiry_check_read,
          nationality_read,
          fix_alpha-Letters c.issuer laid.issuer_letters,
          fix_alpha-Letters c.nationality laid.nationality_letters,
          fix_numeric-Digits c.birth laid.birth_digits,
          fix_numeric-Digits c.expiry laid.expiry_digits,
          checks-check_digit c.number,
          checks-check_digit c.birth,
          checks-check_digit c.expiry,
          sex_known,
          laid.birth,
          laid.expiry,
        )
        refl
