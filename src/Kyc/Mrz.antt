-- ===== src/Kyc/Mrz.antt =====
-- The machine-readable zone of an identity card, src/modules/kyc/ocr/mrz.parser.ts, from the three
-- lines on: a text is the list of its character codes. How `findMrzLines` cleans the text of a scan is
-- left out.
pub mod Checks
pub mod RoundTrip
use pine_backend.Base.{
  ℕ, zero, suc, ◌+◌, ◌-◌, ◌*◌, ◌%◌, Bool, true, false, not, ◌&&◌, ◌||◌, Option, none, some, List,
  [], ◌∷◌, ◌++◌, map, ◌==◌, leb, ltb, if◌then◌else◌, length, take, drop, get_elem?, filter,
}

abbrev pub filler : ℕ
filler = 60

abbrev pub is_digit : ℕ → Bool
is_digit c = leb 48 c && leb c 57

abbrev pub is_letter : ℕ → Bool
is_letter c = leb 65 c && leb c 90

-- A digit counts for itself, A to Z for 10 to 35, anything else for 0.
abbrev pub check_value : ℕ → ℕ
check_value c = if is_digit c then c - 48 else if is_letter c then c - 55 else 0

abbrev pub weight : ℕ → ℕ
weight i = if i % 3 == 0 then 7 else if i % 3 == 1 then 3 else 1

-- the loop over the field, from its index and the sum so far
pub check_sum : ℕ → ℕ → List ℕ → ℕ
check_sum i sum [] = sum
check_sum i sum (c ∷ cs) = check_sum (suc i) (sum + check_value c * weight i) cs

-- `checkDigit`
unfoldable pub check_digit : List ℕ → ℕ
unfolding check_sum
check_digit field = 48 + check_sum 0 0 field % 10

abbrev pub replace : ℕ → ℕ → List ℕ → List ℕ
replace a b = map (λ c. if c == a then b else c)

abbrev pub without_fillers : List ℕ → List ℕ
without_fillers = filter (λ c. not (c == filler))

-- `fixNumeric`: O, Q, D, I, L, Z, S, B, G and the filler
unfoldable pub fix_numeric : List ℕ → List ℕ
fix_numeric s = replace 60 48 (
    replace 71 54 (
      replace 66 56 (
        replace 83 53 (
          replace 90 50
            (replace 76 49 (replace 73 49 (replace 68 48 (replace 81 48 (replace 79 48 s)))))))))

-- `fixAlpha`: 0, 1, 5, 8, 2, 6, and no filler
unfoldable pub fix_alpha : List ℕ → List ℕ
fix_alpha s = without_fillers (
    replace 54 71 (replace 50 90 (replace 56 66 (replace 53 83 (replace 49 73 (replace 48 79 s))))))

abbrev pub fillers : ℕ → List ℕ
fillers zero = []
fillers (suc n) = filler ∷ fillers n

-- `padTo30`
abbrev pub pad_to_30 : List ℕ → List ℕ
pad_to_30 line = if leb 30 (length line) then take 30 line else line ++ fillers (30 - length line)

abbrev pub slice : ℕ → ℕ → List ℕ → List ℕ
slice from to s = take (to - from) (drop from s)

-- `x || null`
abbrev pub or_null : List ℕ → Option (List ℕ)
or_null [] = none
or_null (c ∷ cs) = some (c ∷ cs)

pub record MrzField (A : Type 0) : Type 0 where
  pub value : A
  pub check_digit_valid : Bool

-- DD/MM/YYYY in its three parts; a year that is not a number is none
pub record DisplayDate : Type 0 where
  pub day : List ℕ
  pub month : List ℕ
  pub year : Option ℕ

pub data DateKind : Type 0 where
  birth expiry : DateKind

abbrev read_digits : ℕ → List ℕ → ℕ
read_digits acc [] = acc
read_digits acc (c ∷ cs) =
    let rest = read_digits (acc * 10 + (c - 48)) cs in if is_digit c then rest else acc

-- `parseInt` of letters and digits
abbrev pub parse_int : List ℕ → Option ℕ
parse_int [] = none
parse_int (c ∷ cs) = if is_digit c then some (read_digits (c - 48) cs) else none

abbrev pub century : ℕ → DateKind → ℕ → ℕ
century now_yy DateKind.birth yy = if ltb now_yy yy then 1_900 else 2_000
century now_yy DateKind.expiry yy = 2_000

-- `mrzDateToDisplay` in a year that ends in `now_yy`
unfoldable pub mrz_date_to_display : ℕ → DateKind → List ℕ → DisplayDate
mrz_date_to_display now_yy kind yymmdd = record {
  day = slice 4 6 yymmdd;
  month = slice 2 4 yymmdd;
  year = elim (parse_int (slice 0 2 yymmdd)) [
    | none ↦ none
    | some yy ↦ some (century now_yy kind yy + yy)
  ];
}

-- `split('<<')`: the part before the first separator, and what follows it
abbrev pub split_first : List ℕ → List ℕ × List ℕ
split_first [] = ([], [])
split_first (c ∷ []) = (c ∷ [], [])
split_first (c ∷ d ∷ ds) =
    let (part, rest) = split_first (d ∷ ds) in
    if c == filler && d == filler then ([], ds) else (c ∷ part, rest)

abbrev add_word : List ℕ → List (List ℕ) → List (List ℕ)
add_word [] ws = ws
add_word (c ∷ cs) ws = (c ∷ cs) ∷ ws

-- `split(/\s+/).filter(Boolean)`, after fillers have become spaces; the first argument is the word so far
abbrev pub words_from : List ℕ → List ℕ → List (List ℕ)
words_from word [] = add_word word []
words_from word (c ∷ cs) =
    let ended = add_word word (words_from [] cs) in
    let longer = words_from (word ++ (c ∷ [])) cs in if c == filler then ended else longer

abbrev pub to_lower : ℕ → ℕ
to_lower c = if is_letter c then c + 32 else c

abbrev pub capital : List ℕ → List ℕ
capital [] = []
capital (c ∷ cs) = c ∷ map to_lower cs

abbrev pub join : List (List ℕ) → List ℕ
join [] = []
join (w ∷ []) = w
join (w ∷ v ∷ vs) = w ++ (32 ∷ join (v ∷ vs))

-- `titleCase` of a part of the name line
abbrev pub title_case : List ℕ → List ℕ
title_case part = join (map capital (words_from [] part))

abbrev pub name_field : List ℕ → List ℕ
name_field = filter (λ c. is_letter c || c == filler)

unfoldable pub surname_of : List ℕ → List ℕ
surname_of l3 = title_case (split_first (name_field l3)).0

unfoldable pub given_names_of : List ℕ → List ℕ
given_names_of l3 = title_case (split_first (split_first (name_field l3)).1).0

-- What a zone says; `check_digit_score` counts the valid digits of three.
pub record MrzResult : Type 0 where
  pub document_code : Option (List ℕ)
  pub issuing_country : Option (List ℕ)
  pub document_number : Option (MrzField (List ℕ))
  pub optional_data1 : Option (List ℕ)
  pub birth_date : Option (MrzField DisplayDate)
  pub sex : Option ℕ
  pub expiry_date : Option (MrzField DisplayDate)
  pub nationality : Option (List ℕ)
  pub surname : Option (List ℕ)
  pub given_names : Option (List ℕ)
  pub check_digit_score : ℕ

-- `checkDigit(field) === line[i]`
abbrev pub checks : List ℕ → Option ℕ → Bool
checks field none = false
checks field (some c) = check_digit field == c

abbrev pub score_of : Bool → ℕ
score_of false = 0
score_of true = 1

abbrev pub number_field : List ℕ → Bool → Option (MrzField (List ℕ))
number_field [] valid = none
number_field (c ∷ cs) valid = some (record { value = c ∷ cs; check_digit_valid = valid })

abbrev pub date_field : ℕ → DateKind → List ℕ → Bool → Option (MrzField DisplayDate)
date_field now_yy kind raw valid =
    if length raw == 6
    then some (record { value = mrz_date_to_display now_yy kind raw; check_digit_valid = valid })
    else none

abbrev pub sex_of : Option ℕ → Option ℕ
sex_of none = none
sex_of (some c) = if c == 77 || c == 70 then some c else none

abbrev is_empty : List ℕ → Bool
is_empty [] = true
is_empty (c ∷ cs) = false

-- `parse` of three lines; none is the empty result
unfoldable pub parse_lines : ℕ → List ℕ → List ℕ → List ℕ → Option MrzResult
parse_lines now_yy l1 l2 l3 =
    let number = slice 5 14 l1 in
    let number_valid = checks number (get_elem? 14 l1) in
    let birth_raw = fix_numeric (slice 0 6 l2) in
    let birth_valid = checks birth_raw (get_elem? 6 l2) in
    let expiry_raw = fix_numeric (slice 8 14 l2) in
    let expiry_valid = checks expiry_raw (get_elem? 14 l2) in
    let score = score_of number_valid + score_of birth_valid + score_of expiry_valid in
    if score == 0 && is_empty (surname_of l3)
    then none
    else some (record {
      document_code = or_null (without_fillers (slice 0 2 l1));
      issuing_country = or_null (fix_alpha (slice 2 5 l1));
      document_number = number_field (without_fillers number) number_valid;
      optional_data1 = or_null (without_fillers (slice 15 30 l1));
      birth_date = date_field now_yy DateKind.birth birth_raw birth_valid;
      sex = sex_of (get_elem? 7 l2);
      expiry_date = date_field now_yy DateKind.expiry expiry_raw expiry_valid;
      nationality = or_null (fix_alpha (slice 15 18 l2));
      surname = or_null (surname_of l3);
      given_names = or_null (given_names_of l3);
      check_digit_score = score;
    })
