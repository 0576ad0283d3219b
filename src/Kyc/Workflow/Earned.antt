-- ===== src/Kyc/Workflow/Earned.antt =====
-- That approved users have an approved application, and the writes that keep this.
use pine_backend.Base.{
  ℕ, ◌<◌, ◌≡◌, ◌≢◌, refl, sym, ap, ◌∙◌, true, Option, none, some, ◌==◌, ==_iff, if◌then◌else◌,
  find?, find?-test, find?-update_where, arith, Bool-cases, Option-cases, inl, inr,
}
use pine_backend.Kyc.Workflow.{
  KycDb, Application, Applicant, KycStatus, approved, find_application, update_application,
  set_both,
}

abbrev pub find_applicant : ℕ → KycDb → Option Applicant
find_applicant id db = find? (λ (u : Applicant). u.id == id) db.users

-- The user has an application that is approved.
abbrev pub Approved : ℕ → KycDb → Type 0
Approved id db =
    (i : ℕ) × (a : Application) × (find_application i db ≡ some a)
    × (a.user_id ≡ id)
    × (a.status ≡ approved)

-- Approved users have an approved application, and ids come from the counter.
pub record IsEarned (db : KycDb) : Type 0 where
  pub below : (i : ℕ) (a : Application) → find_application i db ≡ some a → i < db.next
  pub earned :
      (id : ℕ) (u : Applicant)
      → find_applicant id db ≡ some u
      → u.kyc_status ≡ approved
      → Approved id db

-- An update of one application that leaves its id alone.
pub updated :
    (t i : ℕ) (f : Application → Application) (db : KycDb) (a : Application)
    → ((x : Application) → (f x).id ≡ x.id)
    → find_application i db ≡ some a
    → find_application i (update_application t f db) ≡ some (if a.id == t then f a else a)
updated t i f db a same found =
    let after =
      find?-update_where (λ (x : Application). x.id == i) (λ (x : Application). x.id == t) f
        db.applications (λ x. rw (same x) refl) in
    after ∙ (rw found refl)

pub updated_below :
    (t : ℕ) (f : Application → Application) (db : KycDb)
    → ((x : Application) → (f x).id ≡ x.id)
    → ((i : ℕ) (a : Application) → find_application i db ≡ some a → i < db.next)
    → (i : ℕ) (b : Application) → find_application i (update_application t f db) ≡ some b
    → i < db.next
updated_below t f db same below i b found = elim (Option-cases (find_application i db)) [
  | inr (a, before) ↦ below i a before
  | inl missing ↦
      let after =
        find?-update_where (λ (x : Application). x.id == i) (λ (x : Application). x.id == t) f
          db.applications (λ x. rw (same x) refl) in
      let gone : find_application i (update_application t f db) ≡ none =
        after ∙ (rw missing refl) in
      let bad : none ≡ some b = sym gone ∙ found in cc
]

-- Such an update that also leaves the owner and the status alone.
pub kept-IsEarned :
    (t : ℕ) (f : Application → Application) (db : KycDb)
    → ((x : Application)
        → ((f x).id ≡ x.id) × ((f x).user_id ≡ x.user_id) × ((f x).status ≡ x.status))
    → IsEarned db
    → IsEarned (update_application t f db)
kept-IsEarned t f db keeps h = record {
  below = updated_below t f db (λ x. (keeps x).0) h.below;
  earned = λ id u found good.
      let (i, a, row, own, status) = h.earned id u found good in
      elim (Bool-cases (a.id == t)) [
        | inl hit ↦ (
          i,
          f a,
          updated t i f db a (λ x. (keeps x).0) row ∙ (rw hit refl),
          (keeps a).1 ∙ own,
          (keeps a).2 ∙ status,
        )
        | inr missed ↦
            (i, a, updated t i f db a (λ x. (keeps x).0) row ∙ (rw missed refl), own, status)
      ];
}

pub set_both_found :
    (t uid : ℕ) (status : KycStatus) (db : KycDb) (a : Application)
    → find_application t db ≡ some a
    → find_application t (set_both t uid status db) ≡ some (record a { status = status })
set_both_found t uid status db a found =
    let own = find?-test (λ (x : Application). x.id == t) db.applications a found in
    updated t t (λ (x : Application). record x { status = status }) db a (λ x. refl) found
    ∙ (rw own refl)

pub set_user :
    (t uid id : ℕ) (status : KycStatus) (db : KycDb) (v : Applicant)
    → find_applicant id db ≡ some v
    → find_applicant id (set_both t uid status db)
      ≡ some (if v.id == uid then record v { kyc_status = status } else v)
set_user t uid id status db v found =
    find?-update_where (λ (x : Applicant). x.id == id) (λ (x : Applicant). x.id == uid)
      (λ (x : Applicant). record x { kyc_status = status }) db.users (λ x. refl)
    ∙ (rw found refl)

pub no_user :
    (t uid id : ℕ) (status : KycStatus) (db : KycDb)
    → find_applicant id db ≡ none
    → find_applicant id (set_both t uid status db) ≡ none
no_user t uid id status db missing =
    find?-update_where (λ (x : Applicant). x.id == id) (λ (x : Applicant). x.id == uid)
      (λ (x : Applicant). record x { kyc_status = status }) db.users (λ x. refl)
    ∙ (rw missing refl)

-- The approved application of another user is not the one that is written.
pub other_stays :
    (t uid id : ℕ) (status : KycStatus) (db : KycDb) (a : Application)
    → find_application t db ≡ some a
    → a.user_id ≡ uid
    → id ≢ uid
    → Approved id db
    → Approved id (set_both t uid status db)
other_stays t uid id status db a found mine other (i, b, row, own, good) =
    elim (Bool-cases (b.id == t)) [
      | inl hit ↦
          let here : (b.id == i) ≡ true =
            find?-test (λ (x : Application). x.id == i) db.applications b row in
          let same : i ≡ t = sym ((==_iff b.id i).0 here) ∙ (==_iff b.id t).0 hit in
          let both : some b ≡ some a = sym row ∙ ap (λ j. find_application j db) same ∙ found in
          let one : b ≡ a = cc both in
          absurd (other (sym own ∙ ap (λ (x : Application). x.user_id) one ∙ mine))
      | inr missed ↦ (
        i,
        b,
        updated t i (λ (x : Application). record x { status = status }) db b (λ x. refl) row
            ∙ (rw missed refl),
        own,
        good,
      )
    ]

pub set_both-IsEarned :
    (t uid : ℕ) (status : KycStatus) (db : KycDb) (a : Application)
    → find_application t db ≡ some a
    → a.user_id ≡ uid
    → IsEarned db
    → IsEarned (set_both t uid status db)
set_both-IsEarned t uid status db a found mine h = record {
  below =
      updated_below t (λ (x : Application). record x { status = status }) db (λ x. refl) h.below;
  earned = λ id u user good. elim (Option-cases (find_applicant id db)) [
    | inl missing ↦ let bad : none ≡ some u = sym (no_user t uid id status db missing) ∙ user in cc
    | inr (v, before) ↦
        let own_id : (v.id == id) ≡ true =
          find?-test (λ (x : Applicant). x.id == id) db.users v before in
        let now = sym user ∙ set_user t uid id status db v before in
        elim (Bool-cases (v.id == uid)) [
          | inl hit ↦
              let same : uid ≡ id = sym ((==_iff v.id uid).0 hit) ∙ (==_iff v.id id).0 own_id in
              let written : some u ≡ some (record v { kyc_status = status }) = rw hit at now in
              let reads : u ≡ record v { kyc_status = status } = cc written in
              (
                t,
                record a { status = status },
                set_both_found t uid status db a found,
                mine ∙ same,
                sym (ap (λ (x : Applicant). x.kyc_status) reads) ∙ good,
              )
          | inr missed ↦
              let kept : some u ≡ some v = rw missed at now in
              let reads : u ≡ v = cc kept in
              other_stays t uid id status db a found mine (λ e. ground arith)
                (h.earned id v before (sym (ap (λ (x : Applicant). x.kyc_status) reads) ∙ good))
        ]
  ];
}
