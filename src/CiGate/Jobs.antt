-- ===== src/CiGate/Jobs.antt =====
-- `parse_jobs`: what the dict of jobs holds when the arguments are accepted.
use mathlib.Core.List.{append_assoc, append-nil}
use text.Mathlib.TextEquality.{Char-path}
use text.Mathlib.TextLemmas.{nil-append, cons-append}
use grain_protocol.Base.{
  ◌↔◌, ap₂, >>=-eq-ok, subst, map, ==_iff, eq_iff, all, all-iff-All, ◌≡◌, refl, ◌∙◌, ap, sym, arith,
  String, ◌<>◌, str_eq, code, ◌==◌, Bool, true, false, not, ◌||◌, List, [], ◌∷◌, ◌++◌, keys,
  contains, keys-append, contains-append, All, All-append, Distinct, Bool-cases, inl, inr, ok,
}
use grain_protocol.CiGate.{
  Jobs, known_results, allowed_jobs, partition, parse_job, parse_jobs_from, parse_jobs,
}

-- An argument `NAME=RESULT` for a job and a result that the gate knows.
abbrev pub IsKnown : String × String → Type 0
IsKnown (name, result) =
    (contains allowed_jobs name ≡ true) × (contains known_results result ≡ true)

abbrev pub render : String × String → String
render (name, result) = name <> ("=" <> result)

-- What holds of the dict that `parse_jobs` fills.
abbrev pub AreValid : Jobs → Type 0
AreValid jobs = All IsKnown jobs × Distinct (keys jobs)

contains-All :
    (P : String → Type 0) (names : List String) (x : String)
    → contains names x ≡ true
    → All P names
    → P x
unfolding contains
contains-All P [] x h a = cc
contains-All P (y ∷ names) x h a = elim (Bool-cases (str_eq y x)) [
  | inl same ↦ subst P ((eq_iff y x).0 same) a.0
  | inr other ↦ contains-All P names x (ground arith) a.1
]

Distinct-append :
    (xs : List String) (x : String)
    → Distinct xs
    → contains xs x ≡ false
    → Distinct (xs ++ (x ∷ []))
unfolding contains
Distinct-append [] x d h = (refl, tt)
Distinct-append (y ∷ xs) x (fresh, d) h = (
  contains-append xs (x ∷ []) y ∙ ground (arith, eq_iff x y, eq_iff y x),
  Distinct-append xs x d (ground arith),
)

Distinct-middle :
    (xs ys : List String) (x : String) → Distinct (xs ++ (x ∷ ys)) → contains xs x ≡ false
unfolding contains
Distinct-middle [] ys x d = refl
Distinct-middle (y ∷ xs) ys x (fresh, d) =
    let apart = sym (contains-append xs (x ∷ ys) y) ∙ fresh in
    ground (arith, apart, eq_iff x y, eq_iff y x, Distinct-middle xs ys x d)

-- A name with no sign is cut off whole.
abbrev has_sign : String → Bool
has_sign String.[] = false
has_sign (String.◌∷◌ c s) = code c == b'=' || has_sign s

allowed_without_sign : all (λ n. not (has_sign n)) allowed_jobs ≡ true
unfolding all
allowed_without_sign = refl

allowed-NoSign : (name : String) → contains allowed_jobs name ≡ true → has_sign name ≡ false
allowed-NoSign name h =
    let plain =
      contains-All (λ n. not (has_sign n) ≡ true) allowed_jobs name h
        ((all-iff-All (λ n. not (has_sign n)) allowed_jobs).0 allowed_without_sign) in
    ground (arith, plain)

sign-append : (s : String) → "=" <> s ≡ String.◌∷◌ "=" s
sign-append s = cons-append "=" "" s ∙ ap (λ t. String.◌∷◌ "=" t) (nil-append s)

partition-render :
    (name result : String)
    → has_sign name ≡ false
    → partition (render (name, result)) ≡ (name, true, result)
unfolding partition
partition-render String.[] result h = rw (nil-append, sign-append) refl
partition-render (String.◌∷◌ c name) result h =
    rw cons-append (ground (arith, partition-render name result))

render-partition :
    (value name result : String)
    → partition value ≡ (name, true, result)
    → value ≡ render (name, result)
unfolding partition
render-partition String.[] name result h = cc
render-partition (String.◌∷◌ c value) name result h = elim (Bool-cases (code c == b'=')) [
  | inl sign ↦
      let at_sign : (name ≡ "") × (result ≡ value) = (ground arith, ground arith) in
      let c_is : c ≡ "=" = Char-path c "=" ((==_iff (code c) b'=').0 sign) in
      rw (at_sign.0, at_sign.1, c_is) (sym (nil-append _ ∙ sign-append value))
  | inr other ↦
      let before = (partition value).0 in
      let cut : partition value ≡ (before, true, result) = ground arith in
      let whole : name ≡ String.◌∷◌ c before = ground arith in
      rw (whole, cons-append) (ap (λ t. String.◌∷◌ c t) (render-partition value before result cut))
]

allowed-ne-empty : (name : String) → contains allowed_jobs name ≡ true → str_eq name "" ≡ false
allowed-ne-empty name h =
    contains-All (λ n. str_eq n "" ≡ false) allowed_jobs name h
      (
        refl,
        (refl, (refl, (refl, (refl, (refl, (refl, (refl, (refl, (refl, (refl, (refl, tt))))))))))),
      )

parse_job_sound :
    (jobs : Jobs) (value name result : String)
    → parse_job jobs value ≡ ok (name, result)
    → (partition value ≡ (name, true, result))
      × IsKnown (name, result)
      × (contains (keys jobs) name ≡ false)
unfolding parse_job
parse_job_sound jobs value name result h = ground arith

parse_job_complete :
    (jobs : Jobs) (name result : String)
    → IsKnown (name, result)
    → contains (keys jobs) name ≡ false
    → parse_job jobs (render (name, result)) ≡ ok (name, result)
unfolding parse_job
parse_job_complete jobs name result known fresh =
    let plain = allowed-NoSign name known.0 in
    rw (partition-render name result plain) (ground (arith, allowed-ne-empty name))

AreValid-append :
    (jobs : Jobs) (name result : String)
    → AreValid jobs
    → IsKnown (name, result)
    → contains (keys jobs) name ≡ false
    → AreValid (jobs ++ ((name, result) ∷ []))
unfolding keys
AreValid-append jobs name result (known, distinct) k fresh = (
  All-append IsKnown jobs _ known (k, tt),
  rw keys-append (Distinct-append (keys jobs) name distinct fresh),
)

parse_jobs_from_sound :
    (jobs : Jobs) (values : List String) (out : Jobs)
    → AreValid jobs
    → parse_jobs_from jobs values ≡ ok out
    → (more : Jobs) × (out ≡ jobs ++ more) × (values ≡ map render more) × AreValid out
unfolding parse_jobs_from
parse_jobs_from_sound jobs [] out valid h =
    let same : jobs ≡ out = cc in
    ([], sym same ∙ sym (append-nil jobs), refl, subst AreValid same valid)
parse_jobs_from_sound jobs (value ∷ values) out valid h =
    let ((name, result), one, rest) = >>=-eq-ok (parse_job jobs value) _ h in
    let (cut, known, fresh) = parse_job_sound jobs value name result one in
    let (more, whole, same, valid') =
      parse_jobs_from_sound (jobs ++ ((name, result) ∷ [])) values out
        (AreValid-append jobs name result valid known fresh) rest in
    (
      (name, result) ∷ more,
      whole ∙ append_assoc jobs ((name, result) ∷ []) more,
      ap₂ ◌∷◌ (render-partition value name result cut) same,
      valid',
    )

All-middle :
    (jobs more : Jobs) (job : String × String) → All IsKnown (jobs ++ (job ∷ more)) → IsKnown job
All-middle [] more job h = h.0
All-middle (j ∷ jobs) more job h = All-middle jobs more job h.1

parse_jobs_from_complete :
    (jobs more : Jobs)
    → AreValid (jobs ++ more)
    → parse_jobs_from jobs (map render more) ≡ ok (jobs ++ more)
unfolding parse_jobs_from keys
parse_jobs_from_complete jobs [] valid = ap ok (sym (append-nil jobs))
parse_jobs_from_complete jobs ((name, result) ∷ more) (known, distinct) =
    let fresh =
      Distinct-middle (keys jobs) (keys more) name
        (rw (keys-append jobs ((name, result) ∷ more)) at distinct) in
    let one =
      parse_job_complete jobs name result (All-middle jobs more (name, result) known) fresh in
    let regroup = append_assoc jobs ((name, result) ∷ []) more in
    rw one (
      parse_jobs_from_complete (jobs ++ ((name, result) ∷ [])) more
        (subst AreValid (sym regroup) (known, distinct))
      ∙ ap ok regroup)

-- The arguments are accepted exactly when they spell jobs and results that the gate knows, no job
-- twice; the dict then holds just what they spell, in their order.
pub parse_jobs_iff :
    (values : List String) (jobs : Jobs)
    → (parse_jobs values ≡ ok jobs) ↔ ((values ≡ map render jobs) × AreValid jobs)
unfolding parse_jobs keys
parse_jobs_iff values jobs = (
  λ h.
      let (more, whole, same, valid) = parse_jobs_from_sound [] values jobs (tt, tt) h in
      (same ∙ ap (map render) (sym whole), valid),
  λ h. ap parse_jobs h.0 ∙ parse_jobs_from_complete [] jobs h.1,
)
