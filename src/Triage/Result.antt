-- ===== src/Triage/Result.antt =====
-- The exceptions of triage.py and what raises them. A value of `Result` is an answer or one exception.
use skodun.Prelude.{Bool, true, false, ◌≡◌, refl, ap}
use skodun.Prelude.Text.{Text}

-- `ArtifactError`, by the check that failed.
pub data ArtifactProblem : Type 0 where
  not_object : ArtifactProblem
  missing : Text → ArtifactProblem
  not_string : Text → ArtifactProblem
  not_a_list : ArtifactProblem
  non_object_entry : ArtifactProblem
  not_an_integer : ArtifactProblem
  total_differs : ArtifactProblem

-- `TriageError`, by the check that failed.
pub data Refusal : Type 0 where
  empty_reason placeholder short_reason : Refusal
  ref_not_text empty_ref long_ref prose_ref nameless_ref : Refusal
  not_cleared : Refusal
  no_refuter_pass no_annotation no_verdict other_verdict thin_reasoning reasoning_not_text : Refusal
  unattributed unknown_family same_family other_pass : Refusal

-- `FindingNotFound` is a `TriageError` of its own; `value_error` is raised by the store, and `unexpected`
-- is any other exception, by its `repr`.
pub data Error : Type 0 where
  artifact_error : ArtifactProblem → Error
  finding_not_found : Error
  triage_error : Refusal → Error
  value_error : Error
  unexpected : Text → Error

-- What a function of these modules ends with.
pub data Result {ℓ} (Answer : Type ℓ) : Type ℓ where
  err : Error → Result Answer
  ok : Answer → Result Answer

-- `if not test: raise why`
abbrev pub require : Bool → Error → Result (Unit {0})
require false why = err why
require true why = ok tt

infixl 5 ◌>>=◌
-- An exception ends the rest of the block.
abbrev pub ◌>>=◌ {ℓ κ} :
    {Got : Type ℓ} {Answer : Type κ} → Result Got → (Got → Result Answer) → Result Answer
err why >>= rest = err why
ok got >>= rest = rest got

infixl 5 ◌>>◌
abbrev pub ◌>>◌ {κ} : {Answer : Type κ} → Result (Unit {0}) → Result Answer → Result Answer
checked >> rest = checked >>= λ u. rest

-- A block that returned did so through its first statement.
pub >>=-eq-ok {ℓ κ} :
    {Got : Type ℓ} {B : Type κ} (first : Result Got) (rest : Got → Result B) {answer : B}
    → (first >>= rest) ≡ ok answer
    → (got : Got) × (first ≡ ok got) × (rest got ≡ ok answer)
>>=-eq-ok (err why) rest returned = cc
>>=-eq-ok (ok got) rest returned = (got, refl, returned)

pub ok-injective {ℓ} : {A : Type ℓ} {a b : A} → ok a ≡ ok b → a ≡ b
ok-injective h = cc

-- A check that let the rest return was passed.
pub require-ok {ℓ} :
    (b : Bool) {A : Type ℓ} (e : Error) (m : Result A) {a : A}
    → (require b e >> m) ≡ ok a
    → (b ≡ true) × (m ≡ ok a)
require-ok true e m h = (refl, h)
require-ok false e m h = cc

pub >>=-ok {ℓ κ} :
    {A : Type ℓ} {B : Type κ} {m : Result A} {a : A} (f : A → Result B) → m ≡ ok a → (m >>= f) ≡ f a
>>=-ok f e = ap (λ x. x >>= f) e
