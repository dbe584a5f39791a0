-- ===== src/FeedProof/Data.antt =====
-- The data of banip_feed_proof.py: the proof state, the snapshot of the active sets, and what a call
-- that reads the world may raise.
--
-- Times are whole numbers of nanoseconds since 1970.
use homecluster_infra.Base.{
  ℕ, ◌+◌, ◌*◌, ◌≡◌, ◌⊎◌, inl, inr, refl, String, Bool, true, false, ◌&&◌, Option, List, leb,
}
use homecluster_infra.FeedProof.Parse.{Canonical, Parsed}

abbrev pub second : ℕ
second = 1000000000

-- `epoch(value, now)`
abbrev pub epoch : ℕ → ℕ → Bool
epoch value now = leb (1600000000 * second) value && leb value (now + 300 * second)

abbrev pub scope_text : String
scope_text = "independent_https_content_equals_active_nft_set"

pub data Status : Type 0 where
  verified error unknown stale : Status

-- `last_check`
pub record Check : Type 0 where
  pub status : Status
  pub reason : String
  pub at : ℕ

-- `last_verified`
pub record Good : Type 0 where
  pub parsed : Parsed
  pub at : ℕ
  pub scope : String

pub record Record : Type 0 where
  pub last_check : Option Check
  pub last_verified : Option Good

pub record Proof : Type 0 where
  pub definition_sha256 : String
  pub feeds : List (String × Record)

-- What `nft_set` says of one set.
pub record SetView : Type 0 where
  pub content : Canonical
  pub set_elements : ℕ

pub record Snapshot : Type 0 where
  pub generation : String
  pub sets : List (String × SetView)

-- Exceptions by how the program tells them apart; `other_error` is caught nowhere.
pub data Raised : Type 0 where
  proof_error : String → Raised
  value_error os_error key_error type_error subprocess_error other_error : Raised

pub data Outcome {ℓ} (A : Type ℓ) : Type ℓ where
  returned : A → Outcome A
  raised : Raised → Outcome A

unfoldable pub and_then {ℓ κ} : {A : Type ℓ} {B : Type κ} → Outcome A → (A → Outcome B) → Outcome B
and_then (returned a) f = f a
and_then (raised e) f = raised e

abbrev pub check_that {ℓ} : {A : Type ℓ} → Bool → String → Outcome A → Outcome A
check_that true reason next = next
check_that false reason next = raised (proof_error reason)

-- `str(error) if isinstance(error, ProofError) else text`
abbrev pub reason_or : String → Raised → String
reason_or text (proof_error reason) = reason
reason_or text _ = text

pub raised_returned {ℓ} : {A : Type ℓ} {e : Raised} {a : A} → raised e ≡ returned a → ⊥
raised_returned h = cc

-- Inversion of a call that returned.
pub and_then-eq-returned {ℓ κ} :
    {A : Type ℓ} {B : Type κ} (m : Outcome A) (f : A → Outcome B) {b : B}
    → and_then m f ≡ returned b
    → (a : A) × (m ≡ returned a) × (f a ≡ returned b)
unfolding and_then
and_then-eq-returned (returned a) f h = (a, refl, h)
and_then-eq-returned (raised e) f h = absurd (raised_returned h)

pub check_that-eq-returned {ℓ} :
    {A : Type ℓ} (test : Bool) (reason : String) (next : Outcome A) {a : A}
    → check_that test reason next ≡ returned a
    → (test ≡ true) × (next ≡ returned a)
check_that-eq-returned true reason next h = (refl, h)
check_that-eq-returned false reason next h = absurd (raised_returned h)

pub returned-injective {ℓ} : {A : Type ℓ} {a b : A} → returned a ≡ returned b → a ≡ b
returned-injective h = cc

pub Outcome-cases {ℓ} :
    {A : Type ℓ} (m : Outcome A) → ((a : A) × (m ≡ returned a)) ⊎ ((e : Raised) × (m ≡ raised e))
Outcome-cases (returned a) = inl (a, refl)
Outcome-cases (raised e) = inr (e, refl)
