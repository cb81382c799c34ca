-- ===== src/Examples/Vault.antt =====
-- The vault at concrete inputs: a platform whose seal is the plaintext with a tag of zeros, a tenant
-- with a key of zeros, and one session, live until 1000.
use vibe_shield.Prelude.{
  ◌≡◌, ◌∙◌, refl, ap, sym, true, false, List, [], ◌∷◌, ◌++◌, Option, none, some, Text, codes,
  same_text, ok, arith, length,
}
use vibe_shield.Vault.Crypto.{Platform, IsCollisionFree, key_length}
use vibe_shield.Vault.ApplianceSecrets.{
  ApplianceSettings, fingerprint_of, get_anthropic_key, set_anthropic_key, clear_anthropic_key,
  key_of, get_anthropic_key-set_anthropic_key,
}
use vibe_shield.Vault.Rows.{Session, Db}
use vibe_shield.Vault.Sessions.{CreateSession, create}
use vibe_shield.Vault.Tokens.Ledger.{Entry, assign}
use vibe_shield.Vault.Tokens.Laws.{Implements, IsReady, allocate_lem, Carries}
use vibe_shield.Vault.Tokens.Promises.{
  Outcome, one_more, none_more, ready_in, allocate-Outcome, resolve-allocate,
  resolve-allocate_other, allocate_idempotent, allocate_injective,
}
use vibe_shield.Vault.Tokens.Lifecycle.{Reaches, start, next, created, Reaches-Implements}
use vibe_shield.Vault.Tokens.{Allocated, allocate, resolve}

abbrev zeros_16 : Text
zeros_16 = 0 ∷ 0 ∷ 0 ∷ 0 ∷ 0 ∷ 0 ∷ 0 ∷ 0 ∷ 0 ∷ 0 ∷ 0 ∷ 0 ∷ 0 ∷ 0 ∷ 0 ∷ 0 ∷ []

abbrev pub zeros_32 : Text
zeros_32 = zeros_16 ++ zeros_16

abbrev pub nonce_0 : Text
nonce_0 = 0 ∷ 0 ∷ 0 ∷ 0 ∷ 0 ∷ 0 ∷ 0 ∷ 0 ∷ 0 ∷ 0 ∷ 0 ∷ 0 ∷ []

abbrev pub plain : Platform
plain = record {
  hmac = λ key m. m;
  seal = λ key nonce aad m. (m, zeros_16);
  unseal = λ key nonce aad c tag. some c;
  encode = λ s. s;
  decode = λ s. s;
  well_formed = λ s. true;
  unseal-seal = λ key nonce aad m. refl;
  tag_length = λ key nonce aad m. refl;
  decode-encode = λ s h. refl;
}

abbrev pub plain_free : IsCollisionFree plain
plain_free = record { apart = λ key m m' e. e }

abbrev pub one_key : Text → Option Text
one_key tenant = some zeros_32

abbrev input : CreateSession
input = record {
  tenant_id = codes "firm";
  app_id = codes "mybooks";
  user_id = codes "ann";
  ttl_minutes = some 1;
  policy_id = none;
}

abbrev pub session_1 : Text
session_1 = codes "s1"

abbrev pub row_1 : Session
row_1 = record {
  id = session_1;
  tenant_id = codes "firm";
  app_id = codes "mybooks";
  user_id = codes "ann";
  policy_id = none;
  created_at = 0;
  expires_at = 60000;
}

abbrev empty_db : Db
empty_db = record { sessions = []; tokens = []; token_index = [] }

abbrev pub one_session : Db
one_session = record { sessions = row_1 ∷ []; tokens = []; token_index = [] }

pub one_session-Implements : Implements plain one_key plain_free one_session []
one_session-Implements = record { ledger = tt; rows = tt }

one_session-IsReady : IsReady plain one_key plain_free one_session session_1 10
unfolding same_text
one_session-IsReady = record {
  row = row_1;
  key = zeros_32;
  found = refl;
  live = omega arith;
  keyed = refl;
  key_size = refl;
}

abbrev person : Text
person = codes "PERSON"

abbrev ann : Text
ann = codes "Ann"

allocate_lem_example :
    Carries plain one_key plain_free one_session [] one_session-Implements session_1 10
      one_session-IsReady nonce_0 person ann refl refl
      (assign session_1 person ann []).1
      (assign session_1 person ann []).0
      false
allocate_lem_example =
    allocate_lem plain one_key plain_free one_session [] one_session-Implements session_1 10
      one_session-IsReady nonce_0 person ann refl refl

resolve-allocate_example :
    (a : Allocated) × (db' : Db) × (allocate plain one_key nonce_0 10 session_1 person ann
        one_session
      ≡ ok (a, db'))
    × (resolve plain one_key session_1 a.token db' ≡ ok (some ann))
resolve-allocate_example =
    resolve-allocate plain one_key plain_free one_session [] one_session-Implements nonce_0
      session_1 10 person ann one_session-IsReady refl refl

-- The tables after Ann has a token.
first :
    (a : Allocated) × (db' : Db) × (allocate plain one_key nonce_0 10 session_1 person ann
        one_session
      ≡ ok (a, db'))
    × (resolve plain one_key session_1 a.token db' ≡ ok (some ann))
first =
    resolve-allocate plain one_key plain_free one_session [] one_session-Implements nonce_0
      session_1 10 person ann one_session-IsReady refl refl

first-Outcome : Outcome plain one_key plain_free first.0 first.1 one_session session_1 person ann []
first-Outcome =
    allocate-Outcome plain one_key plain_free one_session [] one_session-Implements nonce_0
      session_1 10 person ann one_session-IsReady refl refl first.0 first.1 first.2

abbrev bob : Text
bob = codes "Bob"

-- And after Bob has one too.
second :
    (a : Allocated) × (db' : Db) × (allocate plain one_key nonce_0 10 session_1 person bob first.1
      ≡ ok (a, db'))
    × (resolve plain one_key session_1 a.token db' ≡ ok (some bob))
second =
    resolve-allocate plain one_key plain_free first.1 (assign session_1 person ann []).1
      first-Outcome.implemented nonce_0 session_1 10 person bob
      (ready_in plain one_key plain_free first-Outcome.same_sessions one_session-IsReady) refl refl

second-Outcome :
    Outcome plain one_key plain_free second.0 second.1 first.1 session_1 person bob
      (assign session_1 person ann []).1
second-Outcome =
    allocate-Outcome plain one_key plain_free first.1 (assign session_1 person ann []).1
      first-Outcome.implemented nonce_0 session_1 10 person bob
      (ready_in plain one_key plain_free first-Outcome.same_sessions one_session-IsReady) refl refl
      second.0 second.1 second.2

second-IsReady : IsReady plain one_key plain_free second.1 session_1 10
second-IsReady =
    ready_in plain one_key plain_free (second-Outcome.same_sessions ∙ first-Outcome.same_sessions)
      one_session-IsReady

resolve-allocate_other_example :
    resolve plain one_key session_1 first.0.token second.1 ≡ ok (some ann)
resolve-allocate_other_example =
    resolve-allocate_other plain one_key plain_free first.1 (assign session_1 person ann []).1
      first-Outcome.implemented nonce_0 session_1 10 person bob
      (ready_in plain one_key plain_free first-Outcome.same_sessions one_session-IsReady) refl refl
      session_1 first.0.token ann second.0 second.1 10
      (ready_in plain one_key plain_free first-Outcome.same_sessions one_session-IsReady) first.3
      second.2

allocate_idempotent_example :
    allocate plain one_key nonce_0 10 session_1 (codes "CLIENT") ann first.1
    ≡ ok (record { token = first.0.token; reused = true }, first.1)
allocate_idempotent_example =
    allocate_idempotent plain one_key plain_free one_session [] one_session-Implements nonce_0
      session_1 10 person ann one_session-IsReady refl refl nonce_0 (codes "CLIENT") 10 first.0
      first.1 refl one_session-IsReady first.2

again :
    allocate plain one_key nonce_0 10 session_1 person ann first.1
    ≡ ok (record { token = first.0.token; reused = true }, first.1)
again =
    allocate_idempotent plain one_key plain_free one_session [] one_session-Implements nonce_0
      session_1 10 person ann one_session-IsReady refl refl nonce_0 person 10 first.0 first.1 refl
      one_session-IsReady first.2

-- Ann again, after Bob.
third :
    (a : Allocated) × (db' : Db) × (allocate plain one_key nonce_0 10 session_1 person ann second.1
      ≡ ok (a, db'))
    × (resolve plain one_key session_1 a.token db' ≡ ok (some ann))
third =
    resolve-allocate plain one_key plain_free second.1
      (assign session_1 person bob (assign session_1 person ann []).1).1 second-Outcome.implemented
      nonce_0 session_1 10 person ann second-IsReady refl refl

third-Outcome :
    Outcome plain one_key plain_free third.0 third.1 second.1 session_1 person ann
      (assign session_1 person bob (assign session_1 person ann []).1).1
third-Outcome =
    allocate-Outcome plain one_key plain_free second.1
      (assign session_1 person bob (assign session_1 person ann []).1).1 second-Outcome.implemented
      nonce_0 session_1 10 person ann second-IsReady refl refl third.0 third.1 third.2

assigned_again :
    (assign session_1 person ann []).0
    ≡ (assign session_1 person ann
        (assign session_1 person bob (assign session_1 person ann []).1).1).0
unfolding assign same_text
assigned_again = refl

allocate_injective_example : ann ≡ ann
allocate_injective_example =
    allocate_injective plain one_key plain_free one_session [] one_session-Implements nonce_0
      session_1 10 person ann one_session-IsReady refl refl nonce_0 person ann 10 first.0 third.0
      first.1 second.1 third.1 refl refl one_session-IsReady first.2
      (one_more first.1 nonce_0 session_1 10 person bob second.0
        (ready_in plain one_key plain_free first-Outcome.same_sessions one_session-IsReady) refl
        refl second.2 (none_more second.1))
      third.2 (sym first-Outcome.token_assigned ∙ assigned_again ∙ third-Outcome.token_assigned)

all_sized : (tenant key : Text) → one_key tenant ≡ some key → length key ≡ key_length
all_sized tenant key e = let same : zeros_32 ≡ key = cc in ap length (sym same)

abbrev one_made : Db
one_made = (create input session_1 0 empty_db).1

one_made-Reaches : Reaches plain one_key plain_free one_made
one_made-Reaches = next start (created input session_1 0 refl)

Reaches-Implements_example : (l : List Entry) × Implements plain one_key plain_free one_made l
Reaches-Implements_example = Reaches-Implements plain one_key plain_free all_sized one_made-Reaches

abbrev unset : ApplianceSettings
unset = record {
  anthropic_api_key_ciphertext = none;
  anthropic_api_key_fingerprint = none;
  anthropic_api_key_set_at = none;
  anthropic_api_key_set_by = none;
  updated_at = 0;
}

abbrev same : Text → Text
same t = t

get_anthropic_key-set_anthropic_key_example :
    (table : Option ApplianceSettings) × (set_anthropic_key plain same zeros_32 nonce_0
        (codes "sk")
        ann
        10
        (some unset)
      ≡ ok (fingerprint_of same (codes "sk"), table))
    × (key_of plain same zeros_32 (get_anthropic_key plain same zeros_32 table)
        ≡ ok (some (codes "sk")))
    × (key_of plain same zeros_32
          (get_anthropic_key plain same zeros_32 (clear_anthropic_key ann 20 table))
        ≡ ok none)
get_anthropic_key-set_anthropic_key_example =
    get_anthropic_key-set_anthropic_key plain same zeros_32 nonce_0 (codes "k") ann ann b's' 10 20
      unset refl refl refl
