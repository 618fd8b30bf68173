-- ===== src/Http/Health.antt =====
-- `Readiness` of order-service/internal/handler/health.go and the check of the schema in
-- order-service/internal/repository/schema.go.
use microservice_architectur.Base.{
  ℕ, ◌≡◌, refl, Bool, true, false, Option, none, some, ltb, if◌then◌else◌, Error, arith,
}

-- The answers of the query for the newest version: a missing table (42P01) has an error of its own.
pub data VersionAnswer : Type 0 where
  version : ℕ → VersionAnswer
  undefined_table : VersionAnswer
  failed : Error → VersionAnswer

abbrev pub not_migrated : Error
not_migrated = Error.opaque 40

abbrev pub too_old : Error
too_old = Error.opaque 41

-- Ping of SchemaPinger: nil is `none`.
unfoldable pub ping : ℕ → VersionAnswer → Option Error
ping want undefined_table = some not_migrated
ping want (failed e) = some e
ping want (version have) = if ltb have want then some too_old else none

pub data Status : Type 0 where
  up unavailable shutting_down : Status

-- What is answered: the code, the status, and the errors of the two checks.
pub record Report : Type 0 where
  pub code : ℕ
  pub status : Status
  pub db : Option Error
  pub cache : Option Error

-- Readiness
unfoldable pub readiness : Bool → Option Error → Option Error → Report
readiness true cache db = record { code = 503; status = shutting_down; db = none; cache = none }
readiness false cache (some e) = record {
  code = 503;
  status = unavailable;
  db = some e;
  cache = cache;
}
readiness false cache none = record { code = 200; status = up; db = none; cache = cache }

ready-schema :
    (want : ℕ) (answer : VersionAnswer) (cache : Option Error)
    → (readiness false cache (ping want answer)).code ≡ 200
    → (have : ℕ) × (answer ≡ version have) × (ltb have want ≡ false)
unfolding readiness ping
ready-schema want undefined_table cache e = absurd (ground arith)
ready-schema want (failed x) cache e = absurd (ground arith)
ready-schema want (version have) cache e = (have, refl, ground arith)
