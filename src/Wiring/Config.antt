-- ===== src/Wiring/Config.antt =====
-- order-service/internal/config/config.go.
--
-- The environment gives a text for each variable, "" for one that is not set; strconv.Atoi and
-- time.ParseDuration are parameters, `none` being their errors. Durations are in nanoseconds; a
-- setting that is read as positive is a natural number.
use Prim.Native.Nat.{◌%◌}
use microservice_architectur.Base.{
  ℕ, suc, ◌-◌, ◌*◌, ◌^◌, Option, some, List, [], ◌∷◌, ltb, if◌then◌else◌, Error, Result, ok, err,
}
use microservice_architectur.Service.Place.{ℤ, pos, negsuc}

pub data Variable : Type 0 where
  database_url port redis_addr db_max_conns db_min_conns db_acquire_timeout : Variable
  redis_breaker_threshold redis_breaker_open_for shutdown_drain_delay : Variable
  pay_stuck_after pay_expire_after reconcile_every reconcile_window : Variable

abbrev pub Text : Type 0
Text = List ℕ

pub record Config : Type 0 where
  pub database_url : Text
  pub port : Text
  pub redis_addr : Text
  pub db_max_conns : ℤ
  pub db_min_conns : ℤ
  pub db_acquire_timeout : ℕ
  pub redis_breaker_threshold : ℕ
  pub redis_breaker_open_for : ℕ
  pub shutdown_drain_delay : ℕ
  pub pay_stuck_after : ℕ
  pub pay_expire_after : ℕ
  pub reconcile_every : ℕ
  pub reconcile_window : ℕ

-- The conversion to int32.
unfoldable pub int32 : ℕ → ℤ
int32 n = let low = n % 2 ^ 32 in if ltb low (2 ^ 31) then pos low else negsuc (2 ^ 32 - 1 - low)

abbrev pub database_url_required : Error
database_url_required = Error.opaque 30

abbrev pub second : ℕ
second = 1000000000

-- A value that was read and is above 0, or the fallback.
unfoldable pub positive_or : ℕ → Option ℤ → ℕ
positive_or fallback (some (pos (suc n))) = suc n
positive_or fallback _ = fallback

module _ (getenv : Variable → Text) (atoi parse_duration : Text → Option ℤ)
    (port redis : Text) where
  -- getEnv
  unfoldable pub get_env : Variable → Text → Text
  get_env key fallback = elim (getenv key) [ [] ↦ fallback | c ∷ cs ↦ c ∷ cs ]

  -- getInt
  unfoldable pub get_int : Variable → ℕ → ℕ
  unfolding positive_or
  get_int key fallback = positive_or fallback (atoi (getenv key))

  -- getDuration
  unfoldable pub get_duration : Variable → ℕ → ℕ
  unfolding positive_or
  get_duration key fallback = positive_or fallback (parse_duration (getenv key))

  -- The settings, if there is the URL of a database; `port` and `redis` are ":8083" and
  -- "localhost:6379".
  unfoldable pub settings : Text → Config
  unfolding get_env get_int get_duration int32
  settings url = record {
    database_url = url;
    port = get_env Variable.port port;
    redis_addr = get_env Variable.redis_addr redis;
    db_max_conns = int32 (get_int Variable.db_max_conns 10);
    db_min_conns = int32 (get_int Variable.db_min_conns 2);
    db_acquire_timeout = get_duration Variable.db_acquire_timeout second;
    redis_breaker_threshold = get_int Variable.redis_breaker_threshold 5;
    redis_breaker_open_for = get_duration Variable.redis_breaker_open_for (5 * second);
    shutdown_drain_delay = get_duration Variable.shutdown_drain_delay (5 * second);
    pay_stuck_after = get_duration Variable.pay_stuck_after (120 * second);
    pay_expire_after = get_duration Variable.pay_expire_after (900 * second);
    reconcile_every = get_duration Variable.reconcile_every (3600 * second);
    reconcile_window = get_duration Variable.reconcile_window (172800 * second);
  }

  -- Load
  unfoldable pub load : Result Config
  unfolding settings
  load = elim (getenv Variable.database_url) [
    | [] ↦ err database_url_required
    | c ∷ cs ↦ ok (settings (c ∷ cs))
  ]
