-- ===== src/Options.antt =====
-- src/logging.rs: the options of a database, and their validation. A path is a string, a duration a
-- number of microseconds.
pub mod Valid
use fsql.Common.{
  ℕ, zero, suc, ◌^◌, Str, codes, Bool, false, not, ◌&&◌, ◌||◌, Option, none, some, Result, ok, err,
  execution, leb, ◌==◌, if◌then◌else◌,
}

pub data WalMode : Type 0 where
  disabled redo_log : WalMode

pub data FsyncMode : Type 0 where
  always data_only never : FsyncMode

pub data SqlDialect : Type 0 where
  fsql_dialect sqlite postgre_sql : SqlDialect

pub data FullTextTokenizer : Type 0 where
  simple whitespace exact : FullTextTokenizer

pub data VectorMetric : Type 0 where
  euclidean cosine dot_product : VectorMetric

pub data GeoCoordinateSystem : Type 0 where
  wgs84 cartesian : GeoCoordinateSystem

pub record VectorIndexOptions : Type 0 where
  pub metric : VectorMetric
  pub dimensions : Option ℕ
  pub ef_search : ℕ
  pub m : ℕ

pub record DatabaseOptions : Type 0 where
  pub page_size : ℕ
  pub cache_capacity : ℕ
  pub wal_mode : WalMode
  pub fsync_mode : FsyncMode
  pub worker_threads : ℕ
  pub sql_dialect : SqlDialect
  pub fulltext_tokenizer : FullTextTokenizer
  pub vector_index : VectorIndexOptions
  pub geo_coordinate_system : GeoCoordinateSystem
  pub slow_sql_threshold : Option ℕ
  pub slow_sql_log_path : Option Str
  pub error_log_path : Option Str
  pub binlog_path : Option Str
  pub redolog_path : Option Str
  pub undolog_path : Option Str

abbrev pub default_vector_index : VectorIndexOptions
default_vector_index = record { metric = euclidean; dimensions = none; ef_search = 128; m = 16 }

abbrev pub default_options : DatabaseOptions
default_options = record {
  page_size = 4096;
  cache_capacity = 128;
  wal_mode = disabled;
  fsync_mode = always;
  worker_threads = 1;
  sql_dialect = fsql_dialect;
  fulltext_tokenizer = simple;
  vector_index = default_vector_index;
  geo_coordinate_system = wgs84;
  slow_sql_threshold = none;
  slow_sql_log_path = none;
  error_log_path = none;
  binlog_path = none;
  redolog_path = none;
  undolog_path = none;
}

-- whether `n` is 2 ^ j for a `j` below `k`
is_power_below : ℕ → ℕ → Bool
is_power_below zero n = false
is_power_below (suc k) n = n == 2 ^ k || is_power_below k n

-- `usize::is_power_of_two`
pub is_power_of_two : ℕ → Bool
unfolding is_power_below
is_power_of_two n = is_power_below 64 n

is_zero_dimension : Option ℕ → Bool
is_zero_dimension none = false
is_zero_dimension (some n) = n == 0

unfoldable pub validate : DatabaseOptions → Result (Unit {0})
unfolding is_power_of_two is_zero_dimension
validate o =
    if not (is_power_of_two o.page_size) || not (leb 512 o.page_size && leb o.page_size 65536)
    then err (execution (codes "page size must be a power of two between 512 and 65536"))
    else if o.worker_threads == 0
    then err (execution (codes "worker thread count must be greater than zero"))
    else if is_zero_dimension o.vector_index.dimensions
    then err (execution (codes "vector dimensions must be greater than zero"))
    else if o.vector_index.ef_search == 0
    then err (execution (codes "vector ef_search must be greater than zero"))
    else if o.vector_index.m == 0
    then err (execution (codes "vector m must be greater than zero"))
    else ok tt

module _ (o : DatabaseOptions) where
  unfoldable pub with_page_size : ℕ → DatabaseOptions
  with_page_size n = record o { page_size = n }

  unfoldable pub with_cache_capacity : ℕ → DatabaseOptions
  with_cache_capacity n = record o { cache_capacity = n }

  unfoldable pub with_wal_mode : WalMode → DatabaseOptions
  with_wal_mode mode = record o { wal_mode = mode }

  unfoldable pub with_fsync_mode : FsyncMode → DatabaseOptions
  with_fsync_mode mode = record o { fsync_mode = mode }

  unfoldable pub with_worker_threads : ℕ → DatabaseOptions
  with_worker_threads n = record o { worker_threads = n }

  unfoldable pub with_sql_dialect : SqlDialect → DatabaseOptions
  with_sql_dialect dialect = record o { sql_dialect = dialect }

  unfoldable pub with_fulltext_tokenizer : FullTextTokenizer → DatabaseOptions
  with_fulltext_tokenizer tokenizer = record o { fulltext_tokenizer = tokenizer }

  unfoldable pub with_vector_index : VectorIndexOptions → DatabaseOptions
  with_vector_index index = record o { vector_index = index }

  unfoldable pub with_geo_coordinate_system : GeoCoordinateSystem → DatabaseOptions
  with_geo_coordinate_system system = record o { geo_coordinate_system = system }

  unfoldable pub with_slow_sql_log : Str → ℕ → DatabaseOptions
  with_slow_sql_log path threshold = record o {
    slow_sql_log_path = some path;
    slow_sql_threshold = some threshold;
  }

  unfoldable pub with_error_log : Str → DatabaseOptions
  with_error_log path = record o { error_log_path = some path }

  unfoldable pub with_binlog : Str → DatabaseOptions
  with_binlog path = record o { binlog_path = some path }

  unfoldable pub with_redolog : Str → DatabaseOptions
  with_redolog path = record o { redolog_path = some path; wal_mode = redo_log }

  unfoldable pub with_undolog : Str → DatabaseOptions
  with_undolog path = record o { undolog_path = some path }
