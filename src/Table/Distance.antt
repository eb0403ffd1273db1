-- ===== src/Table/Distance.antt =====
-- Distances of vectors and of points, and the scores of the rows that a query orders.
pub mod Workers
use fsql.Common.{
  ℕ, zero, suc, ◌+◌, ◌-◌, ◌/◌, Str, codes, ◌||◌, List, [], ◌∷◌, ◌++◌, Option, none, some, Result,
  ok, err, execution, ◌>>=◌, ltb, leb, ◌==◌, length, take, drop, if◌then◌else◌,
}
use Prim.Native.Nat.{min}
use fsql.BTreeMap
use fsql.Ordered.{nat_ord, str_ord}
use fsql.BTreeMap.{BTreeMap}
use fsql.Options.{
  VectorMetric, euclidean, cosine, dot_product, GeoCoordinateSystem, wgs84, cartesian,
}
use fsql.Platform.{Platform}
use fsql.Value.{Row, Value, vector, Point, float_eq64}
use fsql.Table.{TableRuntimeOptions}

abbrev float_one : ℕ
float_one = 0x3ff0000000000000

abbrev float_two : ℕ
float_two = 0x4000000000000000

abbrev earth_radius_meters : ℕ
earth_radius_meters = 0x41584dae00000000

module _ (p : Platform) where
  squares : List ℕ → List ℕ → List ℕ
  squares (l ∷ ls) (r ∷ rs) =
      let delta = p.sub (p.from_f32 l) (p.from_f32 r) in p.mul delta delta ∷ squares ls rs
  squares _ _ = []

  products : List ℕ → List ℕ → List ℕ
  products (l ∷ ls) (r ∷ rs) = p.mul (p.from_f32 l) (p.from_f32 r) ∷ products ls rs
  products _ _ = []

  -- `dot_product`
  dot : List ℕ → List ℕ → ℕ
  dot left right = p.sum (products left right)

  metric_distance : VectorMetric → List ℕ → List ℕ → Result ℕ
  metric_distance euclidean left right = ok (p.sqrt (p.sum (squares left right)))
  metric_distance cosine left right =
      let left_norm = p.sqrt (dot left left) in
      let right_norm = p.sqrt (dot right right) in
      if float_eq64 left_norm 0 || float_eq64 right_norm 0
      then err (execution (codes "cosine vector distance requires non-zero vectors"))
      else ok (p.sub float_one (p.div (dot left right) (p.mul left_norm right_norm)))
  metric_distance dot_product left right = ok (p.neg (dot left right))

  unfoldable pub vector_distance : List ℕ → List ℕ → VectorMetric → Result ℕ
  unfolding metric_distance squares products dot
  vector_distance left right metric =
      if length left == length right
      then metric_distance metric left right
      else err (execution (codes "vector dimensions do not match"))

  haversine_meters : Point → Point → ℕ
  haversine_meters left right =
      let lat1 = p.to_radians left.lat in
      let lat2 = p.to_radians right.lat in
      let delta_lat = p.to_radians (p.sub right.lat left.lat) in
      let delta_lon = p.to_radians (p.sub right.lon left.lon) in
      let a =
        p.add (p.powi (p.sin (p.div delta_lat float_two)) 2) (
          p.mul (p.mul (p.cos lat1) (p.cos lat2)) (p.powi (p.sin (p.div delta_lon float_two)) 2)) in
      let c = p.mul float_two (p.atan2 (p.sqrt a) (p.sqrt (p.sub float_one a))) in
      p.mul earth_radius_meters c

  unfoldable pub geo_distance : Point → Point → GeoCoordinateSystem → ℕ
  unfolding haversine_meters
  geo_distance left right wgs84 = haversine_meters left right
  geo_distance left right cartesian =
      let delta_x = p.sub right.lon left.lon in
      let delta_y = p.sub right.lat left.lat in
      p.sqrt (p.add (p.mul delta_x delta_x) (p.mul delta_y delta_y))

  score_of : Option Value → ℕ → List ℕ → VectorMetric → Result (List (ℕ × ℕ))
  score_of (some (vector v)) row_id target metric = do
    distance ← vector_distance v target metric
    ok ((distance, row_id) ∷ [])
  score_of _ row_id target metric = ok []

  -- `rows.get(row_id).and_then(|row| row.get(column))`
  cell : BTreeMap ℕ Row → ℕ → Str → Option Value
  cell rows row_id column = elim (BTreeMap.get row_id rows) [
    | none ↦ none
    | some row ↦ BTreeMap.get column row
  ]

  pub vector_scores_chunk :
      BTreeMap ℕ Row → List ℕ → Str → List ℕ → VectorMetric → Result (List (ℕ × ℕ))
  unfolding score_of cell
  vector_scores_chunk rows [] column target metric = ok []
  vector_scores_chunk rows (row_id ∷ ids) column target metric = do
    score ← score_of (cell rows row_id column) row_id target metric
    scored ← vector_scores_chunk rows ids column target metric
    ok (score ++ scored)

  -- `chunks(size)`; fuel of the list's length is enough
  pub chunks : ℕ → ℕ → List ℕ → List (List ℕ)
  chunks zero size ids = []
  chunks (suc fuel) size [] = []
  chunks (suc fuel) size (i ∷ ids) = take size (i ∷ ids) ∷ chunks fuel size (drop size (i ∷ ids))

  -- the workers' results in the order of the chunks: the first error in that order is returned
  pub join_workers :
      BTreeMap ℕ Row → List (List ℕ) → Str → List ℕ → VectorMetric → Result (List (ℕ × ℕ))
  join_workers rows [] column target metric = ok []
  join_workers rows (chunk ∷ rest) column target metric = do
    scored ← vector_scores_chunk rows chunk column target metric
    others ← join_workers rows rest column target metric
    ok (scored ++ others)

  unfoldable pub vector_scores :
      BTreeMap ℕ Row → List ℕ → Str → List ℕ → TableRuntimeOptions → Result (List (ℕ × ℕ))
  unfolding vector_scores_chunk chunks join_workers
  vector_scores rows ids column target o =
      if leb o.worker_threads 1 || ltb (length ids) 2
      then vector_scores_chunk rows ids column target o.vector_index.metric
      else (let workers = min o.worker_threads (length ids) in
          let chunk_size = (length ids + workers - 1) / workers in
          join_workers rows (chunks (length ids) chunk_size ids) column target
            o.vector_index.metric)
