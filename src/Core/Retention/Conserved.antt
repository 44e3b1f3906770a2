-- ===== src/Core/Retention/Conserved.antt =====
-- That no sample is lost where no bucket is reached twice.
use tarisya.Prelude.{
  ℕ, ◌+◌, ◌-◌, some, Bool, false, ◌||◌, List, [], ◌∷◌, ◌++◌, map, length, leb, ◌≡◌, refl, sym, ap,
  ◌∙◌, arith, Bool-cases, inl, inr, All,
}
use tarisya.Core.Sql.{exists, select, delete, exists-append}
use tarisya.Core.Database.{MetricRow}
use tarisya.Core.Retention.{
  Bucket, Aggregates, Archive, Key, same_key, group_by, bucket_key, total, upsert, upsert_all,
  raw_key, hour_key, bucket_of_rows, bucket_of_buckets, is_old, is_old_bucket, downsample_raw,
  downsample_5m, MaintenanceConfig, maintain_at, start_of, raw_metrics_bucket,
  aggregated_metrics_bucket,
}
use tarisya.Core.Retention.Groups.{
  Distinct, sum_by, group_weight, keys_of, apart_at, weight-group_by, group_by-Distinct,
  All-group_by,
}

some_archive_inj : {F : Type 0} (x y : Archive F) → some x ≡ some y → x ≡ y
some_archive_inj x y same = cc

module _ {F : Type 0} where
  abbrev has_bucket : List (Bucket F) → Key → Bool
  has_bucket table k = exists (λ c. same_key (bucket_key c) k) table

  -- The table has no bucket with the key.
  abbrev pub Absent : List (Bucket F) → Key → Type 0
  Absent table k = has_bucket table k ≡ false

  upsert-Absent :
      (b : Bucket F) (table : List (Bucket F))
      → Absent table (bucket_key b)
      → upsert b table ≡ table ++ b ∷ []
  upsert-Absent b [] absent = refl
  upsert-Absent b (c ∷ table) absent = elim (Bool-cases (same_key (bucket_key c) (bucket_key b))) [
    | inl same ↦ let wrong = rw same at absent in cc
    | inr other ↦ rw other (ap (λ rest. c ∷ rest) (upsert-Absent b table (rw other at absent)))
  ]

  total-append :
      (table : List (Bucket F)) (b : Bucket F)
      → total (table ++ b ∷ []) ≡ total table + b.sample_count
  total-append [] b = omega arith
  total-append (c ∷ table) b = omega (arith, total-append table b)

  append-Absent :
      (table : List (Bucket F)) (b : Bucket F) (keys : List Key)
      → All (λ x. same_key (bucket_key b) x ≡ false) keys
      → All (Absent table) keys
      → All (Absent (table ++ b ∷ [])) keys
  append-Absent table b [] apart absent = tt
  append-Absent table b (k ∷ keys) (a, apart) (p, absent) =
      (exists-append _ table (b ∷ []) ∙ rw (p, a) refl, append-Absent table b keys apart absent)

  module _ {A : Type 0} (f : Key × List A → Bucket F) (weight : A → ℕ)
      (key_law : (k : Key) (rows : List A) → bucket_key (f (k, rows)) ≡ k)
      (count_law : (k : Key) (rows : List A)
        → (f (k, rows)).sample_count ≡ sum_by weight rows) where
    upsert_groups :
        (groups : List (Key × List A)) (table : List (Bucket F))
        → Distinct (keys_of groups)
        → All (Absent table) (keys_of groups)
        → total (upsert_all (map f groups) table) ≡ total table + group_weight weight groups
    upsert_groups [] table distinct absent = omega arith
    upsert_groups ((k, rows) ∷ groups) table (apart, distinct) (p, absent) =
        let b = f (k, rows) in
        let law = key_law k rows in
        let added : upsert b table ≡ table ++ b ∷ [] =
          upsert-Absent b table (ap (has_bucket table) law ∙ p) in
        let apart_b : All (λ x. same_key (bucket_key b) x ≡ false) (keys_of groups) =
          apart_at (bucket_key b) k (keys_of groups) law apart in
        let rest =
          upsert_groups groups (table ++ b ∷ []) distinct
            (append-Absent table b (keys_of groups) apart_b absent) in
        ap (λ t. total (upsert_all (map f groups) t)) added
        ∙ omega (arith, rest, total-append table b, count_law k rows)

  count-length : (rows : List (MetricRow F)) → length rows ≡ sum_by (λ m. 1) rows
  count-length [] = refl
  count-length (m ∷ rows) = omega (arith, count-length rows)

  count-total : (table : List (Bucket F)) → total table ≡ sum_by (λ b. b.sample_count) table
  count-total [] = refl
  count-total (b ∷ table) = omega (arith, count-total table)

  split-length :
      (test : MetricRow F → Bool) (rows : List (MetricRow F))
      → length rows ≡ length (delete test rows) + length (select test rows)
  split-length test [] = omega arith
  split-length test (m ∷ rows) = ground (arith, split-length test rows)

  split-total :
      (test : Bucket F → Bool) (table : List (Bucket F))
      → total table ≡ total (delete test table) + total (select test table)
  split-total test [] = omega arith
  split-total test (b ∷ table) = ground (arith, split-total test table)

  -- The samples that the tables stand for.
  abbrev pub samples : Archive F → ℕ
  samples s = length s.metrics + total s.metrics_5m + total s.metrics_1h

  module _ (a : Aggregates F) where
    raw_moved :
        (cutoff : ℕ) (s : Archive F)
        → All (λ m. Absent s.metrics_5m (raw_key m)) (select (is_old a cutoff) s.metrics)
        → samples (downsample_raw a cutoff s) ≡ samples s
    unfolding downsample_raw
    raw_moved cutoff s fresh =
        let old = select (is_old a cutoff) s.metrics in
        let moved =
          upsert_groups (bucket_of_rows a) (λ m. 1) (λ k rows. refl) (λ k rows. count-length rows)
            (group_by raw_key old) s.metrics_5m (group_by-Distinct raw_key old)
            (All-group_by raw_key (Absent s.metrics_5m) old fresh) in
        omega (
          arith,
          moved,
          weight-group_by raw_key (λ m. 1) old,
          count-length old,
          split-length (is_old a cutoff) s.metrics,
        )

    buckets_moved :
        (cutoff : ℕ) (s : Archive F)
        → All (λ b. Absent s.metrics_1h (hour_key b)) (select (is_old_bucket a cutoff) s.metrics_5m)
        → samples (downsample_5m a cutoff s) ≡ samples s
    unfolding downsample_5m
    buckets_moved cutoff s fresh =
        let old = select (is_old_bucket a cutoff) s.metrics_5m in
        let moved =
          upsert_groups (bucket_of_buckets a) (λ b. b.sample_count) (λ k rows. refl)
            (λ k rows. count-total rows) (group_by hour_key old) s.metrics_1h
            (group_by-Distinct hour_key old)
            (All-group_by hour_key (Absent s.metrics_1h) old fresh) in
        omega (
          arith,
          moved,
          weight-group_by hour_key (λ b. b.sample_count) old,
          count-total old,
          split-total (is_old_bucket a cutoff) s.metrics_5m,
        )

    -- Where the maintenance runs, and no row or bucket that it moves falls into a bucket that is
    -- already there: the samples before are those after and those of the buckets that have expired.
    pub maintained :
        (cfg : MaintenanceConfig) (now : ℕ) (s after : Archive F)
        → let cutoff = start_of raw_metrics_bucket (now - cfg.raw_retention) in
          let later = start_of aggregated_metrics_bucket (now - cfg.five_minute_retention) in
          let last = start_of aggregated_metrics_bucket (now - cfg.aggregated_retention) in
          let fine = downsample_raw a cutoff s in
          maintain_at a cfg now s ≡ some after
          → All (λ m. Absent s.metrics_5m (raw_key m)) (select (is_old a cutoff) s.metrics)
          → All
              (λ b. Absent fine.metrics_1h (hour_key b))
              (select (is_old_bucket a later) fine.metrics_5m)
          → samples s
            ≡ samples after
              + total (select (is_old_bucket a last) (downsample_5m a later fine).metrics_1h)
    unfolding maintain_at
    maintained cfg now s after runs fresh_rows fresh_buckets =
        let cutoff = start_of raw_metrics_bucket (now - cfg.raw_retention) in
        let later = start_of aggregated_metrics_bucket (now - cfg.five_minute_retention) in
        let last = start_of aggregated_metrics_bucket (now - cfg.aggregated_retention) in
        let fine = downsample_raw a cutoff s in
        let coarse = downsample_5m a later fine in
        let refused =
          leb cfg.raw_retention 0
          || leb cfg.five_minute_retention cfg.raw_retention
          || leb cfg.aggregated_retention cfg.five_minute_retention in
        let split = split-total (is_old_bucket a last) coarse.metrics_1h in
        let kept = buckets_moved later fine fresh_buckets ∙ raw_moved cutoff s fresh_rows in
        elim (Bool-cases refused) [
          | inl bad ↦ let wrong = rw bad at runs in cc
          | inr good ↦
              let is = some_archive_inj _ after (rw good at runs) in
              sym kept
              ∙ omega (arith, split)
              ∙ ap (λ x. samples x + total (select (is_old_bucket a last) coarse.metrics_1h)) is
        ]
