-- ===== src/Read/Payload.antt =====
-- The payload of getPayload (collector_better.go), and readChunks (read.go) on it.
use mathlib.Core.List.{append_assoc, append-nil}
use ftdc.Bson.Encode.{document_bytes}
use ftdc.Bson.Decode.RoundTrip.{IsEncodable, read_from-document_bytes}
use ftdc.Prelude.{
  ℕ, zero, suc, ◌+◌, ◌*◌, ◌%◌, ◌^◌, ◌<◌, ◌≡◌, ap, ◌∙◌, List, [], ◌∷◌, ◌++◌, arith, length, get_or,
  tabulate, length-tabulate, concat_from, ==_refl, Option,
}
use ftdc.Result.{ok}
use ftdc.Word.{word, IsWord, All}
use ftdc.Bson.{Document}
use ftdc.Codec.{Codec, CodecLaws}
use ftdc.Varint.{encode_size_value}
use ftdc.Varint.RoundTrip.{read_size-encode_size_value}
use ftdc.Series.RoundTrip.{tape, encoding}
use ftdc.Series.Rows.{row, all_rows, write_deltas-all_rows}
use ftdc.Metrics.Flatten.{Metric, metric_for_document}
use ftdc.Collector.Better.{BetterCollector, values_of, payload_of}
use ftdc.Read.{populate, read_payload, read_buf_metrics}
use ftdc.Read.Populate.{with_series, populate-encoding}

get_or-IsWord : (xs : List ℕ) (i : ℕ) → All IsWord xs → IsWord (get_or xs i 0)
get_or-IsWord [] i h = omega arith
get_or-IsWord (x ∷ xs) zero h = h.0
get_or-IsWord (x ∷ xs) (suc i) h = get_or-IsWord xs i h.1

tabulate-All : (f : ℕ → ℕ) → ((i : ℕ) → IsWord (f i)) → (i n : ℕ) → All IsWord (tabulate f i n)
tabulate-All f each i zero = tt
tabulate-All f each i (suc n) = (each i, tabulate-All f each (i + 1) n)

area_small : (k n : ℕ) → k < 2 ^ 32 → n < 2 ^ 32 → k * n < word
area_small k n h i = grind arith

-- The series of every metric, as the collector's deltas give them.
abbrev pub series_of : BetterCollector → List Metric → List Metric
series_of c = with_series (row c.deltas c.max_deltas c.num_samples) 0

length-row :
    (c : BetterCollector) (i : ℕ)
    → length (row c.deltas c.max_deltas c.num_samples i) ≡ c.num_samples
unfolding row
length-row c i = length-tabulate _ 0 c.num_samples

row-IsWord :
    (c : BetterCollector)
    → All IsWord c.deltas
    → (i : ℕ) → All IsWord (row c.deltas c.max_deltas c.num_samples i)
unfolding row
row-IsWord c h i = tabulate-All _ (λ j. get_or-IsWord c.deltas _ h) 0 c.num_samples

module _ (codec : Codec) (laws : CodecLaws codec) where
  payload_of_lem :
      (reference : Document) (c : BetterCollector)
      → length (values_of c.last_sample) < 2 ^ 32
      → c.num_samples < 2 ^ 32
      → payload_of codec reference c
        ≡ document_bytes reference
          ++ (encode_size_value (length (values_of c.last_sample))
              ++ (encode_size_value c.num_samples
                  ++ encoding 0 (
                      concat_from
                        (row c.deltas c.max_deltas c.num_samples)
                        0
                        (length (values_of c.last_sample)))))
  unfolding payload_of all_rows
  payload_of_lem reference c few short =
      let k = length (values_of c.last_sample) in
      let e : k % 2 ^ 32 ≡ k = omega arith in
      let e' : c.num_samples % 2 ^ 32 ≡ c.num_samples = omega arith in
      rw (write_deltas-all_rows, e, e')
        (append_assoc (document_bytes reference) _ _
          ∙ ap (λ (l : List ℕ). document_bytes reference ++ l)
              (append_assoc (encode_size_value k) _ _))

  read_buf_metrics-marshal :
      (reference : Document) (rest : List ℕ)
      → IsEncodable reference
      → read_buf_metrics codec (document_bytes reference ++ rest)
        ≡ ok (reference, metric_for_document [] reference, rest)
  unfolding read_buf_metrics
  read_buf_metrics-marshal reference rest h = rw (read_from-document_bytes reference rest h)

  -- readChunks, on the payload of a collector whose reference has a metric for each of its values,
  -- returns the chunk with the reference, the number of samples and the series of every metric.
  pub read_payload-payload_of :
      (id : Option ℕ) (metadata : Option Document) (reference : Document) (c : BetterCollector)
      → IsEncodable reference
      → length (metric_for_document [] reference) ≡ length (values_of c.last_sample)
      → length (values_of c.last_sample) < 2 ^ 32
      → c.num_samples < 2 ^ 32
      → All IsWord c.deltas
      → read_payload codec id metadata (payload_of codec reference c)
        ≡ ok (record {
          metrics = series_of c (metric_for_document [] reference);
          n_points = c.num_samples + 1;
          id = id;
          metadata = metadata;
          reference = reference;
        })
  read_payload-payload_of id metadata reference c enc same few short words =
      let k = length (values_of c.last_sample) in
      let ms = metric_for_document [] reference in
      let n = c.num_samples in
      let rows = row c.deltas c.max_deltas n in
      let pop : populate n ms (tape 0 (encoding 0 (concat_from rows 0 k)))
          ≡ ok (with_series rows 0 ms, tape 0 []) =
        rw (append-nil, same) at
          (populate-encoding rows n ms [] (length-row c) (row-IsWord c words)
            (omega (arith, area_small k n few short, ap (λ (l : ℕ). l * n) same))) in
      rw (payload_of_lem reference c few short) (
        unfold read_payload in
        rw (read_buf_metrics-marshal reference _ enc) (
          rw (read_size-encode_size_value k _ few)
            (rw (read_size-encode_size_value n _ short) (rw (same, ==_refl k) (rw pop)))))
